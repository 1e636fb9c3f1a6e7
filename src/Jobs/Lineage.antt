-- ===== src/Jobs/Lineage.antt =====
-- The publication loop decides descent from the accepted checkpoint, up to its bound.
use oria.Base.{
  ℕ, zero, suc, String, ◌≡◌, refl, ap, inl, inr, ◌∙◌, is-yes, is-no, Bool, Option, none, some,
  Result, ok, or_raise, is, String_discrete, arith, >>=-eq-ok, Option-cases,
}
use oria.Jobs.{JobError}
use oria.Jobs.Checkpoint.{Saver, Snapshot, ancestor, lineage, Descends, child, further}

ancestor-eq :
    (ns accepted : String) (value : Snapshot) (hit : Bool) (id : String)
    → ancestor ns accepted value ≡ ok (hit, id)
    → (value.parent ≡ some (ns, id)) × (hit ≡ is (String_discrete id accepted))
unfolding ancestor
ancestor-eq ns accepted value hit id h = elim (Option-cases value.parent) [
  | inl none_left ↦ absurd (ground arith)
  | inr ((pns, pid), there) ↦ elim (String_discrete pns ns) [
    | yes p ↦ (ground arith, ground arith)
    | no n ↦ absurd (ground arith)
  ]
]

ancestor-ok :
    (ns accepted : String) (value : Snapshot) (id : String)
    → value.parent ≡ some (ns, id)
    → ancestor ns accepted value ≡ ok (is (String_discrete id accepted), id)
unfolding ancestor
ancestor-ok ns accepted value id h = ground arith

or_raise-eq : {A : Type 0} (o : Option A) (e : JobError) {a : A} → or_raise o e ≡ ok a → o ≡ some a
or_raise-eq none e h = cc
or_raise-eq (some b) e h = ground arith

module _ (saver : Saver) (ns accepted : String) (checks : ℕ → Result JobError (Unit {0})) where
  -- A climb that ends well has met the accepted checkpoint among the ancestors.
  pub lineage-Descends :
      (n : ℕ) (value : Snapshot)
      → lineage saver ns accepted checks n value ≡ ok tt
      → Descends saver ns accepted n value
  unfolding lineage
  lineage-Descends zero value h = cc
  lineage-Descends (suc n) value h =
      let (found, q, rest) = >>=-eq-ok (ancestor ns accepted value) _ h in
      let (p, d) = ancestor-eq ns accepted value found.0 found.1 q in
      elim (String_discrete found.1 accepted) [
        | yes e ↦ child value (p ∙ ap (λ x. some (ns, x)) e)
        | no away ↦
            let miss = d ∙ is-no (String_discrete found.1 accepted) away in
            let climbed = rw miss at rest in
            let (_, _, left) = >>=-eq-ok (checks n) _ climbed in
            let (next, there, up) =
              >>=-eq-ok (or_raise (saver ns found.1) JobError.lineage_unavailable) _ left in
            further value next found.1 p (or_raise-eq (saver ns found.1) _ there)
              (lineage-Descends n next up)
      ]

  -- The loop finds an accepted ancestor within its bound, while its checks pass.
  pub Descends-lineage :
      (n : ℕ) (value : Snapshot)
      → ((k : ℕ) → checks k ≡ ok tt)
      → Descends saver ns accepted n value
      → lineage saver ns accepted checks n value ≡ ok tt
  unfolding lineage
  Descends-lineage zero value pass d = elim d [ ]
  Descends-lineage (suc n) value pass (child _ p) =
      rw (ancestor-ok ns accepted value accepted p, is-yes (String_discrete accepted accepted) refl)
  Descends-lineage (suc n) value pass (further _ next id p there d) =
      elim (String_discrete id accepted) [
        | yes here ↦
            rw (ancestor-ok ns accepted value id p, is-yes (String_discrete id accepted) here)
        | no away ↦
            rw
              (
                ancestor-ok ns accepted value id p,
                is-no (String_discrete id accepted) away,
                pass n,
                there,
              )
              (Descends-lineage n next pass d)
      ]
