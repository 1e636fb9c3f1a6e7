-- ===== src/Base/Keys.antt =====
-- A table whose rows have distinct keys, under UPDATE of one row.
use mathlib.Core.Path.{◌≡◌, refl, subst, ◌∙◌}
use mathlib.Core.Logic.{◌≢◌, inl, inr}
use mathlib.Core.Bool.{Bool, false}
use mathlib.Core.Option.{none, some}
use mathlib.Core.List.{List, [], ◌∷◌}
use native.Mathlib.Omega.{arith}
use oria.Base.Tests.{Option-cases}
use oria.Base.Lists.{All}
use oria.Base.Rows.{replace_where, replace_where-All, All-replace_where, All-map}

-- No row has the key of an earlier one.
abbrev pub Distinct : {A : Type 0} → (A → A → Bool) → List A → Type 0
Distinct key [] = Unit {0}
Distinct key (row ∷ rows) = All (λ x. key row x ≡ false) rows × Distinct key rows

module _ {A : Type 0} (key : A → A → Bool) {e : A} (same : (a : A) → Dec (a ≡ e)) (f : A → A) where
  pub Distinct-replace_where :
      ((a : A) → key (f e) a ≡ key e a)
      → ((a : A) → key a (f e) ≡ key a e)
      → (rows : List A) {rows' : List A} → replace_where same f rows ≡ some rows'
      → Distinct key rows
      → Distinct key rows'
  unfolding replace_where
  Distinct-replace_where left right [] u d = absurd (ground arith)
  Distinct-replace_where left right (row ∷ rows) {rows'} u d = elim (same row) [
    | yes q ↦
        let made : rows' ≡ f e ∷ rows = ground arith in
        rw made (
          All-map (λ x. key row x ≡ false) (λ x. key (f e) x ≡ false)
              (λ a h. left a ∙ (subst (λ r. key r a ≡ false) q h)) rows d.0,
          d.1,
        )
    | no n ↦ elim (Option-cases (replace_where same f rows)) [
      | inl gone ↦ absurd (ground arith)
      | inr (updated, there) ↦
          let made : rows' ≡ row ∷ updated = ground arith in
          rw made (
            All-replace_where same f (λ x. key row x ≡ false) (λ x. key row x ≡ false)
                (right row ∙ replace_where-All same f (λ x. key row x ≡ false) rows there d.0)
                (λ a h. h) rows there d.0,
            Distinct-replace_where left right rows there d.1,
          )
    ]
  ]

  -- The rows that an update leaves alone have other keys.
  pub All-replace_where_keys :
      (P Q : A → Type 0)
      → ((a b : A) → key a b ≡ false → key b a ≡ false)
      → (P e → Q (f e))
      → ((a : A) → key a e ≡ false → P a → Q a)
      → (rows : List A) {rows' : List A} → replace_where same f rows ≡ some rows'
      → Distinct key rows
      → All P rows
      → All Q rows'
  unfolding replace_where
  All-replace_where_keys P Q flip new keep [] u d h = absurd (ground arith)
  All-replace_where_keys P Q flip new keep (row ∷ rows) {rows'} u d h = elim (same row) [
    | yes q ↦
        let made : rows' ≡ f e ∷ rows = ground arith in
        rw made (new (subst P q h.0), others q rows d.0 h.1)
    | no n ↦ elim (Option-cases (replace_where same f rows)) [
      | inl gone ↦ absurd (ground arith)
      | inr (updated, there) ↦
          let made : rows' ≡ row ∷ updated = ground arith in
          let other = replace_where-All same f (λ x. key row x ≡ false) rows there d.0 in
          rw made (keep row other h.0, All-replace_where_keys P Q flip new keep rows there d.1 h.1)
    ]
  ]
    where
      others : row ≡ e → (xs : List A) → All (λ x. key row x ≡ false) xs → All P xs → All Q xs
      others q [] k g = tt
      others q (x ∷ xs) k g =
          (keep x (flip e x (subst (λ r. key r x ≡ false) q k.0)) g.0, others q xs k.1 g.1)

  pub replace_where-none :
      (rows : List A) → All (λ a. a ≢ e) rows → replace_where same f rows ≡ none
  unfolding replace_where
  replace_where-none [] h = refl
  replace_where-none (row ∷ rows) h = elim (same row) [
    | yes q ↦ absurd (h.0 q)
    | no n ↦ let rest = replace_where-none rows h.1 in ground arith
  ]
