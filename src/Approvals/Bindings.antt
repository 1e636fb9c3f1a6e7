-- ===== src/Approvals/Bindings.antt =====
-- A comparison of the columns of two bindings is a comparison of the bindings.
use oria.Base.{
  ℕ, String, ◌≡◌, refl, ap, subst, inl, inr, Bool, true, false, ◌&&◌, Option, none, some, is,
  is-yes, is-no, is-true, own_text, String_discrete, arith, Bool-cases, ◌==◌,
}
use oria.Approvals.{BusinessBinding, Binding-discrete, same_text}
use oria.Approvals.Store.{not_distinct, same_columns}

not_distinct-eq : (a b : Option String) → not_distinct a b ≡ true → a ≡ b
not_distinct-eq none none h = refl
not_distinct-eq none (some b) h = cc
not_distinct-eq (some a) none h = cc
not_distinct-eq (some a) (some b) h = ap some (is-true (String_discrete a b) h)

own_distinct : (a : Option String) → not_distinct a a ≡ true
own_distinct none = refl
own_distinct (some a) = own_text a

five :
    (a b c d e : Bool)
    → (a && b && c && d && e) ≡ true
    → (a ≡ true) × (b ≡ true) × (c ≡ true) × (d ≡ true) × (e ≡ true)
five a b c d e h = ground arith

same_number : (m n : ℕ) → (m == n) ≡ true → m ≡ n
same_number m n h = ground arith

own_number : (n : ℕ) → (n == n) ≡ true
own_number n = ground arith

pub same_columns-eq :
    (f b : BusinessBinding) → f.campaign_id ≡ b.campaign_id → same_columns f b ≡ true → f ≡ b
same_columns-eq f b c h =
    let (h1, h2, h3, h4, h5) =
      five (f.enrollment_version == b.enrollment_version) (f.link_version == b.link_version)
        (same_text f.selection_version b.selection_version)
        (not_distinct f.selection_hash b.selection_hash)
        (same_text f.rule_snapshot_hash b.rule_snapshot_hash) h in
    let q1 = same_number f.enrollment_version b.enrollment_version h1 in
    let q2 = same_number f.link_version b.link_version h2 in
    let q3 = is-true (String_discrete f.selection_version b.selection_version) h3 in
    let q4 = not_distinct-eq f.selection_hash b.selection_hash h4 in
    let q5 = is-true (String_discrete f.rule_snapshot_hash b.rule_snapshot_hash) h5 in
    λ i. record {
      campaign_id = c i;
      enrollment_version = q1 i;
      link_version = q2 i;
      selection_version = q3 i;
      selection_hash = q4 i;
      rule_snapshot_hash = q5 i;
    }

own_columns : (b : BusinessBinding) → same_columns b b ≡ true
own_columns b =
    rw
      (
        own_number b.enrollment_version,
        own_number b.link_version,
        own_text b.selection_version,
        own_distinct b.selection_hash,
        own_text b.rule_snapshot_hash,
      )
      refl

pub same_columns-discrete :
    (f b : BusinessBinding)
    → f.campaign_id ≡ b.campaign_id
    → same_columns f b ≡ is (Binding-discrete f b)
same_columns-discrete f b c = elim (Bool-cases (same_columns f b)) [
  | inl same ↦ rw (same, is-yes (Binding-discrete f b) (same_columns-eq f b c same)) refl
  | inr other ↦ rw (other, is-no (Binding-discrete f b) (λ q. no_columns f b q other)) refl
]
  where
    no_columns : (x y : BusinessBinding) → x ≡ y → same_columns x y ≡ false → ⊥
    no_columns x y q h =
        let own : same_columns x x ≡ true = own_columns x in
        let k : same_columns x y ≡ true = subst (λ z. same_columns x z ≡ true) q own in ground arith
