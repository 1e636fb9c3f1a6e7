-- ===== src/Base/Rows.antt =====
-- A table as a list of rows: UPDATE of the row that still equals the one that was read.
use mathlib.Core.Path.{◌≡◌, refl, subst}
use mathlib.Core.Logic.{◌⊎◌, inl, inr}
use mathlib.Core.Bool.{Bool, true}
use mathlib.Core.Option.{Option, none, some}
use mathlib.Core.List.{List, [], ◌∷◌}
use native.Mathlib.Omega.{arith}
use oria.Base.Tests.{Bool-cases, Option-cases}
use oria.Base.Lists.{find, any, All}

pub All-map :
    {A : Type 0} (P Q : A → Type 0)
    → ((a : A) → P a → Q a)
    → (rows : List A) → All P rows
    → All Q rows
All-map P Q keep [] h = tt
All-map P Q keep (row ∷ rows) h = (keep row h.0, All-map P Q keep rows h.1)

module _ {A : Type 0} {e : A} (same : (a : A) → Dec (a ≡ e)) (f : A → A) where
  -- `none` if no row equals `e`; otherwise the first that does is replaced.
  unfoldable pub replace_where : List A → Option (List A)
  replace_where [] = none
  replace_where (row ∷ rows) =
      let rest = replace_where rows in
      elim (same row) [
        | yes _ ↦ some (f row ∷ rows)
        | no _ ↦ elim rest [ none ↦ none | some updated ↦ some (row ∷ updated) ]
      ]

  pub replace_where_here :
      (row : A) (rows : List A) → row ≡ e → replace_where (row ∷ rows) ≡ some (f row ∷ rows)
  unfolding replace_where
  replace_where_here row rows q = elim (same row) [ yes p ↦ ground arith | no n ↦ absurd (n q) ]

  pub replace_where_next :
      (row : A) (rows : List A) {updated : List A}
      → (row ≡ e → ⊥)
      → replace_where rows ≡ some updated
      → replace_where (row ∷ rows) ≡ some (row ∷ updated)
  unfolding replace_where
  replace_where_next row rows other there = elim (same row) [
    | yes p ↦ absurd (other p)
    | no n ↦ ground arith
  ]

  -- A search whose test does not see the update finds the same row, or the updated one.
  pub find-replace_where :
      (p : A → Bool)
      → p (f e) ≡ p e
      → (rows : List A) {rows' : List A} (j : A) → replace_where rows ≡ some rows'
      → find p rows ≡ some j
      → (j' : A) × (find p rows' ≡ some j') × ((j' ≡ j) ⊎ ((j ≡ e) × (j' ≡ f e)))
  unfolding replace_where
  find-replace_where p k [] j u h = cc
  find-replace_where p k (row ∷ rows) {rows'} j u h = elim (same row) [
    | yes q ↦ elim (Bool-cases (p e)) [
      | inl hit ↦ (f e, ground arith, inr (ground arith, refl))
      | inr miss ↦ (j, ground arith, inl refl)
    ]
    | no n ↦ elim (Option-cases (replace_where rows)) [
      | inl gone ↦ absurd (ground arith)
      | inr (updated, there) ↦ elim (Bool-cases (p row)) [
        | inl hit ↦ (j, ground arith, inl refl)
        | inr miss ↦
            let (j', found, which) = find-replace_where p k rows j there (ground arith) in
            (j', ground arith, which)
      ]
    ]
  ]

  -- A search that finds the row to be updated finds the update.
  pub find-replace_where_self :
      (p : A → Bool)
      → p (f e) ≡ true
      → p e ≡ true
      → (rows : List A) {rows' : List A} → replace_where rows ≡ some rows'
      → find p rows ≡ some e
      → find p rows' ≡ some (f e)
  unfolding replace_where
  find-replace_where_self p new old [] u h = cc
  find-replace_where_self p new old (row ∷ rows) {rows'} u h = elim (same row) [
    | yes q ↦ ground arith
    | no n ↦ elim (Option-cases (replace_where rows)) [
      | inl gone ↦ absurd (ground arith)
      | inr (updated, there) ↦
          let rest = λ (m : find p rows ≡ some e). find-replace_where_self p new old rows there m in
          elim (Bool-cases (p row)) [
            | inl hit ↦ absurd (n (ground arith))
            | inr miss ↦ let r = rest (ground arith) in ground arith
          ]
    ]
  ]

  -- A predicate holds of the rows after the update if it holds of the new row, and each row before
  -- either is the one that is updated or meets it.
  pub All-replace_where :
      (P Q : A → Type 0)
      → Q (f e)
      → ((a : A) → P a → Q a)
      → (rows : List A) {rows' : List A} → replace_where rows ≡ some rows'
      → All P rows
      → All Q rows'
  unfolding replace_where
  All-replace_where P Q new keep [] u h = absurd (ground arith)
  All-replace_where P Q new keep (row ∷ rows) {rows'} u h = elim (same row) [
    | yes q ↦
        let made : rows' ≡ f e ∷ rows = ground arith in rw made (new, All-map P Q keep rows h.1)
    | no n ↦ elim (Option-cases (replace_where rows)) [
      | inl gone ↦ absurd (ground arith)
      | inr (updated, there) ↦
          let made : rows' ≡ row ∷ updated = ground arith in
          rw made (keep row h.0, All-replace_where P Q new keep rows there h.1)
    ]
  ]

  -- A predicate of all rows holds of the row that is updated.
  pub replace_where-All :
      (P : A → Type 0) (rows : List A) {rows' : List A}
      → replace_where rows ≡ some rows'
      → All P rows
      → P e
  unfolding replace_where
  replace_where-All P [] u h = absurd (ground arith)
  replace_where-All P (row ∷ rows) u h = elim (same row) [
    | yes q ↦ subst P q h.0
    | no n ↦ elim (Option-cases (replace_where rows)) [
      | inl gone ↦ absurd (ground arith)
      | inr (updated, there) ↦ replace_where-All P rows there h.1
    ]
  ]

  pub any-replace_where :
      (p : A → Bool)
      → p (f e) ≡ p e
      → (rows : List A) {rows' : List A} → replace_where rows ≡ some rows'
      → any p rows ≡ true
      → any p rows' ≡ true
  unfolding replace_where
  any-replace_where p k [] u h = cc
  any-replace_where p k (row ∷ rows) {rows'} u h = elim (same row) [
    | yes q ↦ ground arith
    | no n ↦ elim (Option-cases (replace_where rows)) [
      | inl gone ↦ absurd (ground arith)
      | inr (updated, there) ↦ elim (Bool-cases (p row)) [
        | inl hit ↦ ground arith
        | inr miss ↦ let r = any-replace_where p k rows there (ground arith) in ground arith
      ]
    ]
  ]

  pub any-replace_where_new :
      (p : A → Bool)
      → p (f e) ≡ true
      → (rows : List A) {rows' : List A} → replace_where rows ≡ some rows'
      → any p rows' ≡ true
  unfolding replace_where
  any-replace_where_new p k [] u = absurd (ground arith)
  any-replace_where_new p k (row ∷ rows) {rows'} u = elim (same row) [
    | yes q ↦ ground arith
    | no n ↦ elim (Option-cases (replace_where rows)) [
      | inl gone ↦ absurd (ground arith)
      | inr (updated, there) ↦ let r = any-replace_where_new p k rows there in ground arith
    ]
  ]
