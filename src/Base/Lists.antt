-- ===== src/Base/Lists.antt =====
-- Lists: length, searching and updating rows, and a predicate over all rows.
use Prim.Native.Nat.{ℕ, zero, suc, ◌+◌, ◌≤◌}
use mathlib.Core.Path.{◌≡◌, refl, ap, ◌∙◌}
use mathlib.Core.Bool.{Bool, true, false, ◌||◌}
use mathlib.Core.Option.{Option, none, some}
use mathlib.Core.List.{List, [], ◌∷◌, ◌++◌, map}
use native.Mathlib.Omega.{arith}
use mathlib.Core.Logic.{inl, inr}
use oria.Base.Tests.{if◌then◌else◌, Bool-cases}

sum_suc : (m n : ℕ) → suc m + n ≡ suc (m + n)
sum_suc m n = omega arith

module _ {ℓ} {A : Type ℓ} where
  abbrev pub length : List A → ℕ
  length [] = 0
  length (x ∷ xs) = suc (length xs)

  abbrev pub All {κ} : (A → Type κ) → List A → Type κ
  All P [] = Unit
  All P (x ∷ xs) = P x × All P xs

  -- `next((x for x in xs if test(x)), None)`
  abbrev pub find : (A → Bool) → List A → Option A
  find test [] = none
  find test (x ∷ xs) = if test x then some x else find test xs

  abbrev pub any : (A → Bool) → List A → Bool
  any test [] = false
  any test (x ∷ xs) = test x || any test xs

  abbrev pub select : (A → Bool) → List A → List A
  select test [] = []
  select test (x ∷ xs) = if test x then x ∷ select test xs else select test xs

  abbrev pub take : ℕ → List A → List A
  take zero xs = []
  take (suc n) [] = []
  take (suc n) (x ∷ xs) = x ∷ take n xs

  abbrev pub drop : ℕ → List A → List A
  drop zero xs = xs
  drop (suc n) [] = []
  drop (suc n) (x ∷ xs) = drop n xs

  pub length-append : (xs ys : List A) → length (xs ++ ys) ≡ length xs + length ys
  length-append [] ys = omega arith
  length-append (x ∷ xs) ys = omega (arith, length-append xs ys)

  pub All-append {κ} : (P : A → Type κ) (xs ys : List A) → All P xs → All P ys → All P (xs ++ ys)
  All-append P [] ys hx hy = hy
  All-append P (x ∷ xs) ys hx hy = (hx.0, All-append P xs ys hx.1 hy)

  pub find-holds : (test : A → Bool) (xs : List A) {a : A} → find test xs ≡ some a → test a ≡ true
  find-holds test [] h = cc
  find-holds test (x ∷ xs) h = elim (Bool-cases (test x)) [
    | inl hit ↦ ground arith
    | inr miss ↦ find-holds test xs (ground arith)
  ]

  -- What a search finds satisfies its test, and no test that all elements fail.
  pub find-any :
      (p q : A → Bool) (xs : List A) {a : A}
      → find p xs ≡ some a
      → any q xs ≡ false
      → (p a ≡ true) × (q a ≡ false)
  find-any p q [] f h = cc
  find-any p q (x ∷ xs) f h = elim (Bool-cases (p x)) [
    | inl hit ↦ (ground arith, ground arith)
    | inr miss ↦ find-any p q xs (ground arith) (ground arith)
  ]

  pub find-map :
      (p : A → Bool) (g : A → A)
      → ((x : A) → p (g x) ≡ p x)
      → (xs : List A) {a : A} → find p xs ≡ some a
      → find p (map g xs) ≡ some (g a)
  find-map p g keep [] f = cc
  find-map p g keep (x ∷ xs) {a} f =
      let k = keep x in
      elim (Bool-cases (p x)) [
        | inl hit ↦ ground arith
        | inr miss ↦
            let rest : find p (map g xs) ≡ some (g a) = find-map p g keep xs (ground arith) in
            ground arith
      ]

  -- An update that leaves alone what a search looks for.
  pub find-map_fixed :
      (p : A → Bool) (g : A → A)
      → ((x : A) → p (g x) ≡ p x)
      → ((x : A) → p x ≡ true → g x ≡ x)
      → (xs : List A) → find p (map g xs) ≡ find p xs
  find-map_fixed p g keep fixed [] = refl
  find-map_fixed p g keep fixed (x ∷ xs) =
      let k = keep x in
      let rest = find-map_fixed p g keep fixed xs in
      elim (Bool-cases (p x)) [
        | inl hit ↦ let q = fixed x hit in ground arith
        | inr miss ↦ ground arith
      ]

  -- An update of the rows that meet a test adds no more of them to a selection than it updates.
  pub length-select_update :
      (p q : A → Bool) (g : A → A) (xs : List A)
      → length (select p (map (λ x. if q x then g x else x) xs))
        ≤ length (select p xs) + length (select q xs)
  length-select_update p q g [] = omega arith
  length-select_update p q g (x ∷ xs) = let rest = length-select_update p q g xs in ground arith

  pub length-select_lost :
      (p q : A → Bool) (g : A → A)
      → ((x : A) → q x ≡ true → p (g x) ≡ false)
      → (xs : List A)
      → length (select p (map (λ x. if q x then g x else x) xs)) ≤ length (select p xs)
  length-select_lost p q g lost [] = omega arith
  length-select_lost p q g lost (x ∷ xs) =
      let rest = length-select_lost p q g lost xs in
      elim (Bool-cases (q x)) [
        | inl hit ↦ let l = lost x hit in ground arith
        | inr miss ↦ ground arith
      ]

  pub any-find : (p : A → Bool) (xs : List A) → any p xs ≡ false → find p xs ≡ none
  any-find p [] h = refl
  any-find p (x ∷ xs) h = let rest = any-find p xs in ground arith

  pub length-drop : (n : ℕ) (xs : List A) → n ≤ length xs → n + length (drop n xs) ≡ length xs
  length-drop zero xs h = omega arith
  length-drop (suc n) [] h = omega (arith, h)
  length-drop (suc n) (x ∷ xs) h = omega (arith, length-drop n xs (omega (arith, h)))

  pub drop-drop : (m n : ℕ) (xs : List A) → drop (m + n) xs ≡ drop n (drop m xs)
  drop-drop zero n xs = ap (λ k. drop k xs) (omega arith)
  drop-drop (suc m) zero [] = ap (λ k. drop k []) (sum_suc m zero)
  drop-drop (suc m) (suc n) [] = ap (λ k. drop k []) (sum_suc m (suc n))
  drop-drop (suc m) n (x ∷ xs) = ap (λ k. drop k (x ∷ xs)) (sum_suc m n) ∙ drop-drop m n xs

  -- What is taken, and what is left of as many.
  pub take_then_drop : (n : ℕ) (xs : List A) → take n xs ++ drop (length (take n xs)) xs ≡ xs
  take_then_drop zero xs = refl
  take_then_drop (suc n) [] = refl
  take_then_drop (suc n) (x ∷ xs) = ap (λ ys. x ∷ ys) (take_then_drop n xs)

  pub take-pos : (n : ℕ) (xs : List A) → 1 ≤ n → 1 ≤ length xs → 1 ≤ length (take n xs)
  take-pos zero xs h k = omega (arith, h)
  take-pos (suc n) [] h k = omega (arith, k)
  take-pos (suc n) (x ∷ xs) h k = omega arith
