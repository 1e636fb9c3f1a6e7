-- ===== src/Base/Tests.antt =====
-- Boolean tests on numbers, on decisions and on optional values, and the conditional.
use Prim.Native.Nat.{ℕ, compare, Ordering}
use Prim.Native.String.{String}
use mathlib.Core.Path.{◌≡◌, refl}
use mathlib.Core.Logic.{◌⊎◌, inl, inr}
use mathlib.Core.Bool.{Bool, true, false, not}
use mathlib.Core.Option.{Option, none, some}
use native.Mathlib.Omega.{arith}
use text.Mathlib.Text.{◌==◌ as str_eq}
use text.Mathlib.TextEquality.{eq_iff}

abbrev pub ltb : ℕ → ℕ → Bool
ltb a b = elim (compare a b) [ Ordering.lt ↦ true | _ ↦ false ]

abbrev pub leb : ℕ → ℕ → Bool
leb a b = elim (compare a b) [ Ordering.gt ↦ false | _ ↦ true ]

infix 50 ◌==◌
abbrev pub ◌==◌ : ℕ → ℕ → Bool
a == b = elim (compare a b) [ Ordering.eq ↦ true | _ ↦ false ]

infix 1 if◌then◌else◌
abbrev pub if◌then◌else◌ {ℓ} : {A : Type ℓ} → Bool → A → A → A
if true then x else y = x
if false then x else y = y

-- The Boolean of a decision.
abbrev pub is {ℓ} : {P : Type ℓ} → Dec P → Bool
is (yes _) = true
is (no _) = false

abbrev pub is_none {ℓ} : {A : Type ℓ} → Option A → Bool
is_none none = true
is_none (some _) = false

abbrev pub is_some {ℓ} : {A : Type ℓ} → Option A → Bool
is_some none = false
is_some (some _) = true

pub Bool-cases : (b : Bool) → (b ≡ true) ⊎ (b ≡ false)
Bool-cases true = inl refl
Bool-cases false = inr refl

pub Option-cases {ℓ} : {A : Type ℓ} (o : Option A) → (o ≡ none) ⊎ ((a : A) × (o ≡ some a))
Option-cases none = inl refl
Option-cases (some a) = inr (a, refl)

-- Equality of texts is decided by the text library's Boolean test.
text_decision : (s t : String) (b : Bool) → str_eq s t ≡ b → Dec (s ≡ t)
text_decision s t true e = yes ((eq_iff s t).0 e)
text_decision s t false e = no (λ p. ground (arith, (eq_iff s t).1 p))

unfoldable pub String_discrete : Discrete String
unfolding text_decision
String_discrete s t = text_decision s t (str_eq s t) refl

pub is-yes {ℓ} : {P : Type ℓ} (d : Dec P) → P → is d ≡ true
is-yes (yes _) p = refl
is-yes (no n) p = absurd (n p)

pub is-no {ℓ} : {P : Type ℓ} (d : Dec P) → ¬ P → is d ≡ false
is-no (yes p) n = absurd (n p)
is-no (no _) n = refl

pub is-true {ℓ} : {P : Type ℓ} (d : Dec P) → is d ≡ true → P
is-true (yes p) h = p
is-true (no n) h = cc

abbrev pub same_text : String → String → Bool
same_text s t = is (String_discrete s t)

-- `len(s) >= 1`
abbrev pub present : String → Bool
present s = not (same_text s "")

pub own_text : (s : String) → same_text s s ≡ true
own_text s = is-yes (String_discrete s s) refl

pub not-false : (b : Bool) → not b ≡ false → b ≡ true
not-false true h = refl
not-false false h = absurd (ground arith)
