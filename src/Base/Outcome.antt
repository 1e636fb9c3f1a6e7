-- ===== src/Base/Outcome.antt =====
-- Exceptions as values, and what a clock returns.
use Prim.Native.Nat.{ℕ}
use mathlib.Core.Path.{◌≡◌, refl}
use mathlib.Core.Logic.{◌⊎◌, inl, inr}
use mathlib.Core.Bool.{Bool, true, false}
use mathlib.Core.Option.{Option, none, some}

-- A call that returns, or raises.
pub data Result (E : Type 0) (A : Type 0) : Type 0 where
  ok : A → Result E A
  err : E → Result E A

infixl 5 ◌>>=◌ ◌>>◌
abbrev pub ◌>>=◌ : {E A B : Type 0} → Result E A → (A → Result E B) → Result E B
err raised >>= next = err raised
ok value >>= next = next value

abbrev pub ◌>>◌ : {E B : Type 0} → Result E (Unit {0}) → Result E B → Result E B
m >> k = m >>= λ _. k

-- `if test: raise e`
abbrev pub raise_if : {E : Type 0} → Bool → E → Result E (Unit {0})
raise_if true e = err e
raise_if false e = ok tt

-- `if value is None: raise e`
abbrev pub or_raise : {E A : Type 0} → Option A → E → Result E A
or_raise none e = err e
or_raise (some a) e = ok a

-- A `datetime`: naive, or an instant in microseconds.
pub data Reading : Type 0 where
  naive : Reading
  aware : ℕ → Reading

-- `if now.tzinfo is None or now.utcoffset() is None: raise e`
abbrev pub instant : {E : Type 0} → Reading → E → Result E ℕ
instant naive e = err e
instant (aware t) e = ok t

-- The block commits what the body built, or raises and rolls back.
abbrev pub commit : {S E A : Type 0} → S → Result E (A × S) → Result E A × S
commit s (ok (a, s')) = (ok a, s')
commit s (err e) = (err e, s)

-- A chain that returns has a first call that returned.
pub >>=-eq-ok :
    {E A C : Type 0} (first : Result E A) (next : A → Result E C) {c : C}
    → (first >>= next) ≡ ok c
    → (value : A) × (first ≡ ok value) × (next value ≡ ok c)
>>=-eq-ok (err raised) next h = cc
>>=-eq-ok (ok value) next h = (value, refl, h)

pub Result-cases :
    {E A : Type 0} (m : Result E A) → ((a : A) × (m ≡ ok a)) ⊎ ((e : E) × (m ≡ err e))
Result-cases (ok a) = inl (a, refl)
Result-cases (err e) = inr (e, refl)

pub >>-eq-ok :
    {E B : Type 0} (m : Result E (Unit {0})) (k : Result E B) {b : B} → (m >> k) ≡ ok b → k ≡ ok b
>>-eq-ok (ok _) k h = h
>>-eq-ok (err e) k h = cc

-- A chain that returns has passed its first check.
pub passed :
    {E B : Type 0} (test : Bool) (e : E) (next : Result E B) {b : B}
    → (raise_if test e >> next) ≡ ok b
    → (test ≡ false) × (next ≡ ok b)
passed true e next h = cc
passed false e next h = (refl, h)
