-- ===== src/Base/Texts.antt =====
-- Texts as sequences of characters.
use Prim.Native.Nat.{ℕ, Ordering}
use Prim.Native.Char.{Char, code}
use Prim.Native.String.{String, count, ◌++◌ as append, compare as compare_texts}
use mathlib.Core.Path.{◌≡◌, refl}
use mathlib.Core.Logic.{inl, inr}
use mathlib.Core.Bool.{Bool, true, false, ◌||◌}
use mathlib.Core.Option.{Option, none, some}
use native.Mathlib.Omega.{arith}
use text.Mathlib.TextLemmas.{cons-append, nil-append}
use oria.Base.Tests.{◌==◌, if◌then◌else◌, Bool-cases}

abbrev pub length_text : String → ℕ
length_text = count

infixr 55 ◌+++◌
abbrev pub ◌+++◌ : String → String → String
s +++ t = append s t

-- `s <= t`
abbrev pub text_le : String → String → Bool
text_le s t = elim (compare_texts s t) [ Ordering.gt ↦ false | _ ↦ true ]

abbrev is_dot : Char → Bool
is_dot c = code c == b'.'

abbrev pub has_dot : String → Bool
has_dot String.[] = false
has_dot (String.◌∷◌ c s) = is_dot c || has_dot s

abbrev pub after_char : Char → Option (String × String) → Option (String × String)
after_char c none = none
after_char c (some (s, t)) = some (String.◌∷◌ c s, t)

-- What stands before the first dot, and what stands after it.
unfoldable pub split_dot : String → Option (String × String)
split_dot String.[] = none
split_dot (String.◌∷◌ c s) =
    let rest = split_dot s in if is_dot c then some ("", s) else after_char c rest

pub split_dot_append :
    (s t : String) → has_dot s ≡ false → split_dot (s +++ ("." +++ t)) ≡ some (s, t)
unfolding split_dot
split_dot_append String.[] t h =
    rw (nil-append ("." +++ t), cons-append "." "" t, nil-append t) refl
split_dot_append (String.◌∷◌ c s) t h = elim (Bool-cases (is_dot c)) [
  | inl dot ↦ absurd (ground arith)
  | inr other ↦
      let rest = split_dot_append s t (rw other at h) in
      rw (cons-append c s ("." +++ t), other, rest) refl
]
