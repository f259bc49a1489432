-- ===== src/Common/Strings.antt =====
-- `std::string` as the list of its bytes, with the operations of `std::string` and the tests of
-- android-base that the program calls.
use Prim.Native.Nat.{ℕ, zero, suc, ◌+◌, ◌/◌, ◌%◌, ◌≤◌}
use Prim.Native.Char.{code}
use Prim.Native.String.{String}
use mathlib.Core.Path.{◌≡◌, refl}
use mathlib.Core.Logic.{inl, inr}
use mathlib.Core.Bool.{Bool, true, false, ◌&&◌, ◌||◌}
use mathlib.Core.List.{List, [], ◌∷◌}
use native.Mathlib.Omega.{arith}
use native.Mathlib.Numerals.{add-one}
use android_system_vold.Common.Tests.{◌==◌, if◌then◌else◌, ltb, Bool-cases}

abbrev pub Text : Type 0
Text = List ℕ

-- The bytes of a literal.
abbrev pub codes : String → Text
codes String.[] = []
codes (String.◌∷◌ c s) = code c ∷ codes s

unfoldable pub text_eq : Text → Text → Bool
text_eq [] [] = true
text_eq [] (d ∷ t) = false
text_eq (c ∷ s) [] = false
text_eq (c ∷ s) (d ∷ t) = c == d && text_eq s t

pub text_eq→eq : (s t : Text) → text_eq s t ≡ true → s ≡ t
unfolding text_eq
text_eq→eq [] [] h = refl
text_eq→eq [] (d ∷ t) h = cc
text_eq→eq (c ∷ s) [] h = cc
text_eq→eq (c ∷ s) (d ∷ t) h = ground (arith, text_eq→eq s t)

pub text_eq_refl : (s : Text) → text_eq s s ≡ true
unfolding text_eq
text_eq_refl [] = refl
text_eq_refl (c ∷ s) = ground (arith, text_eq_refl s)

abbrev pub is_empty : Text → Bool
is_empty [] = true
is_empty (c ∷ s) = false

-- `StartsWith`.
unfoldable pub starts_with : Text → Text → Bool
starts_with s [] = true
starts_with [] (d ∷ t) = false
starts_with (c ∷ s) (d ∷ t) = c == d && starts_with s t

-- `find(t) != npos`.
unfoldable pub contains : Text → Text → Bool
unfolding starts_with
contains [] t = starts_with [] t
contains (c ∷ s) t = starts_with (c ∷ s) t || contains s t

-- `EndsWith`.
unfoldable pub ends_with : Text → Text → Bool
unfolding text_eq
ends_with [] t = text_eq [] t
ends_with (c ∷ s) t = text_eq (c ∷ s) t || ends_with s t

-- `substr(0, find_first_of(c))`.
unfoldable pub before_first : ℕ → Text → Text
before_first c [] = []
before_first c (d ∷ s) = if d == c then [] else d ∷ before_first c s

-- `std::to_string` of a number that is not negative: its decimal digits. A number has no more
-- digits than the fuel, which is one above it.
unfoldable pub decimal : ℕ → ℕ → Text → Text
decimal zero n acc = acc
decimal (suc f) n acc =
    let more = decimal f (n / 10) ((48 + n % 10) ∷ acc) in if ltb n 10 then (48 + n) ∷ acc else more

unfoldable pub to_string : ℕ → Text
unfolding decimal
to_string n = decimal (n + 1) n []

before_first-decimal :
    (f n : ℕ) (acc : Text)
    → before_first 32 acc ≡ acc
    → before_first 32 (decimal f n acc) ≡ decimal f n acc
unfolding before_first decimal
before_first-decimal zero n acc h = h
before_first-decimal (suc f) n acc h =
    ground (arith, before_first-decimal f (n / 10) ((48 + n % 10) ∷ acc))

-- A number has no space in it.
pub before_first-to_string : (n : ℕ) → before_first 32 (to_string n) ≡ to_string n
unfolding to_string
before_first-to_string n = before_first-decimal (n + 1) n [] (unfold before_first in refl)

abbrev pub BeginsWithDigit : Text → Type 0
BeginsWithDigit [] = ⊥
BeginsWithDigit (c ∷ s) = 48 ≤ c

decimal-BeginsWithDigit :
    (f n : ℕ) (acc : Text) → BeginsWithDigit acc → BeginsWithDigit (decimal f n acc)
unfolding decimal
decimal-BeginsWithDigit zero n acc h = h
decimal-BeginsWithDigit (suc f) n acc h = elim (Bool-cases (ltb n 10)) [
  | inl e ↦ rw e (omega arith)
  | inr e ↦ rw e (decimal-BeginsWithDigit f (n / 10) ((48 + n % 10) ∷ acc) (omega arith))
]

pub to_string-BeginsWithDigit : (n : ℕ) → BeginsWithDigit (to_string n)
unfolding to_string decimal
to_string-BeginsWithDigit n = rw add-one (elim (Bool-cases (ltb n 10)) [
  | inl e ↦ rw e (omega arith)
  | inr e ↦ rw e (decimal-BeginsWithDigit n (n / 10) ((48 + n % 10) ∷ []) (omega arith))
])

pub to_string_zero : to_string 0 ≡ codes "0"
unfolding to_string decimal
to_string_zero = refl
