-- ===== src/Common/Xor.antt =====
-- Laws of `bit_xor` at variables, from its recursion on binary digits.
use Prim.Native.Nat.{
  ℕ, zero, suc, ◌+◌, ◌*◌, ◌/◌, ◌%◌, ◌≤◌, ◌<◌, differ, digits, bit_xor, bit_xor-bitwise,
}
use mathlib.Core.Path.{◌≡◌, refl, sym, ap, ◌∙◌}
use native.Mathlib.Omega.{arith}

abbrev rest_digits : ℕ → ℕ → ℕ → ℕ
rest_digits n a b = digits (λ b. b) differ n a b

-- More fuel than there are digits changes nothing.
rest_digits_fuel : (n m a b : ℕ) → a ≤ n → a ≤ m → rest_digits n a b ≡ rest_digits m a b
rest_digits_fuel zero zero a b p q = refl
rest_digits_fuel zero (suc m) zero b p q = refl
rest_digits_fuel zero (suc m) (suc a) b p q = absurd (omega arith)
rest_digits_fuel (suc n) zero zero b p q = refl
rest_digits_fuel (suc n) zero (suc a) b p q = absurd (omega arith)
rest_digits_fuel (suc n) (suc m) zero b p q = refl
rest_digits_fuel (suc n) (suc m) (suc a) b p q =
    rw (rest_digits_fuel n m (suc a / 2) (b / 2) (omega arith) (omega arith))

differ_parity : (x y : ℕ) → x < 2 → y < 2 → differ x y ≡ (x + y) % 2
differ_parity zero y p q = omega arith
differ_parity (suc zero) zero p q = refl
differ_parity (suc zero) (suc zero) p q = refl
differ_parity (suc zero) (suc (suc y)) p q = absurd (omega arith)
differ_parity (suc (suc x)) y p q = absurd (omega arith)

pub zero-bit_xor : (b : ℕ) → bit_xor 0 b ≡ b
zero-bit_xor b = bit_xor-bitwise 0 b

-- The lowest digit and the others.
bit_xor_step : (a b : ℕ) → bit_xor a b ≡ bit_xor (a / 2) (b / 2) * 2 + (a % 2 + b % 2) % 2
bit_xor_step zero b = omega (arith, zero-bit_xor b, zero-bit_xor (b / 2))
bit_xor_step (suc a) b = omega (
  arith,
  bit_xor-bitwise (suc a) b,
  bit_xor-bitwise (suc a / 2) (b / 2),
  rest_digits_fuel a (suc a / 2) (suc a / 2) (b / 2) (omega arith) (omega arith),
  differ_parity (suc a % 2) (b % 2) (omega arith) (omega arith),
)

pub bit_xor_half : (a b : ℕ) → bit_xor a b / 2 ≡ bit_xor (a / 2) (b / 2)
bit_xor_half a b = omega (arith, bit_xor_step a b)

pub bit_xor_parity : (a b : ℕ) → bit_xor a b % 2 ≡ (a % 2 + b % 2) % 2
bit_xor_parity a b = omega (arith, bit_xor_step a b)

-- A number is its half and its lowest digit.
from_halves : (x y : ℕ) → x / 2 ≡ y / 2 → x % 2 ≡ y % 2 → x ≡ y
from_halves x y p q = omega arith

assoc_fuel : (n a b c : ℕ) → a ≤ n → bit_xor (bit_xor a b) c ≡ bit_xor a (bit_xor b c)
assoc_fuel n zero b c h = rw (zero-bit_xor b, zero-bit_xor (bit_xor b c)) refl
assoc_fuel zero (suc a) b c h = absurd (omega arith)
assoc_fuel (suc n) (suc a) b c h =
    from_halves _ _
      (rw (bit_xor_half, bit_xor_half (suc a) b, bit_xor_half (suc a), bit_xor_half b c)
        (assoc_fuel n (suc a / 2) (b / 2) (c / 2) (omega arith)))
      (omega (
        arith,
        bit_xor_parity (bit_xor (suc a) b) c,
        bit_xor_parity (suc a) b,
        bit_xor_parity (suc a) (bit_xor b c),
        bit_xor_parity b c,
      ))

pub bit_xor_assoc : (a b c : ℕ) → bit_xor (bit_xor a b) c ≡ bit_xor a (bit_xor b c)
bit_xor_assoc a b c = assoc_fuel a a b c (omega arith)

xor_zero_fuel : (n a : ℕ) → a ≤ n → bit_xor a 0 ≡ a
xor_zero_fuel n zero h = zero-bit_xor 0
xor_zero_fuel zero (suc a) h = absurd (omega arith)
xor_zero_fuel (suc n) (suc a) h =
    omega (arith, bit_xor_step (suc a) 0, xor_zero_fuel n (suc a / 2) (omega arith))

pub bit_xor-zero : (a : ℕ) → bit_xor a 0 ≡ a
bit_xor-zero a = xor_zero_fuel a a (omega arith)

comm_fuel : (n a b : ℕ) → a ≤ n → bit_xor a b ≡ bit_xor b a
comm_fuel n zero b h = zero-bit_xor b ∙ sym (bit_xor-zero b)
comm_fuel zero (suc a) b h = absurd (omega arith)
comm_fuel (suc n) (suc a) b h = omega (
  arith,
  bit_xor_step (suc a) b,
  bit_xor_step b (suc a),
  comm_fuel n (suc a / 2) (b / 2) (omega arith),
)

pub bit_xor_comm : (a b : ℕ) → bit_xor a b ≡ bit_xor b a
bit_xor_comm a b = comm_fuel a a b (omega arith)

-- `h << k`.
abbrev pub shift_left : ℕ → ℕ → ℕ
shift_left zero h = h
shift_left (suc k) h = 2 * shift_left k h

-- A shifted number beside k low digits.
pub bit_xor-shift_left :
    (k h l : ℕ) → l < shift_left k 1 → bit_xor (shift_left k h) l ≡ shift_left k h + l
bit_xor-shift_left zero h l f = ap (bit_xor h) (omega arith) ∙ bit_xor-zero h ∙ omega arith
bit_xor-shift_left (suc k) h l f = omega (
  arith,
  bit_xor_half (2 * shift_left k h) l,
  bit_xor_parity (2 * shift_left k h) l,
  ap (λ t. bit_xor t (l / 2)) (halved (shift_left k h)),
  bit_xor-shift_left k h (l / 2) (omega arith),
)
  where
    halved : (t : ℕ) → 2 * t / 2 ≡ t
    halved t = omega arith
