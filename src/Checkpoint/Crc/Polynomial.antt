-- ===== src/Checkpoint/Crc/Polynomial.antt =====
-- The checksum of the table is the one of the polynomial, a bit at a time.
use Prim.Native.Nat.{bit_xor}
use android_system_vold.Common.{
  ℕ, zero, suc, ◌+◌, ◌*◌, ◌/◌, ◌%◌, ◌<◌, ◌≡◌, refl, sym, ap, ◌∙◌, List, [], ◌∷◌, Bool, true, ◌&&◌,
  ◌==◌, if◌then◌else◌, get_or, length, arith, Bool-cases, inl, inr,
}
use android_system_vold.Common.Xor.{
  bit_xor_half, bit_xor_parity, bit_xor_assoc, bit_xor_comm, bit_xor-shift_left, shift_left,
}
use android_system_vold.Checkpoint.Crc.{table, crc32_byte, crc32}

-- CRC-32 with the reflected polynomial of IEEE 802.3.
abbrev pub polynomial : ℕ
polynomial = 0xedb88320

unfoldable pub crc_bit : ℕ → ℕ
crc_bit x = if x % 2 == 1 then bit_xor (x / 2) polynomial else x / 2

unfoldable pub crc_bits : ℕ → ℕ → ℕ
crc_bits zero x = x
crc_bits (suc k) x = crc_bits k (crc_bit x)

-- The bitwise checksum of the data.
unfoldable pub crc_reference : List ℕ → ℕ → ℕ
crc_reference [] crc = crc
crc_reference (byte ∷ bytes) crc = crc_reference bytes (crc_bits 8 (bit_xor crc byte))

crc_bit-bit_xor : (a y : ℕ) → crc_bit (bit_xor (2 * a) y) ≡ bit_xor a (crc_bit y)
unfolding crc_bit
crc_bit-bit_xor a y =
    let low : bit_xor (2 * a) y % 2 ≡ y % 2 = omega (arith, bit_xor_parity (2 * a) y) in
    let high : bit_xor (2 * a) y / 2 ≡ bit_xor a (y / 2) =
      bit_xor_half (2 * a) y ∙ ap (λ t. bit_xor t (y / 2)) (omega arith) in
    rw (low, high)
      (elim (Bool-cases (y % 2 == 1)) [
        | inl odd ↦ rw odd (bit_xor_assoc a (y / 2) polynomial)
        | inr even ↦ rw even refl
      ])

crc_bits-bit_xor : (k a y : ℕ) → crc_bits k (bit_xor (shift_left k a) y) ≡ bit_xor a (crc_bits k y)
unfolding crc_bits
crc_bits-bit_xor zero a y = refl
crc_bits-bit_xor (suc k) a y =
    ap (crc_bits k) (crc_bit-bit_xor (shift_left k a) y) ∙ crc_bits-bit_xor k a (crc_bit y)

-- The table holds the remainders.
all_entries : ℕ → List ℕ → Bool
all_entries i [] = true
all_entries i (x ∷ xs) = x == crc_bits 8 i && all_entries (i + 1) xs

all_entries-get_or :
    (i j : ℕ) (xs : List ℕ)
    → all_entries i xs ≡ true
    → j < length xs
    → get_or xs j 0 ≡ crc_bits 8 (i + j)
unfolding all_entries
all_entries-get_or i j [] h l = absurd (omega arith)
all_entries-get_or i zero (x ∷ xs) h l = ground (arith, ap (crc_bits 8) (right_zero i))
  where
    right_zero : (n : ℕ) → n + 0 ≡ n
    right_zero n = omega arith
all_entries-get_or i (suc j) (x ∷ xs) h l =
    all_entries-get_or (i + 1) j xs (ground arith) (omega arith) ∙ ap (crc_bits 8) (omega arith)

table-all_entries : all_entries 0 table ≡ true
unfolding all_entries crc_bits crc_bit
table-all_entries = refl

table-get_or : (l : ℕ) → l < 256 → get_or table l 0 ≡ crc_bits 8 l
table-get_or l h =
    all_entries-get_or 0 l table table-all_entries (omega arith) ∙ ap (crc_bits 8) (omega arith)

crc32_byte-crc_bits : (crc byte : ℕ) → crc32_byte crc byte ≡ crc_bits 8 (bit_xor crc byte)
unfolding crc32_byte
crc32_byte-crc_bits crc byte = by_halves (bit_xor crc byte)
  where
    by_halves : (m : ℕ) → bit_xor (get_or table (m % 256) 0) (m / 256) ≡ crc_bits 8 m
    by_halves m =
        ap (λ t. bit_xor t (m / 256)) (table-get_or (m % 256) (omega arith))
        ∙ bit_xor_comm (crc_bits 8 (m % 256)) (m / 256)
        ∙ sym (crc_bits-bit_xor 8 (m / 256) (m % 256))
        ∙ ap (crc_bits 8) (bit_xor-shift_left 8 (m / 256) (m % 256) (omega arith) ∙ omega arith)

-- The table-driven checksum of any data, from any start, is the checksum of the polynomial
-- computed a bit at a time.
pub crc32-crc_reference : (bytes : List ℕ) (crc : ℕ) → crc32 bytes crc ≡ crc_reference bytes crc
unfolding crc32 crc_reference
crc32-crc_reference [] crc = refl
crc32-crc_reference (byte ∷ bytes) crc =
    ap (crc32 bytes) (crc32_byte-crc_bits crc byte)
    ∙ crc32-crc_reference bytes (crc_bits 8 (bit_xor crc byte))
