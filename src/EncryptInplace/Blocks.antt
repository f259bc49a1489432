-- ===== src/EncryptInplace/Blocks.antt =====
-- The bytes of a block beside a range of blocks, and the size of the I/O buffer.
use android_system_vold.Common.{
  ℕ, zero, suc, ◌+◌, ◌*◌, ◌/◌, ◌%◌, ◌^◌, ◌≤◌, ◌<◌, ◌≡◌, inl, inr, List, [], ◌∷◌, Bool, false, ◌||◌,
  ◌==◌, arith, Bool-cases, ==_iff,
}
use native.Mathlib.Nat.{div-add-mod', mod-lt}
use android_system_vold.EncryptInplace.{wrap, round_up}

abbrev pub mem : ℕ → List ℕ → Bool
mem b [] = false
mem b (c ∷ cs) = b == c || mem b cs

-- Byte `i` of a block and the range of `p` blocks from a first one.
pub scale_le : (a b s : ℕ) → a ≤ b → a * s ≤ b * s
scale_le a b s h = grind arith

pub byte_before : (b f i s : ℕ) → i < s → b < f → b * s + i < f * s
byte_before b f i s h k = omega (arith, scale_le (b + 1) f s (omega arith), split)
  where
    split : (b + 1) * s ≡ b * s + s
    split = grind arith

pub byte_after : (b f p i s : ℕ) → f + p ≤ b → f * s + p * s ≤ b * s + i
byte_after b f p i s h = omega (arith, scale_le (f + p) b s h, split)
  where
    split : (f + p) * s ≡ f * s + p * s
    split = grind arith

pub byte_within :
    (b f p i s : ℕ) → i < s → f ≤ b → b < f + p → (f * s ≤ b * s + i) × (b * s + i < f * s + p * s)
byte_within b f p i s h k l =
    (omega (arith, scale_le f b s k), omega (arith, byte_before b (f + p) i s h l, split))
  where
    split : (f + p) * s ≡ f * s + p * s
    split = grind arith

pub le_scaled : (n s : ℕ) → 0 < s → n ≤ n * s
le_scaled n zero h = elim h [ ]
le_scaled n (suc s) h = grind arith

pub succ_scaled : (n s : ℕ) → (n + 1) * s ≡ n * s + s
succ_scaled n s = grind arith

pub wrap_small : (n : ℕ) → n < 2 ^ 64 → wrap n ≡ n
wrap_small n h = omega arith

-- A number of sectors.
pub sectors_of : (n k : ℕ) → (n * (k * 512)) % 512 ≡ 0
sectors_of n k = omega (arith, regroup)
  where
    regroup : n * (k * 512) ≡ (n * k) * 512
    regroup = grind arith

-- A rounded size is a number of blocks.
pub round_up_multiple :
    (val s : ℕ)
    → 0 < s
    → val + s < 2 ^ 64
    → (k : ℕ) × (round_up val s ≡ k * s) × (val ≤ k * s) × (k * s < val + s)
unfolding round_up
round_up_multiple val s h small = elim (Bool-cases (val % s == 0)) [
  | inl e ↦ (
    val / s,
    rw e (omega (arith, (==_iff _ _).0 e, parts)),
    omega (arith, (==_iff _ _).0 e, parts),
    omega (arith, h, parts),
  )
  | inr e ↦ (
    val / s + 1,
    rw e (omega (arith, mod-lt val h, parts, succ_scaled (val / s) s)),
    omega (arith, mod-lt val h, parts, succ_scaled (val / s) s),
    ground (arith, parts, succ_scaled (val / s) s),
  )
]
  where
    parts : val / s * s + val % s ≡ val
    parts = div-add-mod' val s
