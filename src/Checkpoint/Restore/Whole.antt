-- ===== src/Checkpoint/Restore/Whole.antt =====
-- Blocks that fit in the buffer of an entry: nothing is left undefined.
use native.Mathlib.Nat.{suc-mul, mul-add-div_right, div-eq_of_lt, div-add-mod'}
use android_system_vold.Common.{
  ℕ, zero, suc, ◌+◌, ◌-◌, ◌*◌, ◌/◌, ◌%◌, ◌≤◌, ◌<◌, ◌≡◌, refl, sym, ap, subst, ◌∙◌, Option, none,
  some, Bool, true, false, not, ◌&&◌, ltb, ◌==◌, if◌then◌else◌, arith, Bool-cases, inl, inr, le→ltb,
}
use android_system_vold.Checkpoint.Log.{Bytes, Storage, LogEntry, sector_size, write_bytes}
use android_system_vold.Checkpoint.Relocations.{Relocations, add_sector}
use android_system_vold.Checkpoint.Relocations.Reads.{IsValid, translate-total}
use android_system_vold.Checkpoint.Restore.{
  Restore, Outcome, done, failed, undefined, then_do, read_at, read_blocks, checksum_of, seeks_to,
  offset_of, blocks,
}

pub blocks_whole :
    (size block_size : ℕ)
    → 0 < block_size
    → size % block_size ≡ 0
    → blocks size block_size * block_size ≤ size
blocks_whole size block_size some_bytes whole =
    omega (arith, quotient, whole, div-add-mod' size block_size)
  where
    split : size + block_size - 1 ≡ size / block_size * block_size + (block_size - 1)
    split = omega (arith, div-add-mod' size block_size, whole)

    quotient : blocks size block_size * block_size ≡ size / block_size * block_size
    quotient =
        ap (λ n. n / block_size * block_size) split
        ∙ ap (λ n. n * block_size)
            (mul-add-div_right some_bytes (size / block_size) (block_size - 1))
        ∙ ap (λ n. (size / block_size + n) * block_size) (div-eq_of_lt (omega arith))
        ∙ ap (λ n. n * block_size) (omega arith)

-- A state with these relocations and this buffer of the log sector.
abbrev pub Has : Relocations → Bytes → Restore → Type 0
Has r ls_buffer s = (s.relocations ≡ r) × (s.ls_buffer ≡ ls_buffer)

abbrev pub HasRead : Relocations → Bytes → Outcome (Option (Bytes × Restore)) → Type 0
HasRead r ls_buffer (done none) = Unit {0}
HasRead r ls_buffer (done (some (buffer, s))) = Has r ls_buffer s
HasRead r ls_buffer (failed message s) = ⊥
HasRead r ls_buffer undefined = ⊥

-- Nothing is left undefined, and a state that goes on is so.
abbrev pub Reaches : (Restore → Type 0) → Outcome Restore → Type 0
Reaches P (done s) = P s
Reaches P (failed message s) = Unit {0}
Reaches P undefined = ⊥

pub then_do-Reaches :
    (P Q : Restore → Type 0) (m : Outcome Restore) (f : Restore → Outcome Restore)
    → Reaches P m
    → ((s : Restore) → P s → Reaches Q (f s))
    → Reaches Q (then_do m f)
then_do-Reaches P Q (done s) f h g = g s h
then_do-Reaches P Q (failed message s) f h g = tt
then_do-Reaches P Q undefined f h g = h

pub if-Reaches :
    (P : Restore → Type 0) (b : Bool) (m n : Outcome Restore)
    → (b ≡ true → Reaches P m)
    → (b ≡ false → Reaches P n)
    → Reaches P (if b then m else n)
if-Reaches P true m n h g = h refl
if-Reaches P false m n h g = g refl

pub read-Reaches :
    (r : Relocations) (ls_buffer : Bytes) (P : Restore → Type 0)
    (m : Outcome (Option (Bytes × Restore))) (f : Option (Bytes × Restore) → Outcome Restore)
    → HasRead r ls_buffer m
    → Reaches P (f none)
    → ((buffer : Bytes) (s : Restore) → Has r ls_buffer s → Reaches P (f (some (buffer, s))))
    → Reaches P (then_do m f)
read-Reaches r ls_buffer P (done none) f h e g = e
read-Reaches r ls_buffer P (done (some (buffer, s))) f h e g = g buffer s h
read-Reaches r ls_buffer P (failed message s) f h e g = absurd h
read-Reaches r ls_buffer P undefined f h e g = absurd h

positive_not_zero : (n : ℕ) → 0 < n → (n == 0) ≡ false
positive_not_zero n h = ground (arith, h)

pub checksum-Reaches :
    (P : Restore → Type 0) (block_size : ℕ) (le : LogEntry) (buffer : Bytes)
    (f : ℕ → Outcome Restore)
    → sector_size ≤ block_size
    → le.size % block_size ≡ 0
    → ((checksum : ℕ) → Reaches P (f checksum))
    → Reaches P (then_do (checksum_of block_size le buffer) f)
unfolding checksum_of
checksum-Reaches P block_size le buffer f big whole h = rw (some_sectors, no_rest, Reaches) (h _)
  where
    some_sectors : (block_size / sector_size == 0) ≡ false
    some_sectors = positive_not_zero (block_size / sector_size) (omega arith)

    no_rest : not (le.size % block_size == 0) ≡ false
    no_rest = rw whole refl

module _ (storage : Storage) (r : Relocations) (v : IsValid r) (ls_buffer : Bytes) where
  read_at-HasRead :
      (offset size : ℕ) (s : Restore)
      → Has r ls_buffer s
      → HasRead r ls_buffer (done (read_at storage offset size s))
  unfolding read_at
  read_at-HasRead offset size s h =
      elim (Bool-cases (seeks_to storage offset && storage.reads offset size)) [
        | inl good ↦ rw (good, HasRead) h
        | inr bad ↦ rw (bad, HasRead) tt
      ]

  pub read_blocks-HasRead :
      (n size block_size sector i : ℕ) (buffer : Bytes) (s : Restore)
      → Has r ls_buffer s
      → i + n * block_size ≤ size
      → HasRead r ls_buffer (read_blocks storage n size block_size sector i buffer s)
  unfolding read_blocks
  read_blocks-HasRead zero size block_size sector i buffer s h fits = h
  read_blocks-HasRead (suc n) size block_size sector i buffer s h fits =
      let (t, found, u) = translate-total s.relocations sector (subst IsValid (sym h.0) v) in
      rw (found, HasRead)
        (go (read_at storage (offset_of t) block_size s)
          (read_at-HasRead (offset_of t) block_size s h)
          (λ block s' h'.
            read_blocks-HasRead n size block_size (add_sector sector (block_size / sector_size))
              (i + block_size) (write_bytes i block_size block buffer) s' h'
              (omega (arith, fits, suc-mul n block_size))))
    where
      go :
          (o : Option (Bytes × Restore))
          → HasRead r ls_buffer (done o)
          → ((block : Bytes) (s' : Restore)
              → Has r ls_buffer s'
              → HasRead r ls_buffer (
                  read_blocks storage n size block_size
                    (add_sector sector (block_size / sector_size))
                    (i + block_size)
                    (write_bytes i block_size block buffer)
                    s'))
          → HasRead r ls_buffer (elim o as (λ _. Outcome (Option (Bytes × Restore))) [
            | none ↦ done none
            | some (block, s') ↦
                let rest =
                  read_blocks storage n size block_size
                    (add_sector sector (block_size / sector_size))
                    (i + block_size)
                    (write_bytes i block_size block buffer)
                    s' in
                if ltb size (i + block_size) then undefined else rest
          ])
      go none g later = tt
      go (some (block, s')) g later =
          rw (le→ltb (i + block_size) size (omega (arith, fits, suc-mul n block_size)), HasRead)
            (later block s' g)
