-- ===== src/Checkpoint/Relocations/Slice.antt =====
-- The slice that `relocate` takes, and what it puts together from it.
use android_system_vold.Common.{
  ℕ, ◌+◌, ◌-◌, ◌≤◌, ◌<◌, ◌≡◌, refl, ◌∙◌, inl, inr, Option, none, some, [], ◌∷◌, le-cases, arith,
  lt→ltb, le→ltb, lt→leb,
}
use android_system_vold.OrderedMap.{floor, insert_or_assign, insert_all, erase_range, SortedFrom}
use android_system_vold.OrderedMap.Floor.{
  KeyIn, floor-none, floor-insert_or_assign, insert_or_assign-SortedFrom, KeyUnder,
}
use android_system_vold.Checkpoint.Relocations.{
  sector_mod, add_sector, sub_sector, Relocations, add_slice, take_slice, replace_range, relocate,
}

-- The entry that the slice has for a sector in [dest, dest + count).
abbrev pub shifted : ℕ → ℕ → Option (ℕ × ℕ) → Option (ℕ × ℕ) → Option (ℕ × ℕ)
shifted dest source none o = o
shifted dest source (some e) o = some (dest + e.0 - source, e.1)

relocate_lem :
    (m : Relocations) (e : ℕ × ℕ) (dest source count : ℕ)
    → floor source m ≡ some e
    → relocate m dest source count
      ≡ replace_range m dest
          (add_sector dest count)
          (take_slice m dest source (add_sector source count) e)
unfolding relocate
relocate_lem m e dest source count p = rw (p, relocate)

module _ (dest source count : ℕ) (fits : dest + count < sector_mod)
    (from : source + count < sector_mod) where
  -- The key that the loop gives to the entry of k.
  pub shift_key :
      (k : ℕ)
      → source ≤ k
      → k < source + count
      → add_sector (sub_sector dest source) k ≡ dest + k - source
  shift_key k h l = omega arith

  pub floor-add_slice :
      (s n : ℕ) (slice rest : Relocations)
      → SortedFrom dest slice
      → SortedFrom (n + 1) rest
      → source ≤ n
      → KeyIn dest (dest + n - source) (floor s slice)
      → dest ≤ s
      → s < dest + count
      → floor s (add_slice dest source (source + count) slice rest)
        ≡ shifted dest source (floor (s + source - dest) rest) (floor s slice)
  unfolding add_slice floor
  floor-add_slice s n slice [] o u h k a b = refl
  floor-add_slice s n slice ((j, w) ∷ rest) o u h k a b = elim (le-cases (source + count) j) [
    | inl beyond ↦
        rw (le→ltb (source + count) j beyond, lt→leb j (s + source - dest) (omega arith)) refl
    | inr inside ↦
        rw (lt→ltb j (source + count) inside, shift_key j (omega arith) inside)
          (ground (
            arith,
            floor-add_slice s j (insert_or_assign (dest + j - source) w slice) rest
                (insert_or_assign-SortedFrom dest (dest + j - source) w slice (omega arith) o) u.1
                (omega arith),
            floor-insert_or_assign dest (dest + j - source) w s slice o,
            floor-none (j + 1) (s + source - dest) rest u.1,
          ))
  ]

  pub add_slice-SortedFrom :
      (n : ℕ) (slice rest : Relocations)
      → SortedFrom dest slice
      → SortedFrom (n + 1) rest
      → source ≤ n
      → SortedFrom dest (add_slice dest source (source + count) slice rest)
  unfolding add_slice
  add_slice-SortedFrom n slice [] o u h = o
  add_slice-SortedFrom n slice ((j, w) ∷ rest) o u h = elim (le-cases (source + count) j) [
    | inl beyond ↦ rw (le→ltb (source + count) j beyond) o
    | inr inside ↦
        rw (lt→ltb j (source + count) inside, shift_key j (omega arith) inside)
          (add_slice-SortedFrom j (insert_or_assign (dest + j - source) w slice) rest
            (insert_or_assign-SortedFrom dest (dest + j - source) w slice (omega arith) o) u.1
            (omega arith))
  ]

  pub add_slice-KeyUnder :
      (s n : ℕ) (slice rest : Relocations)
      → SortedFrom dest slice
      → SortedFrom (n + 1) rest
      → source ≤ n
      → KeyUnder (dest + count) (floor s slice)
      → KeyUnder (dest + count) (floor s (add_slice dest source (source + count) slice rest))
  unfolding add_slice
  add_slice-KeyUnder s n slice [] o u h k = k
  add_slice-KeyUnder s n slice ((j, w) ∷ rest) o u h k = elim (le-cases (source + count) j) [
    | inl beyond ↦ rw (le→ltb (source + count) j beyond) k
    | inr inside ↦
        rw (lt→ltb j (source + count) inside, shift_key j (omega arith) inside)
          (add_slice-KeyUnder s j (insert_or_assign (dest + j - source) w slice) rest
            (insert_or_assign-SortedFrom dest (dest + j - source) w slice (omega arith) o) u.1
            (omega arith)
            (ground (arith, floor-insert_or_assign dest (dest + j - source) w s slice o)))
  ]

  -- The result of `relocate`, from the two entries that it looks up.
  unfoldable pub split_of : Relocations → ℕ × ℕ → Relocations
  split_of m f = insert_or_assign (dest + count) (add_sector (sub_sector (dest + count) f.0) f.1) m

  unfoldable pub relocated : Relocations → ℕ × ℕ → ℕ × ℕ → Relocations
  relocated m e f =
      insert_all (take_slice m dest source (source + count) e)
        (erase_range dest (dest + count) (split_of m f))

  replace_range_lem :
      (m slice : Relocations) (f : ℕ × ℕ)
      → floor (dest + count) m ≡ some f
      → replace_range m dest (dest + count) slice
        ≡ some (insert_all slice (erase_range dest (dest + count) (split_of m f)))
  unfolding replace_range split_of
  replace_range_lem m slice f q = rw (q, replace_range)

  pub relocate-relocated :
      (m : Relocations) (e f : ℕ × ℕ)
      → floor source m ≡ some e
      → floor (dest + count) m ≡ some f
      → relocate m dest source count ≡ some (relocated m e f)
  unfolding relocated
  relocate-relocated m e f p q =
      let d : add_sector dest count ≡ dest + count = omega arith in
      let l : add_sector source count ≡ source + count = omega arith in
      relocate_lem m e dest source count p ∙ rw (d, l) (replace_range_lem m _ f q)
