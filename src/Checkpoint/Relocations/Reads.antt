-- ===== src/Checkpoint/Relocations/Reads.antt =====
-- What a read through the relocations finds, before and after `relocate`.
use android_system_vold.Common.{
  ◌&&◌, ℕ, ◌+◌, ◌-◌, ◌≤◌, ◌<◌, ◌≡◌, ap, ◌∙◌, inl, inr, Option, none, some, [], ◌∷◌, ltb, leb,
  if◌then◌else◌, le-cases, arith, Option-cases, le→leb,
}
use android_system_vold.OrderedMap.{floor, upper_bound, erase_range, SortedFrom, IsSorted}
use android_system_vold.OrderedMap.Floor.{
  later, floor-none, floor_between, floor-insert_or_assign, insert_or_assign-SortedFrom, KeyUnder,
  floor-KeyIn, floor-upper_bound, upper_bound-SortedFrom, erase_range-SortedFrom, floor-insert_all,
  insert_all-SortedFrom, floor-erase_range_below, floor-erase_range_within, floor-erase_range_above,
}
use android_system_vold.Checkpoint.Relocations.Slice.{
  shifted, floor-add_slice, add_slice-SortedFrom, add_slice-KeyUnder, split_of, relocated,
  relocate-relocated,
}
use android_system_vold.Checkpoint.Relocations.{
  sector_mod, add_sector, sub_sector, Relocations, take_slice, relocate, translate,
}

-- Begins at sector 0, in order.
pub record IsValid (m : Relocations) : Type 0 where
  pub ordered : IsSorted m
  pub total : (e : ℕ × ℕ) × (floor 0 m ≡ some e)

-- Where an entry sends the sector s.
abbrev pub target : ℕ → Option (ℕ × ℕ) → Option ℕ
target s none = none
target s (some e) = some (sub_sector (add_sector s e.1) e.0)

translate-target : (m : Relocations) (s : ℕ) → translate m s ≡ target s (floor s m)
unfolding translate
translate-target m s = ground arith

floor_total : (t : ℕ) (m : Relocations) → IsValid m → (e : ℕ × ℕ) × (floor t m ≡ some e)
floor_total t m v = elim (Option-cases (floor t m)) [
  | inl missing ↦ absurd (ground (arith, floor-upper_bound t 0 m (omega arith), v.total.1))
  | inr found ↦ found
]

module _ (dest source count : ℕ) (fits : dest + count < sector_mod)
    (from : source + count < sector_mod) (some_sectors : 0 < count) (m : Relocations)
    (v : IsValid m) (e f : ℕ × ℕ) (p : floor source m ≡ some e)
    (q : floor (dest + count) m ≡ some f) where
  abbrev slice : Relocations
  slice = take_slice m dest source (source + count) e

  abbrev split : Relocations
  split = split_of dest source count fits from m f

  abbrev erased : Relocations
  erased = erase_range dest (dest + count) split

  abbrev first_entry : ℕ × ℕ
  first_entry = (dest, add_sector (sub_sector source e.0) e.1)

  slice-SortedFrom : SortedFrom dest slice
  unfolding take_slice
  slice-SortedFrom =
      add_slice-SortedFrom dest source count fits from source (first_entry ∷ [])
        (upper_bound source m) (omega arith) (upper_bound-SortedFrom 0 source m v.ordered)
        (omega arith)

  split-SortedFrom : SortedFrom 0 split
  unfolding split_of
  split-SortedFrom = insert_or_assign-SortedFrom 0 _ _ m (omega arith) v.ordered

  floor-relocated :
      (s : ℕ)
      → floor s (relocated dest source count fits from m e f)
        ≡ later (floor s erased) (floor s slice)
  unfolding relocated
  floor-relocated s =
      floor-insert_all dest 0 s slice erased slice-SortedFrom
        (erase_range-SortedFrom 0 dest (dest + count) split split-SortedFrom) (omega arith)

  floor-split :
      (s : ℕ)
      → floor s split ≡ (
          if leb (dest + count) s
          then later
              (some (dest + count, add_sector (sub_sector (dest + count) f.0) f.1))
              (floor s m)
          else floor s m)
  unfolding split_of
  floor-split s = floor-insert_or_assign 0 (dest + count) _ s m v.ordered

  target_below :
      (s : ℕ) → s < dest → floor s (relocated dest source count fits from m e f) ≡ floor s m
  target_below s h = ground (
    arith,
    floor-relocated s,
    floor-none dest s slice slice-SortedFrom h,
    floor-erase_range_below 0 dest (dest + count) s split split-SortedFrom h,
    floor-split s,
  )

  floor-slice :
      (s : ℕ)
      → dest ≤ s
      → s < dest + count
      → floor s slice
        ≡ shifted dest source (floor (s + source - dest) (upper_bound source m)) (some first_entry)
  unfolding take_slice
  floor-slice s a b =
      floor-add_slice dest source count fits from s source (first_entry ∷ []) (upper_bound source m)
        (omega arith, tt) (upper_bound-SortedFrom 0 source m v.ordered) (omega arith)
        (unfold floor in ground arith) a b
      ∙ ap (shifted dest source (floor (s + source - dest) (upper_bound source m)))
          (unfold floor in rw (le→leb dest s a))

  slice-KeyUnder : (s : ℕ) → KeyUnder (dest + count) (floor s slice)
  unfolding take_slice
  slice-KeyUnder s =
      add_slice-KeyUnder dest source count fits from s source (first_entry ∷ [])
        (upper_bound source m) (omega arith, tt) (upper_bound-SortedFrom 0 source m v.ordered)
        (omega arith) (unfold floor in ground arith)

  target_inside :
      (s : ℕ)
      → dest ≤ s
      → s < dest + count
      → target s (floor s (relocated dest source count fits from m e f))
        ≡ target (s + source - dest) (floor (s + source - dest) m)
  target_inside s a b = ground (
    arith,
    floor-relocated s,
    floor-slice s a b,
    floor-KeyIn (source + 1) (s + source - dest) (upper_bound source m)
        (upper_bound-SortedFrom 0 source m v.ordered),
    floor-erase_range_within 0 dest (dest + count) s split split-SortedFrom b,
    floor-upper_bound (s + source - dest) source m (omega arith),
    floor-KeyIn 0 source m v.ordered,
    p,
  )

  floor-relocated_above :
      (s : ℕ) (g : ℕ × ℕ)
      → floor s split ≡ some g
      → dest + count ≤ g.0
      → floor s (relocated dest source count fits from m e f) ≡ some g
  floor-relocated_above s g r h = ground (
    arith,
    floor-relocated s,
    floor-erase_range_above 0 dest (dest + count) s split g split-SortedFrom r (omega arith) h,
    slice-KeyUnder s,
  )

  target_above :
      (s : ℕ)
      → dest + count ≤ s
      → s < sector_mod
      → target s (floor s (relocated dest source count fits from m e f)) ≡ target s (floor s m)
  target_above s a b =
      let (g, r) = floor_total s m v in
      elim (le-cases g.0 (dest + count)) [
        | inl older ↦ ground (
          arith,
          floor-split s,
          floor-relocated_above s (dest + count, add_sector (sub_sector (dest + count) f.0) f.1),
          floor_between 0 s (dest + count) m g v.ordered r older a,
          floor-KeyIn 0 s m v.ordered,
        )
        | inr newer ↦ ground (arith, floor-split s, floor-relocated_above s g)
      ]

  relocated-IsValid : IsValid (relocated dest source count fits from m e f)
  unfolding relocated
  relocated-IsValid = record {
    ordered =
        insert_all-SortedFrom dest 0 slice erased slice-SortedFrom
          (erase_range-SortedFrom 0 dest (dest + count) split split-SortedFrom) (omega arith);
    total = elim (le-cases 1 dest) [
      | inl later_start ↦ (v.total.0, target_below 0 later_start ∙ v.total.1)
      | inr first_sector ↦
          elim (Option-cases (floor 0 (relocated dest source count fits from m e f))) [
            | inl missing ↦
                absurd
                  (ground (arith, floor-relocated 0, floor-slice 0 (omega arith) (omega arith)))
            | inr found ↦ found
          ]
    ];
  }

  translate-relocated :
      (s : ℕ)
      → s < sector_mod
      → translate (relocated dest source count fits from m e f) s ≡ (
          if leb dest s && ltb s (dest + count)
          then translate m (s + source - dest)
          else translate m s)
  translate-relocated s b = ground (
    arith,
    translate-target (relocated dest source count fits from m e f) s,
    translate-target m s,
    translate-target m (s + source - dest),
    target_below s,
    target_inside s,
    target_above s,
  )

-- Relocating never steps back from the start of a map that covers the device: it gives a map
-- that covers it too, through which a sector s of [dest, dest + count) is read where
-- source + (s - dest) was read before, and every other sector is read where it was. The ranges
-- are not empty and end below 2^64.
pub relocate-translate :
    (m : Relocations) (dest source count : ℕ)
    → IsValid m
    → 0 < count
    → dest + count < sector_mod
    → source + count < sector_mod
    → (m' : Relocations) × (relocate m dest source count ≡ some m')
      × IsValid m'
      × ((s : ℕ)
          → s < sector_mod
          → translate m' s ≡ (
              if leb dest s && ltb s (dest + count)
              then translate m (s + source - dest)
              else translate m s))
relocate-translate m dest source count v h fits from =
    let (e, p) = floor_total source m v in
    let (f, q) = floor_total (dest + count) m v in
    (
      relocated dest source count fits from m e f,
      relocate-relocated dest source count fits from m e f p q,
      relocated-IsValid dest source count fits from h m v e f p q,
      translate-relocated dest source count fits from h m v e f p q,
    )

-- A valid map finds a sector for every sector.
pub translate-total :
    (m : Relocations) (s : ℕ) → IsValid m → (t : ℕ) × (translate m s ≡ some t) × (t < sector_mod)
translate-total m s v =
    let (e, found) = floor_total s m v in
    (sub_sector (add_sector s e.1) e.0, translate-target m s ∙ ap (target s) found, omega arith)
