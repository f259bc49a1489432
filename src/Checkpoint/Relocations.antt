-- ===== src/Checkpoint/Relocations.antt =====
-- Checkpoint.cpp: the map of relocations, by which the log is validated without copying.
pub mod Slice
pub mod Reads
pub mod Replay
use android_system_vold.Common.{
  ℕ, ◌+◌, ◌-◌, ◌%◌, ◌^◌, ◌<◌, ◌≡◌, Option, none, some, List, [], ◌∷◌, ltb, if◌then◌else◌,
}
use android_system_vold.OrderedMap.{floor, upper_bound, insert_or_assign, insert_all, erase_range}

-- `sector_t` is a `uint64_t`: sums and differences wrap.
abbrev pub sector_mod : ℕ
sector_mod = 2 ^ 64

abbrev pub add_sector : ℕ → ℕ → ℕ
add_sector a b = (a + b) % sector_mod

abbrev pub sub_sector : ℕ → ℕ → ℕ
sub_sector a b = (a + sector_mod - b) % sector_mod

-- A start of a range of sectors, and the sector where its contents are found.
abbrev pub Relocations : Type 0
Relocations = List (ℕ × ℕ)

abbrev pub no_relocations : Relocations
no_relocations = (0, 0) ∷ []

-- The loop of `relocate` that adds the rest of the elements.
unfoldable pub add_slice : ℕ → ℕ → ℕ → Relocations → Relocations → Relocations
add_slice dest source limit slice [] = slice
add_slice dest source limit slice ((k, v) ∷ rest) =
    if ltb k limit
    then add_slice dest source limit
        (insert_or_assign (add_sector (sub_sector dest source) k) v slice) rest
    else slice

-- The sectors from `source` on, as they are to stand from `dest` on. `s` is the entry that
-- `--upper_bound(source)` finds.
unfoldable pub take_slice : Relocations → ℕ → ℕ → ℕ → ℕ × ℕ → Relocations
unfolding add_slice
take_slice relocations dest source limit s =
    add_slice dest source limit ((dest, add_sector (sub_sector source s.0) s.1) ∷ [])
      (upper_bound source relocations)

-- Splits the range at its end, removes what is in it and adds the slice. `none` where
-- `--upper_bound` would step back from `begin()`.
unfoldable pub replace_range : Relocations → ℕ → ℕ → Relocations → Option Relocations
replace_range relocations dest end slice = elim (floor end relocations) [
  | none ↦ none
  | some dest_end ↦
      let split =
        insert_or_assign end (add_sector (sub_sector end dest_end.0) dest_end.1) relocations in
      some (insert_all slice (erase_range dest end split))
]

unfoldable pub relocate : Relocations → ℕ → ℕ → ℕ → Option Relocations
unfolding take_slice replace_range
relocate relocations dest source count = elim (floor source relocations) [
  | none ↦ none
  | some s ↦
      let slice = take_slice relocations dest source (add_sector source count) s in
      replace_range relocations dest (add_sector dest count) slice
]

-- The sector that `relocatedRead` reads in the place of `sector`, while it validates.
unfoldable pub translate : Relocations → ℕ → Option ℕ
translate relocations sector = elim (floor sector relocations) [
  | none ↦ none
  | some (first, second) ↦ some (sub_sector (add_sector sector second) first)
]

-- Where an entry of the log copies from and to, in sectors: `dest`, `source` and
-- `(size - 1) / kSectorSize + 1`.
pub record Copied : Type 0 where
  pub source : ℕ
  pub dest : ℕ
  pub count : ℕ

-- The calls of `relocate` while a log is validated, in the order in which the entries are met.
unfoldable pub relocate_entries : Relocations → List Copied → Option Relocations
unfolding relocate
relocate_entries relocations [] = some relocations
relocate_entries relocations (le ∷ les) = elim (relocate relocations le.source le.dest le.count) [
  | none ↦ none
  | some relocations' ↦ relocate_entries relocations' les
]
