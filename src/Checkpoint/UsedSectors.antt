-- ===== src/Checkpoint/UsedSectors.antt =====
-- Checkpoint.cpp: the map of the sectors that the restore has read from.
pub mod Entries
pub mod Marks
pub mod Collisions
use android_system_vold.Common.{
  ℕ, ◌<◌, ◌≡◌, Option, none, some, List, [], ◌∷◌, Bool, true, false, ltb, leb, ◌==◌, not, ◌||◌,
  if◌then◌else◌,
}
use mathlib.Core.Option
use android_system_vold.OrderedMap.{floor, insert_or_assign, erase_range}

-- Where a run of used or of free sectors starts; the last run is free.
abbrev pub UsedSectors : Type 0
UsedSectors = List (ℕ × Bool)

abbrev pub no_used_sectors : UsedSectors
no_used_sectors = (0, false) ∷ []

-- `--second_overlap` moves `second_overlap` too, so both names stand for the entry before
-- `upper_bound(start)`. `none` where that steps back from `begin()`.
unfoldable pub check_collision : UsedSectors → ℕ → ℕ → Option Bool
check_collision used_sectors start end = elim (floor start used_sectors) [
  | none ↦ none
  | some first_overlap ↦ some (first_overlap.1 || ltb first_overlap.0 end)
]

-- The value before the entry of `k`, if there is such an entry: `std::prev`.
unfoldable pub value_before : ℕ → UsedSectors → Option Bool
value_before k [] = none
value_before k ((j, w) ∷ m) =
    if ltb j k then (elim (value_before k m) [ none ↦ some w | some x ↦ some x ]) else none

-- The entry after that of `k`: `std::next`.
unfoldable pub entry_after : ℕ → UsedSectors → Option (ℕ × Bool)
entry_after k [] = none
entry_after k ((j, w) ∷ m) = if leb j k then entry_after k m else some (j, w)

-- `start_pos` and `end_pos` after they have moved, as the keys where they stand. `none` where
-- `start_pos` is past the end.
unfoldable pub start_pos : ℕ → UsedSectors → Option ℕ
unfolding value_before entry_after
start_pos start m = elim (value_before start m) [
  | some true ↦ some start
  | _ ↦ Option.map (λ e. e.0) (entry_after start m)
]

unfoldable pub end_pos : ℕ → UsedSectors → ℕ
unfolding entry_after
end_pos end m = elim (entry_after end m) [ none ↦ end | some e ↦ if e.1 then end else e.0 ]

unfoldable pub mark_used : UsedSectors → ℕ → ℕ → Option UsedSectors
unfolding start_pos end_pos
mark_used used_sectors start end =
    let m = insert_or_assign end false (insert_or_assign start true used_sectors) in
    elim (start_pos start m) [
      | none ↦ none
      | some from ↦
          let to = end_pos end m in some (if ltb from to then erase_range from to m else m)
    ]
