-- ===== src/Checkpoint/UsedSectors/Entries.antt =====
-- The entries of the map of used sectors around a key, after each operation of the map.
use android_system_vold.Common.{
  ℕ, ◌+◌, ◌≤◌, ◌<◌, ◌≡◌, refl, Option, none, some, [], ◌∷◌, Bool, false, not, ltb, arith,
  if◌then◌else◌, ◌⊎◌,
}
use mathlib.Core.Option
use android_system_vold.OrderedMap.{floor, insert_or_assign, erase_range, SortedFrom}
use android_system_vold.OrderedMap.Floor.{floor-none, floor-KeyIn, erase_range-SortedFrom}
use android_system_vold.Checkpoint.UsedSectors.{UsedSectors, value_before, entry_after}

-- Whether the sector s has been read from.
abbrev pub value : Option (ℕ × Bool) → Bool
value none = false
value (some e) = e.1

unfoldable pub is_used : UsedSectors → ℕ → Bool
is_used m s = value (floor s m)

-- Two runs that meet differ, and the last one is free.
abbrev pub EndsRun : Bool → Option (ℕ × Bool) → Type 0
EndsRun b none = b ≡ false
EndsRun b (some e) = e.1 ≡ not b

-- Of two entries the one with the lesser key, the first if the keys are equal.
abbrev pub earlier : Option (ℕ × Bool) → Option (ℕ × Bool) → Option (ℕ × Bool)
earlier none o = o
earlier (some e) none = some e
earlier (some e) (some f) = if ltb f.0 e.0 then some f else some e

abbrev pub KeyAbove : ℕ → Option (ℕ × Bool) → Type 0
KeyAbove n none = Unit {0}
KeyAbove n (some e) = n < e.0

pub entry_after-KeyAbove : (x : ℕ) (m : UsedSectors) → KeyAbove x (entry_after x m)
unfolding entry_after
entry_after-KeyAbove x [] = tt
entry_after-KeyAbove x ((j, w) ∷ m) = ground (arith, entry_after-KeyAbove x m)

pub entry_after-insert_or_assign :
    (b k : ℕ) (v : Bool) (x : ℕ) (m : UsedSectors)
    → SortedFrom b m
    → entry_after x (insert_or_assign k v m)
      ≡ (if ltb x k then earlier (some (k, v)) (entry_after x m) else entry_after x m)
unfolding entry_after insert_or_assign
entry_after-insert_or_assign b k v x [] o = ground arith
entry_after-insert_or_assign b k v x ((j, w) ∷ m) o =
    ground (arith, entry_after-insert_or_assign (j + 1) k v x m o.1, entry_after-KeyAbove x m)

-- Up to the next entry the same entry is found, and from there on a later one.
abbrev pub Reached : Option (ℕ × Bool) → Option (ℕ × Bool) → Option (ℕ × Bool) → ℕ → Type 0
Reached none here there x = there ≡ here
Reached (some e) here none x = (x < e.0) × (none ≡ here)
Reached (some e) here (some g) x = ((x < e.0) × (some g ≡ here)) ⊎ (e.0 ≤ g.0)

pub entry_after-floor :
    (b k x : ℕ) (m : UsedSectors)
    → SortedFrom b m
    → k ≤ x
    → Reached (entry_after k m) (floor k m) (floor x m) x
unfolding entry_after floor
entry_after-floor b k x [] o h = refl
entry_after-floor b k x ((j, w) ∷ m) o h = ground (
  arith,
  entry_after-floor (j + 1) k x m o.1 h,
  floor-none (j + 1) k m o.1,
  floor-none (j + 1) x m o.1,
  floor-KeyIn (j + 1) x m o.1,
)

pub value_before-insert_or_assign :
    (b k : ℕ) (v : Bool) (x : ℕ) (m : UsedSectors)
    → SortedFrom b m
    → x ≤ k
    → value_before x (insert_or_assign k v m) ≡ value_before x m
unfolding value_before insert_or_assign
value_before-insert_or_assign b k v x [] o h = ground arith
value_before-insert_or_assign b k v x ((j, w) ∷ m) o h =
    ground (arith, value_before-insert_or_assign (j + 1) k v x m o.1 h)

pub value_before-none :
    (b k : ℕ) (m : UsedSectors) → SortedFrom b m → k ≤ b → value_before k m ≡ none
unfolding value_before
value_before-none b k [] o h = refl
value_before-none b k ((j, w) ∷ m) o h = ground arith

-- Within an erased range the value is the one before it.
pub floor-erase_range_before :
    (b lo hi x : ℕ) (m : UsedSectors)
    → SortedFrom b m
    → lo ≤ x
    → x < hi
    → Option.map (λ e. e.1) (floor x (erase_range lo hi m)) ≡ value_before lo m
unfolding floor erase_range value_before
floor-erase_range_before b lo hi x [] o h l = refl
floor-erase_range_before b lo hi x ((j, w) ∷ m) o h l =
    ground (
      arith,
      floor-erase_range_before (j + 1) lo hi x m o.1 h l,
      value_before-none (j + 1) lo m o.1,
    )

abbrev pub EntryValue : UsedSectors → Option Bool → Option (ℕ × Bool) → Type 0
EntryValue m v none = Unit {0}
EntryValue m v (some e) = value_before e.0 m ≡ v

pub value_before-entry_after :
    (b k : ℕ) (m : UsedSectors)
    → SortedFrom b m
    → EntryValue m (Option.map (λ e. e.1) (floor k m)) (entry_after k m)
unfolding value_before entry_after floor
value_before-entry_after b k [] o = tt
value_before-entry_after b k ((j, w) ∷ m) o = ground (
  arith,
  value_before-entry_after (j + 1) k m o.1,
  floor-none (j + 1) k m o.1,
  value_before-none (j + 1) (j + 1) m o.1,
  entry_after-KeyAbove k m,
)

-- Below the first key the first entry comes next.
entry_after_head :
    (b k l : ℕ) (m : UsedSectors)
    → SortedFrom b m
    → k < b
    → l < b
    → entry_after k m ≡ entry_after l m
unfolding entry_after
entry_after_head b k l [] o h g = refl
entry_after_head b k l ((j, w) ∷ m) o h g = ground arith

pub entry_after-none :
    (k l : ℕ) (m : UsedSectors) → k ≤ l → entry_after k m ≡ none → entry_after l m ≡ none
unfolding entry_after
entry_after-none k l [] h e = refl
entry_after-none k l ((j, w) ∷ m) h e = ground (arith, entry_after-none k l m h)

-- The entry after k, when a range that ends at a key was erased.
pub entry_after-erase_range :
    (b lo hi k : ℕ) (m : UsedSectors)
    → SortedFrom b m
    → k ≤ hi
    → entry_after k (erase_range lo (hi + 1) m) ≡ (elim (entry_after k m) [
      | none ↦ none
      | some e ↦ if ltb e.0 lo then some e else entry_after hi m
    ])
unfolding entry_after erase_range
entry_after-erase_range b lo hi k [] o h = refl
entry_after-erase_range b lo hi k ((j, w) ∷ m) o h = ground (
  arith,
  entry_after-erase_range (j + 1) lo hi k m o.1 h,
  entry_after-erase_range (j + 1) lo hi j m o.1,
  entry_after-KeyAbove k m,
  entry_after-KeyAbove j m,
  entry_after-none j hi m,
  entry_after_head (j + 1) k j (erase_range lo (hi + 1) m)
      (erase_range-SortedFrom (j + 1) lo (hi + 1) m o.1),
)

pub entry_after-erase_range_above :
    (b lo hi k : ℕ) (m : UsedSectors)
    → SortedFrom b m
    → lo ≤ hi
    → hi ≤ k
    → entry_after k (erase_range lo hi m) ≡ entry_after k m
unfolding entry_after erase_range
entry_after-erase_range_above b lo hi k [] o l h = refl
entry_after-erase_range_above b lo hi k ((j, w) ∷ m) o l h =
    ground (arith, entry_after-erase_range_above (j + 1) lo hi k m o.1 l h)

-- Up to an entry it stays the next one.
pub entry_after_between :
    (b k l : ℕ) (m : UsedSectors) (e : ℕ × Bool)
    → SortedFrom b m
    → entry_after k m ≡ some e
    → k ≤ l
    → l < e.0
    → entry_after l m ≡ some e
unfolding entry_after
entry_after_between b k l [] e o f h g = cc
entry_after_between b k l ((j, w) ∷ m) e o f h g =
    ground (arith, entry_after_between (j + 1) k l m e o.1, entry_after-KeyAbove k m)

-- An entry whose predecessor is known has that value before it.
pub value_before-floor :
    (b k : ℕ) (m : UsedSectors)
    → SortedFrom b m
    → value_before (k + 1) m ≡ Option.map (λ e. e.1) (floor k m)
unfolding value_before floor
value_before-floor b k [] o = refl
value_before-floor b k ((j, w) ∷ m) o = ground (arith, value_before-floor (j + 1) k m o.1)
