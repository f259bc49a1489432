-- ===== src/OrderedMap.antt =====
-- `std::map` with an unsigned key: a list of entries in increasing order of key, with the
-- operations that Checkpoint.cpp calls. An iterator is the list of the entries from it on.
pub mod Floor
use android_system_vold.Common.{
  ℕ, ◌+◌, ◌≤◌, ◌<◌, ◌≡◌, Option, none, some, List, [], ◌∷◌, Bool, true, false, ltb, leb, ◌==◌,
  if◌then◌else◌,
}

module _ {ℓ} {V : Type ℓ} where
  -- The entry before `upper_bound(k)`: the one with the greatest key that is at most k. `none`
  -- stands for stepping back from `begin()`, which C++ leaves undefined.
  unfoldable pub floor : ℕ → List (ℕ × V) → Option (ℕ × V)
  floor k [] = none
  floor k ((j, w) ∷ m) =
      if leb j k then (elim (floor k m) [ none ↦ some (j, w) | some e ↦ some e ]) else none

  -- `upper_bound(k)`: the entries with a key above k.
  unfoldable pub upper_bound : ℕ → List (ℕ × V) → List (ℕ × V)
  upper_bound k [] = []
  upper_bound k ((j, w) ∷ m) = if leb j k then upper_bound k m else (j, w) ∷ m

  -- `m[k] = v` and `m.insert_or_assign(k, v)`.
  unfoldable pub insert_or_assign : ℕ → V → List (ℕ × V) → List (ℕ × V)
  insert_or_assign k v [] = (k, v) ∷ []
  insert_or_assign k v ((j, w) ∷ m) =
      if ltb j k
      then (j, w) ∷ insert_or_assign k v m
      else (if j == k then (k, v) ∷ m else (k, v) ∷ (j, w) ∷ m)

  -- `m.insert({k, v})`, which leaves an entry that is there.
  unfoldable pub insert_new : ℕ → V → List (ℕ × V) → List (ℕ × V)
  insert_new k v [] = (k, v) ∷ []
  insert_new k v ((j, w) ∷ m) =
      if ltb j k
      then (j, w) ∷ insert_new k v m
      else (if j == k then (j, w) ∷ m else (k, v) ∷ (j, w) ∷ m)

  -- `m.insert(s.begin(), s.end())`.
  unfoldable pub insert_all : List (ℕ × V) → List (ℕ × V) → List (ℕ × V)
  insert_all [] m = m
  insert_all ((k, v) ∷ s) m = insert_all s (insert_new k v m)

  -- `m.erase(m.lower_bound(lo), m.lower_bound(hi))`.
  unfoldable pub erase_range : ℕ → ℕ → List (ℕ × V) → List (ℕ × V)
  erase_range lo hi [] = []
  erase_range lo hi ((j, w) ∷ m) =
      if ltb j lo
      then (j, w) ∷ erase_range lo hi m
      else (if ltb j hi then erase_range lo hi m else (j, w) ∷ m)

  -- Every key is above the bound, and the keys increase.
  abbrev pub SortedFrom : ℕ → List (ℕ × V) → Type 0
  SortedFrom b [] = Unit {0}
  SortedFrom b ((j, w) ∷ m) = (b ≤ j) × SortedFrom (j + 1) m

  abbrev pub IsSorted : List (ℕ × V) → Type 0
  IsSorted m = SortedFrom 0 m

  abbrev pub KeysBelow : ℕ → List (ℕ × V) → Type 0
  KeysBelow n [] = Unit {0}
  KeysBelow n ((j, w) ∷ m) = (j < n) × KeysBelow n m
