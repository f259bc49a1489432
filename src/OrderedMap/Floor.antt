-- ===== src/OrderedMap/Floor.antt =====
-- What `--upper_bound(k)` finds after each operation of the map.
use android_system_vold.Common.{
  ℕ, ◌+◌, ◌≤◌, ◌<◌, ◌≡◌, refl, sym, ◌∙◌, inl, inr, lt→ltb, le→ltb, le-cases, Option, none, some,
  List, [], ◌∷◌, ltb, leb, if◌then◌else◌, arith,
}
use android_system_vold.OrderedMap.{
  floor, upper_bound, insert_or_assign, insert_new, insert_all, erase_range, SortedFrom,
}

module _ {ℓ} {V : Type ℓ} where
  -- Of two entries the one with the greater key, the first if the keys are equal.
  abbrev pub later : Option (ℕ × V) → Option (ℕ × V) → Option (ℕ × V)
  later none o = o
  later (some e) none = some e
  later (some e) (some f) = if ltb e.0 f.0 then some f else some e

  -- The key that was found, if one was, lies in the range.
  abbrev pub KeyIn : ℕ → ℕ → Option (ℕ × V) → Type 0
  KeyIn lo hi none = Unit {0}
  KeyIn lo hi (some e) = (lo ≤ e.0) × (e.0 ≤ hi)

  pub SortedFrom-mono : (a b : ℕ) (m : List (ℕ × V)) → a ≤ b → SortedFrom b m → SortedFrom a m
  SortedFrom-mono a b [] h s = tt
  SortedFrom-mono a b ((j, w) ∷ m) h s = (omega arith, s.1)

  pub floor-none : (b k : ℕ) (m : List (ℕ × V)) → SortedFrom b m → k < b → floor k m ≡ none
  unfolding floor
  floor-none b k [] s h = refl
  floor-none b k ((j, w) ∷ m) s h = ground arith

  pub floor-KeyIn : (b k : ℕ) (m : List (ℕ × V)) → SortedFrom b m → KeyIn b k (floor k m)
  unfolding floor
  floor-KeyIn b k [] s = tt
  floor-KeyIn b k ((j, w) ∷ m) s = ground (arith, floor-KeyIn (j + 1) k m s.1)

  pub floor-insert_or_assign :
      (b k : ℕ) (v : V) (s : ℕ) (m : List (ℕ × V))
      → SortedFrom b m
      → floor s (insert_or_assign k v m)
        ≡ (if leb k s then later (some (k, v)) (floor s m) else floor s m)
  unfolding floor insert_or_assign
  floor-insert_or_assign b k v s [] o = ground arith
  floor-insert_or_assign b k v s ((j, w) ∷ m) o = ground (
    arith,
    floor-insert_or_assign (j + 1) k v s m o.1,
    floor-none (j + 1) s m o.1,
    floor-KeyIn (j + 1) s m o.1,
  )

  pub floor-insert_new :
      (b k : ℕ) (v : V) (s : ℕ) (m : List (ℕ × V))
      → SortedFrom b m
      → floor s (insert_new k v m)
        ≡ (if leb k s then later (floor s m) (some (k, v)) else floor s m)
  unfolding floor insert_new
  floor-insert_new b k v s [] o = ground arith
  floor-insert_new b k v s ((j, w) ∷ m) o = ground (
    arith,
    floor-insert_new (j + 1) k v s m o.1,
    floor-none (j + 1) s m o.1,
    floor-KeyIn (j + 1) s m o.1,
  )

  pub insert_or_assign-SortedFrom :
      (b k : ℕ) (v : V) (m : List (ℕ × V))
      → b ≤ k
      → SortedFrom b m
      → SortedFrom b (insert_or_assign k v m)
  unfolding insert_or_assign
  insert_or_assign-SortedFrom b k v [] h s = (h, tt)
  insert_or_assign-SortedFrom b k v ((j, w) ∷ m) h s =
      ground (arith, insert_or_assign-SortedFrom (j + 1) k v m, SortedFrom-mono (k + 1) (j + 1) m)

  pub insert_new-SortedFrom :
      (b k : ℕ) (v : V) (m : List (ℕ × V))
      → b ≤ k
      → SortedFrom b m
      → SortedFrom b (insert_new k v m)
  unfolding insert_new
  insert_new-SortedFrom b k v [] h s = (h, tt)
  insert_new-SortedFrom b k v ((j, w) ∷ m) h s =
      ground (arith, insert_new-SortedFrom (j + 1) k v m, SortedFrom-mono (k + 1) (j + 1) m)

  -- The entries that `--upper_bound(k)` passes over do not matter above k.
  pub floor-upper_bound :
      (t k : ℕ) (m : List (ℕ × V))
      → k ≤ t
      → floor t m ≡ (elim (floor t (upper_bound k m)) [ none ↦ floor k m | some e ↦ some e ])
  unfolding floor upper_bound
  floor-upper_bound t k [] h = refl
  floor-upper_bound t k ((j, w) ∷ m) h = ground (arith, floor-upper_bound t k m h)

  pub upper_bound-SortedFrom :
      (b k : ℕ) (m : List (ℕ × V)) → SortedFrom b m → SortedFrom (k + 1) (upper_bound k m)
  unfolding upper_bound
  upper_bound-SortedFrom b k [] s = tt
  upper_bound-SortedFrom b k ((j, w) ∷ m) s = ground (arith, upper_bound-SortedFrom (j + 1) k m s.1)

  pub erase_range-SortedFrom :
      (b lo hi : ℕ) (m : List (ℕ × V)) → SortedFrom b m → SortedFrom b (erase_range lo hi m)
  unfolding erase_range
  erase_range-SortedFrom b lo hi [] s = tt
  erase_range-SortedFrom b lo hi ((j, w) ∷ m) s = ground (
    arith,
    erase_range-SortedFrom (j + 1) lo hi m s.1,
    SortedFrom-mono b (j + 1) (erase_range lo hi m),
  )

  -- Below the range nothing changes.
  pub floor-erase_range_below :
      (b lo hi s : ℕ) (m : List (ℕ × V))
      → SortedFrom b m
      → s < lo
      → floor s (erase_range lo hi m) ≡ floor s m
  unfolding floor erase_range
  floor-erase_range_below b lo hi s [] o l = refl
  floor-erase_range_below b lo hi s ((j, w) ∷ m) o l = elim (le-cases lo j) [
    | inl above ↦
        floor-none lo s (erase_range lo hi ((j, w) ∷ m))
          (erase_range-SortedFrom lo lo hi ((j, w) ∷ m) (above, o.1)) l
        ∙ sym (floor-none lo s ((j, w) ∷ m) (above, o.1) l)
    | inr below ↦
        rw (lt→ltb j lo below) (ground (arith, floor-erase_range_below (j + 1) lo hi s m o.1 l))
  ]

  -- Within the range only an entry from below it is found.
  abbrev pub KeyUnder : ℕ → Option (ℕ × V) → Type 0
  KeyUnder n none = Unit {0}
  KeyUnder n (some e) = e.0 < n

  pub floor-erase_range_within :
      (b lo hi s : ℕ) (m : List (ℕ × V))
      → SortedFrom b m
      → s < hi
      → KeyUnder lo (floor s (erase_range lo hi m))
  unfolding floor erase_range
  floor-erase_range_within b lo hi s [] o l = tt
  floor-erase_range_within b lo hi s ((j, w) ∷ m) o l =
      ground (arith, floor-erase_range_within (j + 1) lo hi s m o.1 l)

  -- From a key at the end of the range on nothing changes.
  pub floor-erase_range_above :
      (b lo hi s : ℕ) (m : List (ℕ × V)) (e : ℕ × V)
      → SortedFrom b m
      → floor s m ≡ some e
      → lo ≤ hi
      → hi ≤ e.0
      → floor s (erase_range lo hi m) ≡ some e
  unfolding floor erase_range
  floor-erase_range_above b lo hi s [] e o f l h = cc
  floor-erase_range_above b lo hi s ((j, w) ∷ m) e o f l h = elim (le-cases lo j) [
    | inl above ↦ elim (le-cases hi j) [
      | inl kept ↦ rw (le→ltb lo j above, le→ltb hi j kept) f
      | inr erased ↦
          rw (le→ltb lo j above, lt→ltb j hi erased)
            (floor-erase_range_above (j + 1) lo hi s m e o.1 (ground arith) l h)
    ]
    | inr below ↦
        rw (lt→ltb j lo below) (ground (arith, floor-erase_range_above (j + 1) lo hi s m e o.1))
  ]

  pub floor-insert_all :
      (a b t : ℕ) (s m : List (ℕ × V))
      → SortedFrom a s
      → SortedFrom b m
      → b ≤ a
      → floor t (insert_all s m) ≡ later (floor t m) (floor t s)
  unfolding floor insert_all
  floor-insert_all a b t [] m u o h = ground arith
  floor-insert_all a b t ((k, v) ∷ s) m u o h = ground (
    arith,
    floor-insert_all (k + 1) b t s (insert_new k v m) u.1
        (insert_new-SortedFrom b k v m (omega arith) o) (omega arith),
    floor-insert_new b k v t m o,
    floor-KeyIn (k + 1) t s u.1,
    floor-none (k + 1) t s u.1,
  )

  pub insert_all-SortedFrom :
      (a b : ℕ) (s m : List (ℕ × V))
      → SortedFrom a s
      → SortedFrom b m
      → b ≤ a
      → SortedFrom b (insert_all s m)
  unfolding insert_all
  insert_all-SortedFrom a b [] m u o h = o
  insert_all-SortedFrom a b ((k, v) ∷ s) m u o h =
      insert_all-SortedFrom (k + 1) b s (insert_new k v m) u.1
        (insert_new-SortedFrom b k v m (omega arith) o) (omega arith)

-- Between the key that was found and the key that was asked for, the same entry is found.
pub floor_between :
    {V : Type 0} (b t q : ℕ) (m : List (ℕ × V)) (e : ℕ × V)
    → SortedFrom b m
    → floor t m ≡ some e
    → e.0 ≤ q
    → q ≤ t
    → floor q m ≡ some e
unfolding floor
floor_between b t q [] e o f k l = cc
floor_between b t q ((j, w) ∷ m) e o f k l = ground (
  arith,
  floor_between (j + 1) t q m e o.1,
  floor-upper_bound t q m l,
  floor-KeyIn (j + 1) t m o.1,
  floor-KeyIn (j + 1) q m o.1,
)
