-- ===== src/Checkpoint/UsedSectors/Marks.antt =====
-- What the map of used sectors says after `mark_used`.
use android_system_vold.Common.{
  ℕ, ◌+◌, ◌-◌, ◌≤◌, ◌<◌, ◌≡◌, refl, Option, none, some, Bool, true, false, ◌&&◌, ◌||◌, ltb, leb,
  arith, if◌then◌else◌, Option-cases, inl, inr, le-cases, ◌∙◌, ◌≢◌, sym, ◌⊎◌, ap, subst, lt→ltb,
  le→ltb, ltb→lt, ltb→le, Bool-cases,
}
use mathlib.Core.Option
use android_system_vold.OrderedMap.{floor, insert_or_assign, erase_range, SortedFrom, IsSorted}
use android_system_vold.OrderedMap.Floor.{
  later, floor-insert_or_assign, insert_or_assign-SortedFrom, floor-KeyIn, erase_range-SortedFrom,
  floor-erase_range_below, floor-erase_range_above,
}
use android_system_vold.Checkpoint.UsedSectors.{
  UsedSectors, value_before, entry_after, start_pos, end_pos, mark_used,
}
use android_system_vold.Checkpoint.UsedSectors.Entries.{
  value, is_used, EndsRun, earlier, entry_after-KeyAbove, entry_after-floor,
  entry_after-insert_or_assign, value_before-insert_or_assign, floor-erase_range_before,
  value_before-entry_after, value_before-floor, entry_after_between, entry_after-none,
  entry_after-erase_range, entry_after-erase_range_above,
}

-- In order, with runs that alternate and a last run that is free.
pub record IsValid (m : UsedSectors) : Type 0 where
  pub ordered : IsSorted m
  pub alternates : (k : ℕ) → EndsRun (is_used m k) (entry_after k m)

-- The entry, if there is one, is not below n.
abbrev NoneBelow : ℕ → Option (ℕ × Bool) → Type 0
NoneBelow n none = Unit {0}
NoneBelow n (some e) = n ≤ e.0

module _ (start end : ℕ) (h : start < end) (m : UsedSectors) (v : IsValid m) where
  started : UsedSectors
  started = insert_or_assign start true m

  bounded : UsedSectors
  bounded = insert_or_assign end false started

  started-SortedFrom : SortedFrom 0 started
  unfolding started
  started-SortedFrom = insert_or_assign-SortedFrom 0 start true m (omega arith) v.ordered

  bounded-SortedFrom : SortedFrom 0 bounded
  unfolding bounded
  bounded-SortedFrom =
      insert_or_assign-SortedFrom 0 end false started (omega arith) started-SortedFrom

  floor-bounded :
      (x : ℕ)
      → floor x bounded ≡ (
          if leb end x
          then later (some (end, false)) (floor x m)
          else (if leb start x then later (some (start, true)) (floor x m) else floor x m))
  unfolding bounded started
  floor-bounded x = ground (
    arith,
    floor-insert_or_assign 0 end false x started started-SortedFrom,
    floor-insert_or_assign 0 start true x m v.ordered,
  )

  entry_after-bounded :
      (x : ℕ)
      → start ≤ x
      → entry_after x bounded
        ≡ (if ltb x end then earlier (some (end, false)) (entry_after x m) else entry_after x m)
  unfolding bounded started
  entry_after-bounded x l = ground (
    arith,
    entry_after-insert_or_assign 0 end false x started started-SortedFrom,
    entry_after-insert_or_assign 0 start true x m v.ordered,
  )

  value_before-bounded : (x : ℕ) → x ≤ start → value_before x bounded ≡ value_before x m
  unfolding bounded started
  value_before-bounded x l = ground (
    arith,
    value_before-insert_or_assign 0 end false x started started-SortedFrom,
    value_before-insert_or_assign 0 start true x m v.ordered l,
  )

  -- Where the erased range begins and ends.
  from_key : ℕ
  from_key = elim (value_before start m) [
    | some true ↦ start
    | _ ↦ elim (entry_after start bounded) [ none ↦ start | some e ↦ e.0 ]
  ]

  start_pos-bounded : start_pos start bounded ≡ some from_key
  unfolding start_pos from_key
  start_pos-bounded = ground (arith, value_before-bounded start, entry_after-bounded start)

  to_key : ℕ
  to_key = end_pos end bounded

  marked : UsedSectors
  marked = if ltb from_key to_key then erase_range from_key to_key bounded else bounded

  mark_used-marked : mark_used m start end ≡ some marked
  unfolding mark_used marked to_key bounded started
  mark_used-marked = rw (start_pos-bounded, mark_used) refl

  -- Before the erased range and after it the entries say the right thing.
  bounded_below :
      (x : ℕ) → x < from_key → value (floor x bounded) ≡ (is_used m x || (leb start x && ltb x end))
  unfolding is_used from_key
  bounded_below x l = ground (
    arith,
    floor-bounded x,
    entry_after-bounded start,
    entry_after-floor 0 start x m v.ordered,
    floor-KeyIn 0 start m v.ordered,
    floor-KeyIn 0 x m v.ordered,
    entry_after-KeyAbove start m,
  )

  bounded_above :
      (x : ℕ) → to_key ≤ x → value (floor x bounded) ≡ (is_used m x || (leb start x && ltb x end))
  unfolding is_used to_key end_pos
  bounded_above x l = ground (
    arith,
    floor-bounded x,
    entry_after-bounded end,
    entry_after-floor 0 end x m v.ordered,
    floor-KeyIn 0 end m v.ordered,
    entry_after-KeyAbove end m,
    v.alternates end,
  )

  abbrev KeyFrom : ℕ → Option (ℕ × Bool) → Type 0
  KeyFrom n none = ⊥
  KeyFrom n (some e) = n ≤ e.0

  bounded-KeyFrom : (x : ℕ) → to_key ≤ x → KeyFrom to_key (floor x bounded)
  unfolding to_key end_pos
  bounded-KeyFrom x l = ground (
    arith,
    floor-bounded x,
    entry_after-bounded end,
    entry_after-floor 0 end x m v.ordered,
    floor-KeyIn 0 end m v.ordered,
    entry_after-KeyAbove end m,
  )

  -- What the erased entries covered is used.
  erased_used :
      (x : ℕ) → from_key ≤ x → x < to_key → (is_used m x || (leb start x && ltb x end)) ≡ true
  unfolding is_used from_key to_key end_pos
  erased_used x l u = ground (
    arith,
    entry_after-bounded start,
    entry_after-bounded end,
    entry_after-floor 0 end x m v.ordered,
    floor-KeyIn 0 x m v.ordered,
    entry_after-KeyAbove start m,
    entry_after-KeyAbove end m,
    v.alternates end,
  )

  from_key-value_before : value_before from_key bounded ≡ some true
  unfolding from_key
  from_key-value_before = ground (
    arith,
    value_before-bounded start,
    entry_after-bounded start,
    floor-bounded start,
    floor-KeyIn 0 start m v.ordered,
    value_before-entry_after 0 start bounded bounded-SortedFrom,
  )

  erased : UsedSectors
  erased = erase_range from_key to_key bounded

  erased_above : (x : ℕ) → from_key ≤ to_key → to_key ≤ x → floor x erased ≡ floor x bounded
  unfolding erased
  erased_above x r l = elim (Option-cases (floor x bounded)) [
    | inl missing ↦ absurd (subst (KeyFrom to_key) missing (bounded-KeyFrom x l))
    | inr (e, found) ↦
        floor-erase_range_above 0 from_key to_key x bounded e bounded-SortedFrom found r
          (subst (KeyFrom to_key) found (bounded-KeyFrom x l))
        ∙ sym found
  ]

  erased_within : (x : ℕ) → from_key ≤ x → x < to_key → value (floor x erased) ≡ true
  unfolding erased
  erased_within x l u = ground (
    arith,
    from_key-value_before,
    floor-erase_range_before 0 from_key to_key x bounded bounded-SortedFrom l u,
  )

  is_used-erased :
      (x : ℕ)
      → from_key < to_key
      → value (floor x erased) ≡ (is_used m x || (leb start x && ltb x end))
  unfolding erased
  is_used-erased x r = elim (le-cases from_key x) [
    | inr below ↦
        ap value (floor-erase_range_below 0 from_key to_key x bounded bounded-SortedFrom below)
        ∙ bounded_below x below
    | inl from ↦ elim (le-cases to_key x) [
      | inl above ↦ ap value (erased_above x (omega arith) above) ∙ bounded_above x above
      | inr within ↦ erased_within x from within ∙ sym (erased_used x from within)
    ]
  ]

  is_used-marked : (x : ℕ) → is_used marked x ≡ (is_used m x || (leb start x && ltb x end))
  unfolding is_used marked erased
  is_used-marked x = elim (le-cases to_key from_key) [
    | inr some_keys ↦ rw (lt→ltb from_key to_key some_keys) (is_used-erased x some_keys)
    | inl no_keys ↦ rw (le→ltb to_key from_key no_keys) (elim (le-cases from_key x) [
      | inr below ↦ bounded_below x below
      | inl from ↦ bounded_above x (omega arith)
    ])
  ]

  -- The entry at the end of the erased range, and the one at its start.
  to_key-entry_after : (k : ℕ) → k + 1 ≡ to_key → entry_after k bounded ≡ some (to_key, false)
  unfolding to_key end_pos
  to_key-entry_after k l = elim (Option-cases (entry_after end m)) [
    | inl missing ↦
        ground (arith, entry_after-bounded k, entry_after-bounded end, entry_after-KeyAbove k m)
    | inr (e, next) ↦ ground (
      arith,
      entry_after-bounded k,
      entry_after-bounded end,
      entry_after-KeyAbove end m,
      entry_after-KeyAbove k m,
      entry_after_between 0 end k m e v.ordered next,
    )
  ]

  entry_after-bounded_below :
      (k : ℕ) → k < start → entry_after k bounded ≡ earlier (some (start, true)) (entry_after k m)
  unfolding bounded started
  entry_after-bounded_below k l = ground (
    arith,
    entry_after-insert_or_assign 0 end false k started started-SortedFrom,
    entry_after-insert_or_assign 0 start true k m v.ordered,
  )

  -- With no entry between k and `start`, the value at k is the one before `start`.
  before_start :
      (k : ℕ)
      → k < start
      → NoneBelow start (entry_after k m)
      → value_before start m ≡ Option.map (λ e. e.1) (floor k m)
  before_start k l n =
      ap (λ x. value_before x m) (omega arith)
      ∙ value_before-floor 0 (start - 1) m v.ordered
      ∙ ap (Option.map (λ e. e.1)) (
          ground (
            arith,
            entry_after-floor 0 k (start - 1) m v.ordered (omega arith),
            floor-KeyIn 0 (start - 1) m v.ordered,
          ))

  -- Unless the run before `start` goes on into it.
  free_before_start :
      (k : ℕ)
      → k < start
      → NoneBelow start (entry_after k m)
      → value_before start m ≢ some true
      → is_used m k ≡ false
  unfolding is_used
  free_before_start k l n r = ground (arith, before_start k l n)

  used_before_start :
      (k : ℕ)
      → k < start
      → NoneBelow start (entry_after k m)
      → value_before start m ≡ some true
      → is_used m k ≡ true
  unfolding is_used
  used_before_start k l n r = ground (arith, before_start k l n)

  -- The erased range begins at `start` exactly when the run before goes on.
  from_key_at_start :
      ((value_before start m ≡ some true) × (from_key ≡ start))
      ⊎ ((value_before start m ≢ some true) × (start < from_key))
  unfolding from_key
  from_key_at_start = ground (arith, entry_after-bounded start, entry_after-KeyAbove start bounded)

  from_key_begin : start ≤ from_key
  unfolding from_key
  from_key_begin = ground (arith, entry_after-KeyAbove start bounded)

  to_key_end : end ≤ to_key
  unfolding to_key end_pos
  to_key_end = ground (arith, entry_after-KeyAbove end bounded)

  -- Nothing starts between `start` and the erased range.
  quiet_in_range :
      (k : ℕ)
      → start ≤ k
      → k < end
      → k < from_key
      → end ≤ from_key
      → NoneBelow end (entry_after k m)
  unfolding from_key
  quiet_in_range k a b c d = elim (Option-cases (entry_after start m)) [
    | inl missing ↦ ground (arith, entry_after-none start k m a missing)
    | inr (e, next) ↦
        ground
          (arith, entry_after-bounded start, entry_after_between 0 start k m e v.ordered next a)
  ]

  -- Without an erased range.
  bounded_alternates :
      (k : ℕ)
      → to_key ≤ from_key
      → EndsRun (is_used m k || (leb start k && ltb k end)) (entry_after k bounded)
  bounded_alternates k r = elim (le-cases start k) [
    | inr below ↦ ground (
      arith,
      entry_after-bounded_below k below,
      entry_after-KeyAbove k m,
      v.alternates k,
      free_before_start k below,
      from_key_not_start,
    )
    | inl from ↦
        ground
          (arith, entry_after-bounded k from, quiet_in_range k from, v.alternates k, to_key_end)
  ]
    where
      from_key_not_start : value_before start m ≢ some true
      from_key_not_start = unfold from_key in ground (arith, to_key_end, r)

  erased_next :
      (k : ℕ)
      → k < to_key
      → entry_after k erased ≡ (elim (entry_after k bounded) [
        | none ↦ none
        | some e ↦ if ltb e.0 from_key then some e else some (to_key, false)
      ])
  unfolding erased
  erased_next k l =
      let top : to_key ≡ to_key - 1 + 1 = omega arith in
      ap (λ t. entry_after k (erase_range from_key t bounded)) top
      ∙ ground (
        arith,
        entry_after-erase_range 0 from_key (to_key - 1) k bounded bounded-SortedFrom (omega arith),
        to_key-entry_after (to_key - 1) (omega arith),
      )

  next_exists : (k : ℕ) → k < to_key → entry_after k bounded ≢ none
  next_exists k l missing = ground (
    arith,
    entry_after-none k (to_key - 1) bounded (omega arith) missing,
    to_key-entry_after (to_key - 1) (omega arith),
  )

  from_key-NoneBelow :
      (k : ℕ)
      → start ≤ k
      → k < from_key
      → NoneBelow from_key (entry_after k bounded) × (from_key ≤ end)
  unfolding from_key
  from_key-NoneBelow k a b = elim (Option-cases (entry_after start bounded)) [
    | inl missing ↦ ground (arith, missing)
    | inr (e, next) ↦ ground (
      arith,
      entry_after-bounded start,
      entry_after_between 0 start k bounded e bounded-SortedFrom next a,
    )
  ]

  erased_alternates_inside :
      (k : ℕ)
      → start ≤ k
      → k < to_key
      → EndsRun (is_used m k || (leb start k && ltb k end)) (entry_after k erased)
  erased_alternates_inside k a b = elim (le-cases from_key k) [
    | inl within ↦ ground (
      arith,
      erased_next k b,
      next_exists k b,
      entry_after-KeyAbove k bounded,
      erased_used k within b,
    )
    | inr before ↦ ground (arith, erased_next k b, next_exists k b, from_key-NoneBelow k a before)
  ]

  erased_alternates_below :
      (k : ℕ)
      → k < start
      → k < to_key
      → EndsRun (is_used m k || (leb start k && ltb k end)) (entry_after k erased)
  erased_alternates_below k a b = ground (
    arith,
    erased_next k b,
    entry_after-bounded_below k a,
    from_key_begin,
    v.alternates k,
    free_before_start k a,
    used_before_start k a,
    from_key_at_start,
  )

  erased_alternates :
      (k : ℕ)
      → from_key < to_key
      → EndsRun (is_used m k || (leb start k && ltb k end)) (entry_after k erased)
  unfolding erased
  erased_alternates k r = elim (le-cases to_key k) [
    | inl above ↦ ground (
      arith,
      entry_after-erase_range_above 0 from_key to_key k bounded bounded-SortedFrom (omega arith)
          above,
      entry_after-bounded k (omega (arith, to_key_end)),
      to_key_end,
      v.alternates k,
    )
    | inr under ↦ elim (le-cases start k) [
      | inl inside ↦ erased_alternates_inside k inside under
      | inr below ↦ erased_alternates_below k below under
    ]
  ]

  marked-IsValid : IsValid marked
  unfolding marked erased
  marked-IsValid = record {
    ordered = elim (Bool-cases (ltb from_key to_key)) [
      | inl some_keys ↦
          rw some_keys (erase_range-SortedFrom 0 from_key to_key bounded bounded-SortedFrom)
      | inr no_keys ↦ rw no_keys bounded-SortedFrom
    ];
    alternates = λ k. rw (is_used-marked k) (elim (Bool-cases (ltb from_key to_key)) [
      | inl some_keys ↦ rw some_keys (erased_alternates k (ltb→lt _ _ some_keys))
      | inr no_keys ↦ rw no_keys (bounded_alternates k (ltb→le _ _ no_keys))
    ]);
  }

-- Marking [start, end) in a map with alternating runs gives a map with alternating runs, in
-- which a sector is used exactly when it was used before or lies in the range.
pub mark_used-is_used :
    (start end : ℕ) (m : UsedSectors)
    → start < end
    → IsValid m
    → (m' : UsedSectors) × (mark_used m start end ≡ some m')
      × IsValid m'
      × ((x : ℕ) → is_used m' x ≡ (is_used m x || (leb start x && ltb x end)))
mark_used-is_used start end m h v = (
  marked start end h m v,
  mark_used-marked start end h m v,
  marked-IsValid start end h m v,
  is_used-marked start end h m v,
)
