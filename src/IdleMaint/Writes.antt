-- ===== src/IdleMaint/Writes.antt =====
-- IdleMaint.cpp: the amount that was written since it was last asked for.
use android_system_vold.Common.{
  ℕ, ◌+◌, ◌-◌, ◌/◌, ◌^◌, ◌≤◌, ◌<◌, ◌≡◌, refl, ap, ◌∙◌, Option, none, some, List, [], ◌∷◌, ltb,
  if◌then◌else◌, ℤ, pos, negsuc, arith, ltb→le, Bool-cases, inl, inr,
}

abbrev pub int32_max : ℕ
int32_max = 2 ^ 31 - 1

abbrev pub kbytes_in_segment : ℕ
kbytes_in_segment = 2048

abbrev pub failure : ℤ
failure = negsuc 0

-- `getLifeTimeWrite`, when the file gives this number or cannot be read.
unfoldable pub get_life_time_write : Option ℕ → ℤ
get_life_time_write none = failure
get_life_time_write (some write_bytes) =
    if ltb int32_max (write_bytes / kbytes_in_segment)
    then failure
    else pos (write_bytes / kbytes_in_segment)

abbrev pub difference : ℕ → ℕ → ℤ
difference a b = if ltb a b then negsuc (b - a - 1) else pos (a - b)

-- `RefreshLatestWrite`, and `GetWriteAmount` with the value of `previousSegmentWrite` after it. The
-- number of segments is never negative but for the failure.
abbrev pub refreshed : ℤ → ℕ → ℕ
refreshed (negsuc n) previous = previous
refreshed (pos current) previous = current

abbrev pub amount : ℤ → ℕ → ℤ × ℕ
amount (negsuc n) previous = (failure, previous)
amount (pos current) previous = (difference current previous, current)

unfoldable pub refresh_latest_write : Option ℕ → ℕ → ℕ
unfolding get_life_time_write
refresh_latest_write reading previous = refreshed (get_life_time_write reading) previous

unfoldable pub get_write_amount : Option ℕ → ℕ → ℤ × ℕ
unfolding get_life_time_write
get_write_amount reading previous = amount (get_life_time_write reading) previous

-- An amount and a number of segments that fit in an `int32_t`.
abbrev pub FitsInt32 : ℤ × ℕ → Type 0
FitsInt32 (pos n, previous) = (n ≤ int32_max) × (previous ≤ int32_max)
FitsInt32 (negsuc n, previous) = (n + 1 ≤ int32_max) × (previous ≤ int32_max)

-- The difference never overflows: from a previous number that fits, the amount fits in an int32_t,
-- and so does the number that is kept, whatever the file gives.
pub get_write_amount-FitsInt32 :
    (reading : Option ℕ) (previous : ℕ)
    → previous ≤ int32_max
    → FitsInt32 (get_write_amount reading previous)
unfolding get_write_amount get_life_time_write
get_write_amount-FitsInt32 none previous h = (omega arith, h)
get_write_amount-FitsInt32 (some write_bytes) previous h =
    elim (Bool-cases (ltb int32_max (write_bytes / kbytes_in_segment))) [
      | inl bad ↦ rw (bad, FitsInt32) (omega arith, h)
      | inr good ↦
          rw (good, FitsInt32)
            (elim (Bool-cases (ltb (write_bytes / kbytes_in_segment) previous)) [
              | inl back ↦
                  rw (back, FitsInt32)
                    (omega arith, ltb→le int32_max (write_bytes / kbytes_in_segment) good)
              | inr on ↦
                  rw (on, FitsInt32)
                    (
                      omega (arith, ltb→le int32_max (write_bytes / kbytes_in_segment) good),
                      ltb→le int32_max (write_bytes / kbytes_in_segment) good,
                    )
            ])
    ]

-- The sum of the amounts that are not a failure, and the number that is kept, over some calls.
abbrev counted : ℤ × ℕ → ℕ
counted (pos n, previous) = n
counted (negsuc n, previous) = 0

unfoldable pub amounts : List (Option ℕ) → ℕ → ℕ × ℕ
unfolding get_write_amount
amounts [] previous = (0, previous)
amounts (reading ∷ readings) previous =
    let result = get_write_amount reading previous in
    let later = amounts readings result.1 in (counted result + later.0, later.1)

-- The numbers of bytes that the file gives do not shrink, and their segments fit in an `int32_t`; a
-- reading may fail.
abbrev pub Grows : List (Option ℕ) → ℕ → Type 0
Grows [] bytes = Unit {0}
Grows (none ∷ readings) bytes = Grows readings bytes
Grows (some later ∷ readings) bytes =
    (bytes ≤ later) × (later / 2048 < 2 ^ 31) × Grows readings later

-- The last number of bytes that was read.
abbrev pub last_read : List (Option ℕ) → ℕ → ℕ
last_read [] bytes = bytes
last_read (none ∷ readings) bytes = last_read readings bytes
last_read (some later ∷ readings) bytes = last_read readings later

get_write_amount-some :
    (bytes later : ℕ)
    → bytes ≤ later
    → later / 2048 < 2 ^ 31
    → get_write_amount (some later) (bytes / 2048)
      ≡ (pos (later / 2048 - bytes / 2048), later / 2048)
unfolding get_write_amount get_life_time_write
get_write_amount-some bytes later h fits = ground arith

amounts-some :
    (bytes later : ℕ) (readings : List (Option ℕ))
    → bytes ≤ later
    → later / 2048 < 2 ^ 31
    → (amounts (some later ∷ readings) (bytes / 2048)).0
      ≡ (later / 2048 - bytes / 2048) + (amounts readings (later / 2048)).0
unfolding amounts
amounts-some bytes later readings h fits = rw (get_write_amount-some bytes later h fits) refl

amounts-none :
    (bytes : ℕ) (readings : List (Option ℕ))
    → (amounts (none ∷ readings) (bytes / 2048)).0 ≡ (amounts readings (bytes / 2048)).0
unfolding amounts get_write_amount get_life_time_write
amounts-none bytes readings = omega arith

amounts_from :
    (readings : List (Option ℕ)) (bytes : ℕ)
    → Grows readings bytes
    → (amounts readings (bytes / 2048)).0 + bytes / 2048 ≡ last_read readings bytes / 2048
amounts_from [] bytes h = unfold amounts in omega arith
amounts_from (none ∷ readings) bytes h =
    omega (arith, amounts-none bytes readings, amounts_from readings bytes h)
amounts_from (some later ∷ readings) bytes h =
    omega (arith, h.0, amounts-some bytes later readings h.0 h.1, amounts_from readings later h.2)

refresh_latest_write-some :
    (bytes previous : ℕ)
    → bytes / 2048 < 2 ^ 31
    → refresh_latest_write (some bytes) previous ≡ bytes / 2048
unfolding refresh_latest_write get_life_time_write
refresh_latest_write-some bytes previous fits = ground arith

-- Nothing that is written is lost between the calls. After a refresh at a number of bytes, while
-- the numbers that the file gives do not shrink and each has less than 2 ^ 31 segments of 2048
-- bytes, the amounts of the calls add up to the segments of the last number that was read less
-- those of the first, whichever readings fail.
pub amounts-add_up :
    (readings : List (Option ℕ)) (bytes previous : ℕ)
    → bytes / 2048 < 2 ^ 31
    → Grows readings bytes
    → (amounts readings (refresh_latest_write (some bytes) previous)).0 + bytes / 2048
      ≡ last_read readings bytes / 2048
amounts-add_up readings bytes previous fits h =
    ap (λ n. (amounts readings n).0 + bytes / 2048) (refresh_latest_write-some bytes previous fits)
    ∙ amounts_from readings bytes h
