-- ===== src/Checkpoint/Relocations/Replay.antt =====
-- Validation by relocations reads what a restore would have copied.
use android_system_vold.Common.{
  ℕ, ◌+◌, ◌-◌, ◌<◌, ◌≡◌, refl, ap, ◌∙◌, Option, some, List, [], ◌∷◌, ◌&&◌, ltb, leb, if◌then◌else◌,
  All, arith, Bool-cases, inl, inr,
}
use mathlib.Core.Option
use android_system_vold.OrderedMap.{floor}
use android_system_vold.Checkpoint.Relocations.{
  sector_mod, Relocations, no_relocations, translate, Copied, relocate_entries,
}
use android_system_vold.Checkpoint.Relocations.Reads.{IsValid, relocate-translate}

-- A restore of one entry: the sectors from `dest` on are read and written from `source` on.
copy : {A : Type 0} → Copied → (ℕ → A) → ℕ → A
copy le device s =
    if leb le.source s && ltb s (le.source + le.count)
    then device (s + le.dest - le.source)
    else device s

-- The contents of the device after the entries are restored, in this order.
pub replay : {A : Type 0} → List Copied → (ℕ → A) → ℕ → A
unfolding copy
replay [] device = device
replay (le ∷ les) device = replay les (copy le device)

-- Not empty, and within the 64 bits of a sector number.
pub record Fits (le : Copied) : Type 0 where
  pub some_sectors : 0 < le.count
  pub source_fits : le.source + le.count < sector_mod
  pub dest_fits : le.dest + le.count < sector_mod

-- What is read through the relocations.
abbrev pub read_through : {A : Type 0} → (ℕ → A) → Relocations → ℕ → Option A
read_through device m s = Option.map device (translate m s)

-- Through m a sector is read where `device` has what the current contents have.
abbrev Shows : {A : Type 0} → (ℕ → A) → Relocations → (ℕ → A) → Type 0
Shows device m current = (s : ℕ) → s < sector_mod → read_through device m s ≡ some (current s)

pub no_relocations-IsValid : IsValid no_relocations
unfolding floor
no_relocations-IsValid = record { ordered = omega arith; total = ((0, 0), refl) }

no_relocations-translate : (s : ℕ) → s < sector_mod → translate no_relocations s ≡ some s
unfolding translate floor
no_relocations-translate s b = ground arith

module _ {A : Type 0} (device : ℕ → A) where
  Shows-copy :
      (le : Copied) (m m' : Relocations) (current : ℕ → A)
      → Fits le
      → Shows device m current
      → ((s : ℕ)
          → s < sector_mod
          → translate m' s ≡ (
              if leb le.source s && ltb s (le.source + le.count)
              then translate m (s + le.dest - le.source)
              else translate m s))
      → Shows device m' (copy le current)
  unfolding copy
  Shows-copy le m m' current f h t s b =
      ap (Option.map device) (t s b)
      ∙ elim (Bool-cases (leb le.source s && ltb s (le.source + le.count))) [
        | inl moved ↦ rw moved (h (s + le.dest - le.source) (ground (arith, f.dest_fits)))
        | inr kept ↦ rw kept (h s b)
      ]

  relocate_entries-replay :
      (les : List Copied) (m : Relocations) (current : ℕ → A)
      → IsValid m
      → Shows device m current
      → All Fits les
      → (m' : Relocations) × (relocate_entries m les ≡ some m')
        × Shows device m' (replay les current)
  unfolding relocate_entries replay
  relocate_entries-replay [] m current v h f = (m, refl, h)
  relocate_entries-replay (le ∷ les) m current v h f =
      let (m', e, v', t) =
        relocate-translate m le.source le.dest le.count v f.0.some_sectors f.0.source_fits
          f.0.dest_fits in
      let (m'', e', h') =
        relocate_entries-replay les m' (copy le current) v' (Shows-copy le m m' current f.0 h t)
          f.1 in
      (m'', rw (e, relocate_entries) e', h')

  -- A log whose entries fit, as `Fits` says, is validated without a fault, and a read of any
  -- sector below 2^64 through its relocations gives what that sector holds after the entries are
  -- copied on the device itself, one after the other.
  pub validate-replay :
      (les : List Copied)
      → All Fits les
      → (m : Relocations) × (relocate_entries no_relocations les ≡ some m)
        × ((s : ℕ) → s < sector_mod → read_through device m s ≡ some (replay les device s))
  validate-replay les f =
      relocate_entries-replay les no_relocations device no_relocations-IsValid
        (λ s b. ap (Option.map device) (no_relocations-translate s b)) f
