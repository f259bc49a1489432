-- ===== src/Disk/Checks.antt =====
-- The CHECKs of volumes, as the code above them meets them: each operation keeps to the states
-- in which the next one does not abort.
use android_system_vold.Common.{
  ◌≡◌, ◌≢◌, ◌∙◌, refl, Option, none, some, List, [], Bool, true, false, Text, ℤ, ℕ, arith,
  Option-cases,
}
use android_system_vold.Common.Aborts.{check, ◌>>=◌, Ensures, bind-Ensures, check-true}
use android_system_vold.VolumeBase.{
  Info, Volume, volume, Volumes, nil, cons, Event, Methods, info, stacked, is_mounted, set_disk_id,
  set_part_guid, set_silent, set_id, set_mount_flags, set_mount_user_id, new_volume, Kind,
  unmount_with, destroy_with, finish_destroy, format_idle, may_drop, creating, destroying, apply,
}
use android_system_vold.VolumeBase
use android_system_vold.VolumeBase.Safety.{
  IsSound, AllCreated, create-IsSound, destroy-ne-none, destroy-IsSound, format-ne-none,
  format-IsSound, unmount-ne-none, unmount-IsSound, mount-IsSound, may_drop_idle,
}
use android_system_vold.Disk.{of_volume}

-- A volume that may be destroyed, and one that may be created.
abbrev pub IsLive : Volume → Type 0
IsLive v = ((info v).created ≡ true) × IsSound v

abbrev pub IsFresh : Volume → Type 0
IsFresh v = ((info v).created ≡ false) × (is_mounted (info v).state ≡ false) × IsSound v

of_volume-Ensures :
    (P : Volume → Type 0) (o : Option (Volume × ℤ × List Event))
    → o ≢ none
    → ((r : Volume × ℤ × List Event) → o ≡ some r → P r.0)
    → Ensures P (of_volume o)
of_volume-Ensures P none h g = absurd (h refl)
of_volume-Ensures P (some r) h g = g r refl

module _ (methods : Methods) where
  create-created :
      (v : Volume) (r : Volume × ℤ × List Event)
      → VolumeBase.create methods v ≡ some r
      → (info r.0).created ≡ true
  unfolding VolumeBase.create
  create-created (volume i vs) r e = ground (arith, e)

  create-fresh : (v : Volume) → (info v).created ≡ false → VolumeBase.create methods v ≢ none
  unfolding VolumeBase.create
  create-fresh (volume i vs) h = ground (arith, h)

  pub create-Ensures :
      (v : Volume) → IsFresh v → Ensures IsLive (of_volume (VolumeBase.create methods v))
  create-Ensures v h =
      of_volume-Ensures IsLive (VolumeBase.create methods v) (create-fresh v h.0)
        (λ r e. (create-created v r e, create-IsSound methods v r h.1 h.2 e))

  destroy-state :
      (v : Volume) (r : Volume × ℤ × List Event)
      → VolumeBase.destroy methods v ≡ some r
      → ((info r.0).created ≡ false) × (is_mounted (info r.0).state ≡ false)
  unfolding VolumeBase.destroy destroy_with unmount_with finish_destroy
  destroy-state (volume i vs) r e = ground (arith, e)

  pub destroy-Ensures :
      (v : Volume) → IsLive v → Ensures IsFresh (of_volume (VolumeBase.destroy methods v))
  destroy-Ensures v h =
      of_volume-Ensures IsFresh (VolumeBase.destroy methods v) (destroy-ne-none methods v h.1 h.0)
        (λ r e. let (c, m) = destroy-state v r e in (c, m, destroy-IsSound methods v r h.1 e))

  IsFresh-may_drop : (v : Volume) → IsFresh v → may_drop v ≡ true
  IsFresh-may_drop v f = may_drop_idle v f.0 f.1 f.2

  pub destroy-Drops :
      (v : Volume)
      → IsLive v
      → Ensures
          (λ _. Unit {0})
          (of_volume (VolumeBase.destroy methods v) >>= λ gone. check (may_drop gone))
  destroy-Drops v h =
      bind-Ensures IsFresh (λ _. Unit {0}) (of_volume (VolumeBase.destroy methods v)) _
        (destroy-Ensures v h) (λ gone f. check-true _ (may_drop gone) (IsFresh-may_drop gone f))

  unmount-created :
      (v : Volume) (r : Volume × ℤ × List Event)
      → VolumeBase.unmount methods v ≡ some r
      → (info r.0).created ≡ (info v).created
  unfolding VolumeBase.unmount unmount_with
  unmount-created (volume i vs) r e = ground (arith, e)

  pub unmount-Ensures :
      (v : Volume) → IsLive v → Ensures IsLive (of_volume (VolumeBase.unmount methods v))
  unmount-Ensures v h =
      of_volume-Ensures IsLive (VolumeBase.unmount methods v) (unmount-ne-none methods v h.1)
        (λ r e. (unmount-created v r e ∙ h.0, unmount-IsSound methods v r h.1 e))

  format_idle-created :
      (fs_type : Text) (v : Volume) (events : List Event)
      → (info (format_idle methods fs_type v events).0).created ≡ (info v).created
  unfolding format_idle
  format_idle-created fs_type (volume i vs) events = ground arith

  format-created :
      (fs_type : Text) (v : Volume) (r : Volume × ℤ × List Event)
      → VolumeBase.format methods fs_type v ≡ some r
      → (info r.0).created ≡ (info v).created
  unfolding VolumeBase.format
  format-created fs_type v r e =
      ground
        (arith, e, format_idle-created fs_type v [], Option-cases (VolumeBase.unmount methods v))

  pub format-Ensures :
      (fs_type : Text) (v : Volume)
      → IsLive v
      → Ensures IsLive (of_volume (VolumeBase.format methods fs_type v))
  format-Ensures fs_type v h =
      of_volume-Ensures IsLive (VolumeBase.format methods fs_type v)
        (format-ne-none methods fs_type v h.1)
        (λ r e. (format-created fs_type v r e ∙ h.0, format-IsSound methods fs_type v r h.1 e))

  mount-created : (v : Volume) → (info (VolumeBase.mount methods v).0).created ≡ (info v).created
  unfolding VolumeBase.mount VolumeBase.mount_path VolumeBase.mount_internal_path
      VolumeBase.set_path VolumeBase.set_internal_path
  mount-created (volume i vs) = ground arith

  -- What `doPostMount` stacks is created.
  pub mount-IsLive :
      (v : Volume)
      → ((i : Info) → AllCreated (methods.do_post_mount i))
      → IsLive v
      → IsLive (VolumeBase.mount methods v).0
  mount-IsLive v post h = (mount-created v ∙ h.0, mount-IsSound methods v post h.1)

-- The setters.
pub set_silent-IsFresh : (silent : Bool) (v : Volume) → IsFresh v → IsFresh (set_silent silent v).0
unfolding set_silent
set_silent-IsFresh silent (volume i vs) h = ground (arith, h.0, h.1, h.2)

pub set_disk_id-IsFresh : (id : Text) (v : Volume) → IsFresh v → IsFresh (set_disk_id id v).0
unfolding set_disk_id
set_disk_id-IsFresh id (volume i vs) h = ground (arith, h.0, h.1, h.2)

pub set_part_guid-IsFresh : (id : Text) (v : Volume) → IsFresh v → IsFresh (set_part_guid id v).0
unfolding set_part_guid
set_part_guid-IsFresh id (volume i vs) h = ground (arith, h.0, h.1, h.2)

pub named-IsFresh : (kind : Kind) (id : Text) → IsFresh (set_id id (new_volume kind)).0
unfolding set_id new_volume
named-IsFresh kind id = (refl, refl, (tt, tt))

pub set_mount_user_id-IsFresh :
    (user : ℕ) (v : Volume) → IsFresh v → IsFresh (set_mount_user_id user v).0
unfolding set_mount_user_id
set_mount_user_id-IsFresh user (volume i vs) h = ground (arith, h.0, h.1, h.2)

pub set_mount_user_id-IsLive :
    (user : ℕ) (v : Volume) → IsLive v → IsLive (set_mount_user_id user v).0
unfolding set_mount_user_id
set_mount_user_id-IsLive user (volume i vs) h = ground (arith, h.0, h.1)

pub set_mount_flags-IsLive :
    (flags : ℕ) (v : Volume) → IsLive v → IsLive (set_mount_flags flags v).0
unfolding set_mount_flags
set_mount_flags-IsLive flags (volume i vs) h = ground (arith, h.0, h.1)
