-- ===== src/VolumeManager/Locked.antt =====
-- The manager while the keyguard shows and no disk is in use: no request touches a disk.
use mathlib.Core.Option
use android_system_vold.Common.{
  ℕ, ◌≡◌, refl, Option, none, some, List, [], ◌∷◌, Bool, true, false, ◌==◌, All, Bool-cases, inl,
  inr, map, Text, text_eq, ℤ,
}
use android_system_vold.Common.Aborts.{Run, return, check, ◌>>=◌, Gives, bind-Gives, if-Gives}
use android_system_vold.VolumeBase.{
  Volume, Volumes, volume, nil, cons, Info, info, add_volume, append_volumes, may_drop,
}
use android_system_vold.VolumeBase
use android_system_vold.Disk.{Disk, of_volume, destroy_and_drop, destroy_volumes, unmount_volumes}
use android_system_vold.Disk.Outside.{Device, Machine, Event, volume_event}
use android_system_vold.VolumeManager.Data.{State, is_ready}
use android_system_vold.VolumeManager.Lookup.{
  Change, change_in_list, change_on_disks, change_volume, list_disk_volumes,
}
use android_system_vold.VolumeManager.Emulated.{
  emulated_volume, destroy_of_user, change_each, create_emulated_volumes_for_user,
  destroy_emulated_volumes_for_user,
}
use android_system_vold.VolumeManager.Disks.{
  create_pending_disks_if_needed, handle_disk_added, handle_disk_changed, handle_disk_removed,
  read_again, destroy_device,
}

-- The events of a volume; the others are the events of a disk and the commands.
abbrev pub OfVolume : Event → Type 0
OfVolume (volume_event e) = Unit {0}
OfVolume _ = ⊥

abbrev pub Quiet : {A : Type 0} → (A → Type 0) → Run Event A → Type 0
Quiet P m = Gives OfVolume P m

-- The keyguard is showing and no disk is in use.
abbrev pub lock : State → State
lock s = record s { disks = []; keyguard_showing = true }

abbrev pub IsLocked : State → Type 0
IsLocked s = s ≡ lock s

abbrev Any : {A : Type 0} → A → Type 0
Any a = Unit {0}

volume_events : (es : List VolumeBase.Event) → All OfVolume (map volume_event es)
volume_events [] = tt
volume_events (e ∷ es) = (tt, volume_events es)

pub of_volume-Quiet : (o : Option (Volume × ℤ × List VolumeBase.Event)) → Quiet Any (of_volume o)
of_volume-Quiet none = tt
of_volume-Quiet (some r) = (volume_events _, tt)

check-Quiet : (b : Bool) → Quiet Any (check b)
check-Quiet true = (tt, tt)
check-Quiet false = tt

-- A run, and then a value in which nothing is told.
pub then-Quiet :
    {A : Type 0} (P : State → Type 0) (m : Run Event A) (f : A → Run Event State)
    → Quiet Any m
    → ((a : A) → Quiet P (f a))
    → Quiet P (m >>= f)
then-Quiet P m f h g = bind-Gives OfVolume Any P m f h (λ a u. g a)

keep-Quiet :
    {A B : Type 0} (m : Run Event A) (f : A → B) → Quiet Any m → Quiet Any (do a ← m; return (f a))
keep-Quiet m f h = bind-Gives OfVolume Any Any m _ h (λ a u. (tt, tt))

module _ (machine : Machine) where
  pub destroy_and_drop-Quiet : (v : Volume) → Quiet Any (destroy_and_drop machine v)
  destroy_and_drop-Quiet v =
      bind-Gives OfVolume Any Any (of_volume (VolumeBase.destroy machine.methods v)) _
        (of_volume-Quiet _) (λ gone u. check-Quiet (may_drop gone))

  pub destroy_volumes-Quiet : (vs : Volumes) → Quiet Any (destroy_volumes machine vs)
  unfolding destroy_volumes
  destroy_volumes-Quiet nil = (tt, tt)
  destroy_volumes-Quiet (cons v vs) =
      bind-Gives OfVolume Any Any (destroy_and_drop machine v) _ (destroy_and_drop-Quiet v)
        (λ a u. destroy_volumes-Quiet vs)

  pub unmount_volumes-Quiet : (vs : Volumes) → Quiet Any (unmount_volumes machine vs)
  unfolding unmount_volumes
  unmount_volumes-Quiet nil = (tt, tt)
  unmount_volumes-Quiet (cons v vs) =
      bind-Gives OfVolume Any Any (of_volume (VolumeBase.unmount machine.methods v)) _
        (of_volume-Quiet _) (λ a u. keep-Quiet _ _ (unmount_volumes-Quiet vs))

  destroy_of_user-Quiet : (user : ℕ) (vs : Volumes) → Quiet Any (destroy_of_user machine user vs)
  unfolding destroy_of_user
  destroy_of_user-Quiet user nil = (tt, tt)
  destroy_of_user-Quiet user (cons v vs) =
      if-Gives OfVolume Any ((info v).mount_user_id == user) _ _
        (bind-Gives OfVolume Any Any (destroy_and_drop machine v) _ (destroy_and_drop-Quiet v)
          (λ a u. destroy_of_user-Quiet user vs))
        (keep-Quiet _ _ (destroy_of_user-Quiet user vs))

  pub create_emulated-Quiet :
      (user : ℕ) (s : State)
      → Quiet IsLocked (create_emulated_volumes_for_user machine user (lock s))
  unfolding create_emulated_volumes_for_user list_disk_volumes change_each
  create_emulated-Quiet user s =
      then-Quiet IsLocked (of_volume (VolumeBase.create machine.methods (emulated_volume user))) _
        (of_volume-Quiet _) (λ v. (tt, refl))

  pub destroy_emulated-Quiet :
      (user : ℕ) (s : State)
      → Quiet IsLocked (destroy_emulated_volumes_for_user machine user (lock s))
  unfolding destroy_emulated_volumes_for_user list_disk_volumes change_each
  destroy_emulated-Quiet user s =
      then-Quiet IsLocked _ _ (destroy_of_user-Quiet user s.internal_emulated) (λ vs. (tt, refl))

  pub create_pending-Quiet :
      (s : State) → Quiet IsLocked (create_pending_disks_if_needed machine (lock s))
  unfolding create_pending_disks_if_needed is_ready
  create_pending-Quiet s = (tt, refl)

  pub handle_disk_added-Quiet :
      (d : Disk) (s : State) → Quiet IsLocked (handle_disk_added machine d (lock s))
  unfolding handle_disk_added is_ready
  handle_disk_added-Quiet d s = (tt, refl)

  pub handle_disk_changed-Quiet :
      (device : Device) (s : State) → Quiet IsLocked (handle_disk_changed machine device (lock s))
  unfolding handle_disk_changed read_again
  handle_disk_changed-Quiet device s = (tt, refl)

  pub handle_disk_removed-Quiet :
      (device : Device) (s : State) → Quiet IsLocked (handle_disk_removed machine device (lock s))
  unfolding handle_disk_removed destroy_device
  handle_disk_removed-Quiet device s = (tt, refl)

-- A change of the volume that an id names, which is quiet for each volume.
abbrev pub QuietIfFound : {A : Type 0} → (A → Type 0) → Option (Run Event A) → Type 0
QuietIfFound P none = Unit {0}
QuietIfFound P (some m) = Quiet P m

map-QuietIfFound :
    {A B : Type 0} (P : B → Type 0) (o : Option (Run Event A)) (f : A → Run Event B)
    → QuietIfFound Any o
    → ((a : A) → Quiet P (f a))
    → QuietIfFound P (Option.map (λ (m : Run Event A). m >>= f) o)
map-QuietIfFound P none f h g = tt
map-QuietIfFound P (some m) f h g = bind-Gives OfVolume Any P m f h (λ a u. g a)

change_in_list-Quiet :
    (id : Text) (f : Change)
    → ((v : Volume) → Quiet Any (f v))
    → (vs : Volumes) → QuietIfFound Any (change_in_list id f vs)
unfolding change_in_list
change_in_list-Quiet id f quiet nil = tt
change_in_list-Quiet id f quiet (cons v vs) = elim (Bool-cases (text_eq (info v).id id)) [
  | inl found ↦ rw found (keep-Quiet (f v) _ (quiet v))
  | inr other ↦ rw other (
      map-QuietIfFound Any (change_in_list id f vs) _ (change_in_list-Quiet id f quiet vs)
        (λ a. (tt, tt)))
]

pub change_volume-Quiet :
    (id : Text) (f : Change) (s : State)
    → ((v : Volume) → Quiet Any (f v))
    → QuietIfFound IsLocked (change_volume id f (lock s))
unfolding change_volume change_on_disks
change_volume-Quiet id f s quiet =
    go (change_in_list id f s.internal_emulated)
      (change_in_list-Quiet id f quiet s.internal_emulated)
  where
    later : QuietIfFound IsLocked (
        Option.map
          (λ (run : Run Event Volumes). do vs ← run; return (record (lock s) { obb_volumes = vs }))
          (change_in_list id f s.obb_volumes))
    later =
        map-QuietIfFound IsLocked (change_in_list id f s.obb_volumes) _
          (change_in_list-Quiet id f quiet s.obb_volumes) (λ vs. (tt, refl))

    go :
        (o : Option (Run Event Volumes))
        → QuietIfFound Any o
        → QuietIfFound IsLocked (elim o as (λ _. Option (Run Event State)) [
          | some run ↦ some (do vs ← run; return (record (lock s) { internal_emulated = vs }))
          | none ↦
              Option.map
                (λ (run : Run Event Volumes). do
                  vs ← run
                  return (record (lock s) { obb_volumes = vs }))
                (change_in_list id f s.obb_volumes)
        ])
    go none h = later
    go (some m) h = then-Quiet IsLocked m _ h (λ vs. (tt, refl))
