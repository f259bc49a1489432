-- ===== src/VolumeManager/Emulated.antt =====
-- VolumeManager.cpp: the emulated volumes of a user, on internal storage and on each mounted private
-- volume.
use android_system_vold.Common.{
  ℕ, none, some, List, [], ◌∷◌, ◌++◌, ◌==◌, if◌then◌else◌, Text, codes, to_string, drop,
}
use android_system_vold.Common.Aborts.{Run, return, ◌>>=◌, ◌>>◌}
use android_system_vold.VolumeBase.{
  Volume, Volumes, volume, nil, cons, Kind, Info, info, new_volume, add_volume, is_mounted, set_id,
  set_mount_user_id,
}
use android_system_vold.VolumeBase
use android_system_vold.Disk.{of_volume, destroy_and_drop}
use android_system_vold.Disk.Outside.{Machine, Event}
use android_system_vold.VolumeManager.Data.{State}
use android_system_vold.VolumeManager.Lookup.{list_disk_volumes, change_volume}

-- The constructors of EmulatedVolume with `setMountUserId`. The second has the device numbers of
-- the private volume that it is stacked on, which its id has after "private:".
unfoldable pub emulated_volume : ℕ → Volume
emulated_volume user =
    (set_mount_user_id user
      (set_id (codes "emulated;" ++ to_string user) (new_volume VolumeBase.emulated)).0).0

unfoldable pub stacked_emulated_volume : Info → ℕ → Volume
stacked_emulated_volume base user =
    (set_mount_user_id user
      (set_id (codes "emulated:" ++ drop 8 base.id ++ codes ";" ++ to_string user)
        (new_volume VolumeBase.emulated)).0).0

module _ (machine : Machine) where
  -- What is done to each private volume.
  unfoldable pub stack_for_user : ℕ → Volume → Run Event Volume
  unfolding stacked_emulated_volume
  stack_for_user user (volume i vs) =
      if is_mounted i.state
      then (do
        e ← of_volume (VolumeBase.create machine.methods (stacked_emulated_volume i user))
        return (volume i (add_volume vs e)))
      else return (volume i vs)

  -- The volumes of the user are destroyed and leave the list.
  unfoldable pub destroy_of_user : ℕ → Volumes → Run Event Volumes
  destroy_of_user user nil = return nil
  destroy_of_user user (cons v vs) =
      if (info v).mount_user_id == user
      then (do destroy_and_drop machine v; destroy_of_user user vs)
      else (do vs' ← destroy_of_user user vs; return (cons v vs'))

  unfoldable pub unstack_for_user : ℕ → Volume → Run Event Volume
  unfolding destroy_of_user
  unstack_for_user user (volume i vs) =
      if is_mounted i.state
      then (do vs' ← destroy_of_user user vs; return (volume i vs'))
      else return (volume i vs)

  -- The loop over the ids of the private volumes; `findVolume` finds each.
  unfoldable pub change_each : List Text → (Volume → Run Event Volume) → State → Run Event State
  unfolding change_volume
  change_each [] f s = return s
  change_each (id ∷ ids) f s = elim (change_volume id f s) [
    | none ↦ none
    | some run ↦ do s' ← run; change_each ids f s'
  ]

  unfoldable pub create_emulated_volumes_for_user : ℕ → State → Run Event State
  unfolding change_each emulated_volume list_disk_volumes stack_for_user
  create_emulated_volumes_for_user user s = do
    v ← of_volume (VolumeBase.create machine.methods (emulated_volume user))
    change_each (list_disk_volumes VolumeBase.private s.disks) (stack_for_user user)
        (record s { internal_emulated = add_volume s.internal_emulated v })

  unfoldable pub destroy_emulated_volumes_for_user : ℕ → State → Run Event State
  unfolding change_each destroy_of_user list_disk_volumes unstack_for_user
  destroy_emulated_volumes_for_user user s = do
    vs ← destroy_of_user user s.internal_emulated
    change_each (list_disk_volumes VolumeBase.private s.disks) (unstack_for_user user)
        (record s { internal_emulated = vs })
