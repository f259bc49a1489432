-- ===== src/VolumeManager/Disks.antt =====
-- VolumeManager.cpp: the disks that are in use, those that wait for the keyguard and for user 0,
-- and the virtual disk.
use android_system_vold.Common.{none, some, List, [], ◌∷◌, ◌++◌, if◌then◌else◌, codes}
use android_system_vold.Common.Aborts.{Run, return, check, ◌>>=◌, ◌>>◌}
use android_system_vold.Disk.{Disk, may_erase, is_stub, new_disk, unmount_all}
use android_system_vold.Disk.Outside.{Device, Machine, Event}
use android_system_vold.Disk.Metadata.{read_metadata}
use android_system_vold.Disk.Partitions.{read_partitions}
use android_system_vold.Disk.Partitions
use android_system_vold.VolumeManager.Data.{State, Host, same_device, is_ready, erase_device}

module _ (machine : Machine) where
  unfoldable pub create_disks : List Disk → Run Event (List Disk)
  create_disks [] = return []
  create_disks (d ∷ ds) = do
    d' ← Partitions.create machine d
    ds' ← create_disks ds
    return (d' ∷ ds')

  unfoldable pub create_pending_disks_if_needed : State → Run Event State
  unfolding is_ready create_disks
  create_pending_disks_if_needed s =
      if is_ready s
      then (do
        made ← create_disks s.pending
        return (record s { disks = s.disks ++ made; pending = [] }))
      else return s

  unfoldable pub handle_disk_added : Disk → State → Run Event State
  unfolding is_ready
  handle_disk_added d s =
      if is_ready s
      then (do d' ← Partitions.create machine d; return (record s { disks = s.disks ++ d' ∷ [] }))
      else return (record s { pending = s.pending ++ d ∷ [] })

  unfoldable pub read_again : Device → List Disk → Run Event (List Disk)
  unfolding read_metadata read_partitions
  read_again device [] = return []
  read_again device (d ∷ ds) =
      if same_device d.device device
      then (do
        (d', _) ← read_metadata machine d
        (d'', _) ← read_partitions machine d'
        ds' ← read_again device ds
        return (d'' ∷ ds'))
      else (do ds' ← read_again device ds; return (d ∷ ds'))

  unfoldable pub handle_disk_changed : Device → State → Run Event State
  unfolding read_again
  handle_disk_changed device s = do
    disks ← read_again device s.disks
    return (record s { disks = disks })

  -- A disk is destroyed, and then erased: `~Disk`.
  unfoldable pub destroy_and_erase : Disk → Run Event (Unit {0})
  unfolding may_erase
  destroy_and_erase d = do gone ← Partitions.destroy machine d; check (may_erase gone)

  -- Those that wait are never created: of them the CHECK of `~Disk` is not asked.
  unfoldable pub destroy_device : Device → List Disk → Run Event (List Disk)
  unfolding destroy_and_erase
  destroy_device device [] = return []
  destroy_device device (d ∷ ds) =
      if same_device d.device device
      then (do destroy_and_erase d; destroy_device device ds)
      else (do ds' ← destroy_device device ds; return (d ∷ ds'))

  unfoldable pub handle_disk_removed : Device → State → Run Event State
  unfolding destroy_device erase_device
  handle_disk_removed device s = do
    disks ← destroy_device device s.disks
    return (record s { disks = disks; pending = erase_device device s.pending })

  -- The loop of `reset` over the disks; those of stubs are erased after it.
  unfoldable pub recreate_disks : List Disk → Run Event (List Disk)
  unfolding is_stub may_erase
  recreate_disks [] = return []
  recreate_disks (d ∷ ds) = do
    gone ← Partitions.destroy machine d
    d' ←
        if is_stub d
        then (do check (may_erase gone); return gone)
        else Partitions.create machine gone
    ds' ← recreate_disks ds
    return (d' ∷ ds')

  -- The loops of `shutdown` and of `unmountAll` over the disks.
  unfoldable pub destroy_disks : List Disk → Run Event (Unit {0})
  unfolding destroy_and_erase
  destroy_disks [] = return tt
  destroy_disks (d ∷ ds) = do destroy_and_erase d; destroy_disks ds

  unfoldable pub unmount_disks : List Disk → Run Event (List Disk)
  unfolding unmount_all
  unmount_disks [] = return []
  unmount_disks (d ∷ ds) = do d' ← unmount_all machine d; ds' ← unmount_disks ds; return (d' ∷ ds')

unfoldable pub update_virtual_disk : Host → State → Run Event State
unfolding handle_disk_added handle_disk_removed
update_virtual_disk host s =
    if host.virtual_disk_enabled
    then (elim s.virtual_disk [
      | some device ↦ return s
      | none ↦ elim host.loop_device [
        | none ↦ return s
        | some device ↦
            handle_disk_added host.machine (new_disk (codes "virtual") device (codes "virtual") 5)
              (record s { virtual_disk = some device })
      ]
    ])
    else (elim s.virtual_disk [
      | none ↦ return s
      | some device ↦ do
        s' ← handle_disk_removed host.machine device s
        return (record s' { virtual_disk = none })
    ])
