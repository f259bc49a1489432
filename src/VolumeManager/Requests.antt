-- ===== src/VolumeManager/Requests.antt =====
-- VolumeManager.cpp: what the framework and netlink ask of the manager, and in VoldNativeService.cpp
-- what it asks of a volume.
use android_system_vold.Common.{
  ℕ, ◌+◌, ◌-◌, ◌^◌, none, some, List, [], ◌∷◌, ◌++◌, Bool, true, false, not, ◌&&◌, ◌||◌, ◌==◌,
  if◌then◌else◌, Text, codes, to_string, starts_with, is_empty, text_eq,
}
use Prim.Native.Nat.{bit_and, bit_or}
use android_system_vold.Common.Aborts.{Run, return, check, ◌>>=◌, ◌>>◌}
use android_system_vold.VolumeBase.{
  Volume, Volumes, volume, nil, cons, Kind, Info, info, new_volume, add_volume, append_volumes,
  is_mounted, set_id, set_mount_user_id, set_mount_flags, is_visible_for_write, stacked,
}
use android_system_vold.VolumeBase
use android_system_vold.Disk.{
  Disk, new_disk, of_volume, destroy_and_drop, destroy_volumes, unmount_volumes,
}
use android_system_vold.Disk.Outside.{Event}
use android_system_vold.Disk.Partitions.{named_volume, initialize_partition}
use android_system_vold.VolumeManager.Data.{
  State, Host, DiskSource, member, insert_user, erase_user, set_key, erase_key, user_unknown,
  remove_stubs,
}
use android_system_vold.VolumeManager.Lookup.{change_volume}
use android_system_vold.VolumeManager.Emulated.{
  emulated_volume, create_emulated_volumes_for_user, destroy_emulated_volumes_for_user,
}
use android_system_vold.VolumeManager.Disks.{
  create_pending_disks_if_needed, recreate_disks, destroy_disks, unmount_disks, handle_disk_added,
  handle_disk_removed, update_virtual_disk,
}
use android_system_vold.VolumeManager.BlockEvents.{BlockEvent, handle_block_event}

unfoldable pub on_user_added : ℕ → ℕ → ℕ → State → State
unfolding set_key
on_user_added user serial shares_with s =
    let added = record s { added_users = set_key user serial s.added_users } in
    if shares_with == user_unknown
    then added
    else record added { shared_storage_user = set_key user shares_with s.shared_storage_user }

-- `Disk::getVolumes`, and the volumes of all disks in order.
unfoldable pub get_volumes : Volumes → Volumes
unfolding append_volumes
get_volumes nil = nil
get_volumes (cons v vs) = cons v (append_volumes (stacked v) (get_volumes vs))

unfoldable pub all_volumes : List Disk → Volumes
unfolding append_volumes get_volumes
all_volumes [] = nil
all_volumes (d ∷ ds) = append_volumes (get_volumes d.volumes) (all_volumes ds)

-- The filter of `createObb`.
unfoldable pub holds_obb : Text → Volume → Bool
holds_obb source (volume i vs) =
    is_mounted i.state
    && is_visible_for_write i
    && not (is_empty i.internal_path)
    && not (is_empty source)
    && starts_with source i.path

unfoldable pub any_volume : (Volume → Bool) → Volumes → Bool
any_volume test nil = false
any_volume test (cons v vs) = test v || any_volume test vs

-- The flags that `createStubVolume` passes on, of those that it is given.
unfoldable pub stub_flags : ℕ → ℕ
stub_flags flags =
    bit_or (bit_or (bit_and flags 8) (bit_and flags 4))
      (if bit_and flags 64 == 0 then bit_and flags 32 else bit_and flags 64)

-- The dev_t of the stub volume after this many.
abbrev pub stub_id : ℕ → ℕ
stub_id made = 2 ^ 64 - (made + 1)

-- A volume that is not found is an error, which changes nothing.
unfoldable pub on_volume : Text → (Volume → Run Event Volume) → State → Run Event State
unfolding change_volume
on_volume id f s = elim (change_volume id f s) [ none ↦ return s | some run ↦ run ]

-- From here on, what the manager asks outside is `host`.
module _ (host : Host) where
  unfoldable pub on_user_stopped : ℕ → State → Run Event State
  unfolding erase_user destroy_emulated_volumes_for_user
  on_user_stopped user s = do
    s' ←
        if member user s.started_users
        then destroy_emulated_volumes_for_user host.machine user s
        else return s
    return (record s' { started_users = erase_user user s'.started_users })

  unfoldable pub on_user_removed : ℕ → State → Run Event State
  unfolding on_user_stopped erase_key
  on_user_removed user s = do
    s' ← on_user_stopped user s
    return (record s' {
      added_users = erase_key user s'.added_users;
      shared_storage_user = erase_key user s'.shared_storage_user;
    })

  unfoldable pub on_user_started : ℕ → State → Run Event State
  unfolding insert_user create_emulated_volumes_for_user create_pending_disks_if_needed
  on_user_started user s = do
    s' ←
        if member user s.started_users
        then return s
        else create_emulated_volumes_for_user host.machine user s
    create_pending_disks_if_needed host.machine
        (record s' { started_users = insert_user user s'.started_users })

  unfoldable pub on_secure_keyguard_state_changed : Bool → State → Run Event State
  unfolding create_pending_disks_if_needed
  on_secure_keyguard_state_changed showing s =
      create_pending_disks_if_needed host.machine (record s { keyguard_showing = showing })

  -- Of `unmountAll`, the volumes that the manager knows.
  unfoldable pub unmount_all_volumes : State → Run Event State
  unfolding unmount_volumes unmount_disks
  unmount_all_volumes s = do
    vs ← unmount_volumes host.machine s.internal_emulated
    ds ← unmount_disks host.machine s.disks
    return (record s { internal_emulated = vs; disks = ds })

  unfoldable pub start : State → Run Event State
  unfolding unmount_all_volumes emulated_volume update_virtual_disk
  start s = do
    s' ← unmount_all_volumes s
    check (elim s'.internal_emulated [ nil ↦ true | cons v vs ↦ false ])
    v ← of_volume (VolumeBase.create host.machine.methods (emulated_volume 0))
    update_virtual_disk host (record s' { internal_emulated = add_volume s'.internal_emulated v })

  unfoldable pub reset : State → Run Event State
  unfolding destroy_volumes recreate_disks remove_stubs update_virtual_disk
  reset s = do
    destroy_volumes host.machine s.internal_emulated
    ds ← recreate_disks host.machine s.disks
    s' ← update_virtual_disk host (record s {
      internal_emulated = nil;
      disks = remove_stubs ds;
      pending = remove_stubs s.pending;
    })
    return (record s' { added_users = []; started_users = []; shared_storage_user = [] })

  unfoldable pub shutdown : State → Run Event State
  unfolding destroy_volumes destroy_disks
  shutdown s = elim s.internal_emulated [
    | nil ↦ return s
    | cons v vs ↦ do
      destroy_volumes host.machine (cons v vs)
      destroy_disks host.machine s.disks
      return (record s { internal_emulated = nil; disks = []; pending = [] })
  ]

  -- `createObb`; the path of the source goes to `doMount`. Whether it succeeds is in the value.
  unfoldable pub create_obb : Text → State → Run Event (State × Bool)
  unfolding holds_obb any_volume all_volumes
  create_obb source s =
      let counted = record s { next_obb_id = s.next_obb_id + 1 } in
      let found =
        any_volume (holds_obb source) (append_volumes s.internal_emulated (all_volumes s.disks)) in
      if starts_with source (codes "/storage/") && not found then return (counted, false) else (do
        v ← of_volume (
            VolumeBase.create host.machine.methods
              (named_volume VolumeBase.obb (codes "obb:" ++ to_string s.next_obb_id)))
        return (record counted { obb_volumes = add_volume s.obb_volumes v }, true))

  unfoldable pub destroy_with_id : Text → Volumes → Run Event Volumes
  destroy_with_id id nil = return nil
  destroy_with_id id (cons v vs) =
      if text_eq (info v).id id
      then (do destroy_and_drop host.machine v; destroy_with_id id vs)
      else (do vs' ← destroy_with_id id vs; return (cons v vs'))

  unfoldable pub destroy_obb : Text → State → Run Event State
  unfolding destroy_with_id
  destroy_obb id s = do
    vs ← destroy_with_id id s.obb_volumes
    return (record s { obb_volumes = vs })

  unfoldable pub create_stub_volume : ℕ → State → Run Event State
  unfolding stub_flags initialize_partition handle_disk_added
  create_stub_volume flags s = do
    let id = stub_id s.stubs_made
    d ←
        initialize_partition host.machine
          (named_volume VolumeBase.stub (codes "stub:" ++ to_string id))
          (new_disk (codes "stub") (host.device_of id) (codes "stub") (stub_flags flags))
    handle_disk_added host.machine d (record s { stubs_made = s.stubs_made + 1 })

  unfoldable pub destroy_stub_volume : Text → State → Run Event State
  unfolding handle_disk_removed
  destroy_stub_volume id s = elim (host.stub_number id) [
    | none ↦ none
    | some n ↦ handle_disk_removed host.machine (host.device_of n) s
  ]

  -- `mount`, `unmount` and `format` of the service, with the volume that `findVolume` gives.
  unfoldable pub mount_change : ℕ → ℕ → Volume → Run Event Volume
  mount_change flags user v =
      let flagged = (set_mount_flags flags v).0 in
      let owned = (set_mount_user_id user flagged).0 in
      of_volume (some (VolumeBase.mount host.machine.methods owned))

  unfoldable pub unmount_change : Volume → Run Event Volume
  unmount_change v = of_volume (VolumeBase.unmount host.machine.methods v)

  unfoldable pub format_change : Text → Volume → Run Event Volume
  format_change fs_type v = of_volume (VolumeBase.format host.machine.methods fs_type v)

pub data Request : Type 0 where
  disk_source : DiskSource → Request
  block : BlockEvent → Request
  user_added : ℕ → ℕ → ℕ → Request
  user_removed user_started user_stopped : ℕ → Request
  keyguard : Bool → Request
  starting resetting shutting_down unmounting_all : Request
  obb_created obb_destroyed : Text → Request
  stub_created : ℕ → Request
  stub_destroyed : Text → Request
  mounting : Text → ℕ → ℕ → Request
  unmounting : Text → Request
  formatting : Text → Text → Request

abbrev pub keep_state : Run Event (State × Bool) → Run Event State
keep_state run = do (s, done) ← run; return s

unfoldable pub apply : Host → Request → State → Run Event State
unfolding handle_block_event on_user_added on_user_removed on_user_started on_user_stopped
    on_secure_keyguard_state_changed start reset shutdown unmount_all_volumes create_obb destroy_obb
    create_stub_volume destroy_stub_volume on_volume mount_change unmount_change format_change
apply host (disk_source source) s =
    return (record s { disk_sources = s.disk_sources ++ source ∷ [] })
apply host (block evt) s = handle_block_event host.machine evt s
apply host (user_added user serial shares) s = return (on_user_added user serial shares s)
apply host (user_removed user) s = on_user_removed host user s
apply host (user_started user) s = on_user_started host user s
apply host (user_stopped user) s = on_user_stopped host user s
apply host (keyguard showing) s = on_secure_keyguard_state_changed host showing s
apply host starting s = start host s
apply host resetting s = reset host s
apply host shutting_down s = shutdown host s
apply host unmounting_all s = unmount_all_volumes host s
apply host (obb_created source) s = keep_state (create_obb host source s)
apply host (obb_destroyed id) s = destroy_obb host id s
apply host (stub_created flags) s = create_stub_volume host flags s
apply host (stub_destroyed id) s = destroy_stub_volume host id s
apply host (mounting id flags user) s = on_volume id (mount_change host flags user) s
apply host (unmounting id) s = on_volume id (unmount_change host) s
apply host (formatting id fs_type) s = on_volume id (format_change host fs_type) s

unfoldable pub run : Host → List Request → State → Run Event State
unfolding apply
run host [] s = return s
run host (r ∷ rs) s = do s' ← apply host r s; run host rs s'
