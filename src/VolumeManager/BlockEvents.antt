-- ===== src/VolumeManager/BlockEvents.antt =====
-- VolumeManager.cpp: `handleBlockEvent`, and the stale mounts of `unmountAll`.
use android_system_vold.Common.{
  ℕ, Option, none, some, List, [], ◌∷◌, ◌++◌, Bool, not, ◌&&◌, ◌||◌, if◌then◌else◌, Text, codes,
  text_eq, starts_with, ◌==◌,
}
use android_system_vold.Common.Aborts.{Run, return}
use Prim.Native.Nat.{bit_or}
use android_system_vold.Disk.{new_disk}
use android_system_vold.Disk.Outside.{Device, Machine, Event}
use android_system_vold.VolumeManager.Data.{State, DiskSource}
use android_system_vold.VolumeManager.Disks.{
  handle_disk_added, handle_disk_changed, handle_disk_removed,
}

pub data BlockAction : Type 0 where
  add change remove other : BlockAction

-- The parameters of the event that the code reads; an absent DEVPATH or DEVTYPE is empty. The device
-- is made of MAJOR and MINOR, and is none where one of them is absent or `std::stoi` throws.
pub record BlockEvent : Type 0 where
  pub action : BlockAction
  pub event_path : Text
  pub dev_type : Text
  pub device : Option Device

unfoldable pub disk_flags : Machine → DiskSource → Device → ℕ
disk_flags machine source device =
    bit_or source.flags (if device.major == 179 || machine.is_virtio device.major then 4 else 8)

-- The loop over the sources: the first that matches makes the disk.
unfoldable pub add_from_sources :
    Machine → List DiskSource → BlockEvent → Device → State → Run Event State
unfolding disk_flags
add_from_sources machine [] evt device s = return s
add_from_sources machine (source ∷ sources) evt device s =
    let later = add_from_sources machine sources evt device s in
    if source.matches evt.event_path
    then handle_disk_added machine
        (new_disk evt.event_path device source.nickname (disk_flags machine source device)) s
    else later

-- The switch of `handleBlockEvent`.
unfoldable pub handle_action : Machine → BlockAction → BlockEvent → Device → State → Run Event State
unfolding add_from_sources
handle_action machine add evt device s = add_from_sources machine s.disk_sources evt device s
handle_action machine change evt device s = handle_disk_changed machine device s
handle_action machine remove evt device s = handle_disk_removed machine device s
handle_action machine other evt device s = return s

unfoldable pub handle_block_event : Machine → BlockEvent → State → Run Event State
unfolding handle_action
handle_block_event machine evt s =
    if not (text_eq evt.dev_type (codes "disk")) then return s else (elim evt.device [
      | none ↦ none
      | some device ↦ handle_action machine evt.action evt device s
    ])

-- Whether `unmountAll` forces the unmounting of what is mounted there, in a build that is not
-- debuggable.
unfoldable pub is_stale_mount : Text → Bool
is_stale_mount test =
    (starts_with test (codes "/mnt/")
      && not (starts_with test (codes "/mnt/vendor"))
      && not (starts_with test (codes "/mnt/product"))
      && not (starts_with test (codes "/mnt/installer"))
      && not (starts_with test (codes "/mnt/androidwritable")))
    || starts_with test (codes "/storage/")

-- `push_front` of each: the last mount is first.
unfoldable pub stale_mounts : List Text → List Text
unfolding is_stale_mount
stale_mounts [] = []
stale_mounts (test ∷ mounts) =
    if is_stale_mount test then stale_mounts mounts ++ test ∷ [] else stale_mounts mounts
