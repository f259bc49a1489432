-- ===== src/Disk.antt =====
-- model/Disk.h and model/Disk.cpp: a disk, the volumes on it and its partition table. What the code
-- asks of the device, of sgdisk and of android-base is the record `Machine`. A run gives what the
-- listener hears and the commands that are executed, in order, or a CHECK aborts it.
pub mod Outside
pub mod Metadata
pub mod Checks
pub mod Safety
pub mod Life
pub mod Partitions
pub mod Partitioning
use android_system_vold.Common.{
  ℕ, ◌+◌, ◌-◌, ◌^◌, Option, none, some, List, [], ◌∷◌, ◌++◌, Bool, true, false, not, ◌&&◌, ◌||◌,
  if◌then◌else◌, Text, codes, to_string, text_eq, ◌==◌, map,
}
use android_system_vold.Common.Aborts.{Run, return, tell, check, ◌>>=◌, ◌>>◌}
use android_system_vold.Common.{ℤ}
use Prim.Native.Nat.{bit_and}
use android_system_vold.Hex.{normalize_hex}
use android_system_vold.VolumeBase.{
  Volume, Volumes, volume, nil, cons, Kind, public, private, stub, Info, info, stacked, new_volume,
  okay, find_volume, may_drop, may_clear,
}
use android_system_vold.VolumeBase
use Outside.{
  Device, Machine, Event, volume_event, disk_created, disk_destroyed, disk_scanned,
  disk_metadata_changed,
}

-- `mSize` is a uint64_t that is set to -1.
abbrev pub unknown_size : ℕ
unknown_size = 2 ^ 64 - 1

pub record Disk : Type 0 where
  pub id : Text
  pub event_path : Text
  pub sys_path : Text
  pub dev_path : Text
  pub device : Device
  pub size : ℕ
  pub label : Text
  pub volumes : Volumes
  pub nickname : Text
  pub flags : ℕ
  pub created : Bool
  pub just_partitioned : Bool
  pub skip_change : Bool

abbrev pub device_text : Device → Text
device_text device = to_string device.major ++ codes "," ++ to_string device.minor

-- The constructor.
unfoldable pub new_disk : Text → Device → Text → ℕ → Disk
new_disk event_path device nickname flags = record {
  id = codes "disk:" ++ device_text device;
  event_path = event_path;
  sys_path = codes "/sys/" ++ event_path;
  dev_path = codes "/dev/block/vold/disk:" ++ device_text device;
  device = device;
  size = unknown_size;
  label = [];
  volumes = nil;
  nickname = nickname;
  flags = flags;
  created = false;
  just_partitioned = false;
  skip_change = false;
}

unfoldable pub is_stub : Disk → Bool
is_stub d = not (bit_and d.flags 32 == 0) || not (bit_and d.flags 64 == 0)

-- `Disk::findVolume`: each volume, and the volumes stacked on it, before the next.
unfoldable pub find_on_disk : Volumes → Text → Option Volume
unfolding find_volume
find_on_disk nil id = none
find_on_disk (cons v vs) id =
    let rest = find_on_disk vs id in
    if text_eq (info v).id id
    then some v
    else (elim (find_volume (stacked v) id) [ some w ↦ some w | none ↦ rest ])

abbrev pub same_kind : Kind → Kind → Bool
same_kind VolumeBase.public VolumeBase.public = true
same_kind VolumeBase.private VolumeBase.private = true
same_kind VolumeBase.emulated VolumeBase.emulated = true
same_kind VolumeBase.asec VolumeBase.asec = true
same_kind VolumeBase.obb VolumeBase.obb = true
same_kind VolumeBase.stub VolumeBase.stub = true
same_kind _ _ = false

unfoldable pub list_volumes : Kind → Volumes → List Text
list_volumes kind nil = []
list_volumes kind (cons v vs) =
    if same_kind (info v).kind kind
    then (info v).id ∷ list_volumes kind vs
    else list_volumes kind vs

-- The result of an operation of a volume whose status the disk does not read.
abbrev pub of_volume : Option (Volume × ℤ × List VolumeBase.Event) → Run Event Volume
of_volume none = none
of_volume (some (v, status, events)) = some (v, map volume_event events)

abbrev pub listen : Machine → Event → List Event
listen machine e = if machine.methods.listening then e ∷ [] else []

-- A volume is destroyed, and then dropped: `~VolumeBase`.
abbrev pub destroy_and_drop : Machine → Volume → Run Event (Unit {0})
destroy_and_drop machine v = do
  gone ← of_volume (VolumeBase.destroy machine.methods v)
  check (may_drop gone)

-- `~Disk` and the destructors of its volumes: the CHECKs that none is created.
unfoldable pub may_erase : Disk → Bool
unfolding may_clear
may_erase d = not d.created && may_clear d.volumes

-- The loops over the volumes of the disk.
unfoldable pub destroy_volumes : Machine → Volumes → Run Event (Unit {0})
destroy_volumes machine nil = return tt
destroy_volumes machine (cons v vs) = do destroy_and_drop machine v; destroy_volumes machine vs

unfoldable pub destroy_all_volumes : Machine → Disk → Run Event Disk
unfolding destroy_volumes
destroy_all_volumes machine d = do
  destroy_volumes machine d.volumes
  return (record d { volumes = nil })

unfoldable pub unmount_volumes : Machine → Volumes → Run Event Volumes
unmount_volumes machine nil = return nil
unmount_volumes machine (cons v vs) = do
  v' ← of_volume (VolumeBase.unmount machine.methods v)
  vs' ← unmount_volumes machine vs
  return (cons v' vs')

unfoldable pub unmount_all : Machine → Disk → Run Event Disk
unfolding unmount_volumes
unmount_all machine d = do
  volumes ← unmount_volumes machine d.volumes
  return (record d { volumes = volumes })
