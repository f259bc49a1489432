-- ===== src/Disk/Partitions.antt =====
-- model/Disk.cpp: `readPartitions` and the volumes that it makes, and `create` and `destroy`.
use android_system_vold.Common.{
  ℕ, ◌+◌, ◌&&◌, Option, none, some, List, [], ◌∷◌, ◌++◌, Bool, true, false, not, ◌||◌,
  if◌then◌else◌, Text, codes, text_eq, ◌==◌, ℤ, pos, negsuc,
}
use android_system_vold.Common.Aborts.{Run, return, tell, check, ◌>>=◌, ◌>>◌}
use android_system_vold.Hex.{normalize_hex}
use android_system_vold.VolumeBase.{
  Volume, Volumes, volume, nil, cons, Kind, info, new_volume, okay, add_volume, is_okay,
}
use android_system_vold.VolumeBase
use android_system_vold.Disk.Outside.{
  Device, Machine, Event, disk_created, disk_destroyed, disk_scanned, disk_metadata_changed,
}
use android_system_vold.Disk.{Disk, listen, of_volume, device_text, destroy_all_volumes, is_stub}
use android_system_vold.Disk.Metadata.{read_metadata, get_max_minors, enotsup}

abbrev pub build_key_path : Text → Text
build_key_path part_guid = codes "/data/misc/vold/expand_" ++ part_guid ++ codes ".key"

abbrev pub sgdisk : Text
sgdisk = codes "/system/bin/sgdisk"

abbrev pub basic_data : Text
basic_data = codes "EBD0A0A2-B9E5-4433-87C0-68B6B72699C7"

abbrev pub linux_filesystem : Text
linux_filesystem = codes "0FC63DAF-8483-4772-8E79-3D69D8477DE4"

abbrev pub android_expand : Text
android_expand = codes "193D1EA4-B3CA-11E4-B075-10604B889DCF"

pub data Table : Type 0 where
  unknown mbr gpt : Table

-- The variables of the loop over the lines of sgdisk, with the disk.
pub record Scan : Type 0 where
  pub table : Table
  pub found_parts : Bool
  pub disk : Disk

abbrev pub is_public_type : ℤ → Bool
is_public_type (pos n) = n == 6 || n == 7 || n == 11 || n == 12 || n == 14 || n == 131
is_public_type (negsuc n) = false

-- The constructors of PublicVolume and PrivateVolume.
abbrev pub named_volume : Kind → Text → Volume
named_volume kind id = (VolumeBase.set_id id (new_volume kind)).0

module _ (machine : Machine) where
  -- The silent formatting of a volume of a disk that was just partitioned.
  unfoldable pub format_if_new : Disk → Volume → Run Event Volume
  format_if_new d v =
      if d.just_partitioned
      then (do
        made ← of_volume (VolumeBase.create machine.methods (VolumeBase.set_silent true v).0)
        formatted ← of_volume (VolumeBase.format machine.methods (codes "auto") made)
        gone ← of_volume (VolumeBase.destroy machine.methods formatted)
        return (VolumeBase.set_silent false gone).0)
      else return v

  unfoldable pub create_public_volume : Device → Disk → Run Event Disk
  unfolding format_if_new
  create_public_volume device d = do
    v ← format_if_new d (named_volume VolumeBase.public (codes "public:" ++ device_text device))
    v' ← of_volume (VolumeBase.create machine.methods (VolumeBase.set_disk_id d.id v).0)
    return (record d { volumes = add_volume d.volumes v' })

  -- The key of the partition, if there is one.
  unfoldable pub load_key : Text → Option Text
  unfolding normalize_hex
  load_key part_guid = elim (normalize_hex part_guid) [
    | none ↦ none
    | some guid ↦ machine.read_file (build_key_path guid)
  ]

  unfoldable pub create_private_volume : Device → Text → Disk → Run Event Disk
  unfolding format_if_new load_key
  create_private_volume device part_guid d = elim (load_key part_guid) [
    | none ↦ return d
    | some key ↦ do
      v ← format_if_new d (named_volume VolumeBase.private (codes "private:" ++ device_text device))
      let owned = (VolumeBase.set_part_guid part_guid (VolumeBase.set_disk_id d.id v).0).0
      v' ← of_volume (VolumeBase.create machine.methods owned)
      return (record d { volumes = add_volume d.volumes v' })
  ]

  unfoldable pub scan_disk : List Text → Scan → Scan
  scan_disk [] s = s
  scan_disk (kind ∷ rest) s =
      if text_eq kind (codes "mbr")
      then record s { table = mbr }
      else (if text_eq kind (codes "gpt") then record s { table = gpt } else s)

  abbrev pub with_disk : Scan → Run Event Disk → Run Event Scan
  with_disk s run = do d ← run; return (record s { disk = d })

  unfoldable pub scan_mbr : Device → List Text → Scan → Run Event Scan
  unfolding create_public_volume
  scan_mbr device [] s = return s
  scan_mbr device (kind ∷ rest) s = elim (machine.parse_int (codes "0x" ++ kind)) [
    | none ↦ return s
    | some n ↦
        if is_public_type n then with_disk s (create_public_volume device s.disk) else return s
  ]

  unfoldable pub scan_gpt : Device → List Text → Scan → Run Event Scan
  unfolding create_public_volume create_private_volume
  scan_gpt device (type_guid ∷ part_guid ∷ rest) s =
      if machine.equals_ignore_case type_guid basic_data
        || machine.equals_ignore_case type_guid linux_filesystem
      then with_disk s (create_public_volume device s.disk)
      else (if machine.equals_ignore_case type_guid android_expand
          then with_disk s (create_private_volume device part_guid s.disk)
          else return s)
  scan_gpt device _ s = return s

  unfoldable pub scan_by_table : Table → Device → List Text → Scan → Run Event Scan
  unfolding scan_mbr scan_gpt
  scan_by_table unknown device rest s = return s
  scan_by_table mbr device rest s = scan_mbr device rest s
  scan_by_table gpt device rest s = scan_gpt device rest s

  unfoldable pub scan_part : ℕ → List Text → Scan → Run Event Scan
  unfolding scan_by_table
  scan_part max_minors [] s = return s
  scan_part max_minors (number ∷ rest) s = elim (machine.parse_bounded number 1 max_minors) [
    | none ↦ return s
    | some i ↦
        let device = record s.disk.device { minor = s.disk.device.minor + i } in
        scan_by_table s.table device rest s
  ]

  unfoldable pub scan_line : ℕ → List Text → Scan → Run Event Scan
  unfolding scan_disk scan_part
  scan_line max_minors [] s = return s
  scan_line max_minors (word ∷ rest) s =
      if text_eq word (codes "DISK")
      then return (scan_disk rest s)
      else (if text_eq word (codes "PART")
          then scan_part max_minors rest (record s { found_parts = true })
          else return s)

  unfoldable pub scan_lines : ℕ → List Text → Scan → Run Event Scan
  unfolding scan_line
  scan_lines max_minors [] s = return s
  scan_lines max_minors (line ∷ lines) s = do
    s' ← scan_line max_minors (machine.split line) s
    scan_lines max_minors lines s'

  abbrev pub is_unknown : Table → Bool
  is_unknown unknown = true
  is_unknown _ = false

  -- The entire device as a partition, when no partition was found.
  unfoldable pub try_entire_device : Scan → Run Event Disk
  unfolding create_public_volume
  try_entire_device s =
      if (is_unknown s.table || not s.found_parts) && machine.identifies s.disk.dev_path
      then create_public_volume s.disk.device s.disk
      else return s.disk

  abbrev pub dump : Disk → List Text
  dump d = sgdisk ∷ codes "--android-dump" ∷ d.dev_path ∷ []

  -- `readPartitions` after the volumes of before are destroyed.
  unfoldable pub scan_partitions : ℕ → Disk → Run Event (Disk × ℤ)
  unfolding scan_lines try_entire_device
  scan_partitions max_minors d =
      let (res, output) = machine.execute (dump d) in
      if is_okay res
      then (do
        s ← scan_lines max_minors output (record { table = unknown; found_parts = false; disk = d })
        d' ← try_entire_device s
        tell (listen machine (disk_scanned d'.id))
        return (record d' { just_partitioned = false }, okay))
      else (do
        tell (listen machine (disk_scanned d.id))
        return (record d { just_partitioned = false }, res))

  -- `readPartitions`, when `getMaxMinors` gives this number.
  unfoldable pub read_partitions_up_to : ℤ → Disk → Run Event (Disk × ℤ)
  unfolding destroy_all_volumes scan_partitions
  read_partitions_up_to (negsuc n) d = return (d, enotsup)
  read_partitions_up_to (pos max_minors) d =
      if d.skip_change
      then return (record d { skip_change = false }, okay)
      else (do d' ← destroy_all_volumes machine d; scan_partitions max_minors d')

  unfoldable pub read_partitions : Disk → Run Event (Disk × ℤ)
  unfolding get_max_minors read_partitions_up_to
  read_partitions d = do max ← get_max_minors machine d; read_partitions_up_to max d

  -- The one volume of a stub disk.
  unfoldable pub create_only : Volumes → Disk → Run Event Disk
  create_only nil d = none
  create_only (cons v (cons w ws)) d = none
  create_only (cons v nil) d = do
    tell (listen machine (disk_metadata_changed d.id d.size d.label d.sys_path))
    tell (listen machine (disk_scanned d.id))
    v' ← of_volume (VolumeBase.create machine.methods (VolumeBase.set_disk_id d.id v).0)
    return (record d { volumes = cons v' nil })

  unfoldable pub create_stub_volume : Disk → Run Event Disk
  unfolding create_only
  create_stub_volume d = create_only d.volumes d

  unfoldable pub fill : Disk → Run Event Disk
  unfolding create_stub_volume read_metadata read_partitions is_stub
  fill d =
      if is_stub d
      then create_stub_volume d
      else (do (d', _) ← read_metadata machine d; (d'', _) ← read_partitions d'; return d'')

  unfoldable pub create : Disk → Run Event Disk
  unfolding fill
  create d = do
    check (not d.created)
    let made = record d { created = true }
    tell (listen machine (disk_created made.id made.flags))
    fill made

  unfoldable pub destroy : Disk → Run Event Disk
  unfolding destroy_all_volumes
  destroy d = do
    check d.created
    d' ← destroy_all_volumes machine d
    tell (listen machine (disk_destroyed d'.id))
    return (record d' { created = false })

  unfoldable pub initialize_partition : Volume → Disk → Run Event Disk
  unfolding is_stub
  initialize_partition v d = elim d.volumes [
    | cons w ws ↦ none
    | nil ↦ do check (is_stub d); return (record d { volumes = cons v nil })
  ]
