-- ===== src/Disk/Metadata.antt =====
-- model/Disk.cpp: `readMetadata` and `getMaxMinors`.
use android_system_vold.Common.{
  ℕ, Option, none, some, [], ◌++◌, Bool, ◌&&◌, ◌||◌, if◌then◌else◌, Text, codes, contains, leb,
  ◌==◌, ℤ, pos, negsuc,
}
use android_system_vold.Common.Aborts.{Run, return, tell, ◌>>◌}
use android_system_vold.VolumeBase.{okay}
use android_system_vold.Disk.Outside.{Machine, Event, disk_metadata_changed}
use android_system_vold.Disk.{Disk, unknown_size, listen}

abbrev pub enotsup : ℤ
enotsup = negsuc 94

abbrev pub einval : ℤ
einval = negsuc 21

abbrev pub eio : ℤ
eio = negsuc 4

-- kMajorBlockScsiA to kMajorBlockScsiP.
abbrev pub is_scsi : ℕ → Bool
is_scsi n = n == 8 || (leb 65 n && leb n 71) || (leb 128 n && leb n 135)

unfoldable pub is_nvme : ℕ → Text → Bool
is_nvme n sys_path = contains sys_path (codes "nvme") && leb 234 n && leb n 512

-- What `readMetadata` makes the label, or the status with which it returns.
pub data Label : Type 0 where
  labelled : Text → Label
  failed : ℤ → Label

abbrev pub manufacturer : ℤ → Text
manufacturer (negsuc n) = []
manufacturer (pos n) =
    if n == 3
    then codes "SanDisk"
    else (if n == 27
        then codes "Samsung"
        else (if n == 40 then codes "Lexar" else (if n == 116 then codes "Transcend" else [])))

module _ (machine : Machine) where
  unfoldable pub label_from : Text → (Text → Label) → Label
  label_from path label = elim (machine.read_file path) [
    | none ↦ failed machine.failed_read
    | some content ↦ label content
  ]

  unfoldable pub mmc_label : Text → Label
  mmc_label content = elim (machine.parse_int (machine.trim content)) [
    | none ↦ failed einval
    | some manfid ↦ labelled (manufacturer manfid)
  ]

  unfoldable pub read_label : Disk → Label
  unfolding label_from mmc_label is_nvme
  read_label d =
      let major = d.device.major in
      if major == 7
      then labelled (codes "Virtual")
      else (if is_scsi major
          then label_from (d.sys_path ++ codes "/device/vendor")
              (λ content. labelled (machine.trim content))
          else (if major == 179
              then label_from (d.sys_path ++ codes "/device/manfid") mmc_label
              else (if machine.is_virtio major
                  then labelled (codes "Virtual")
                  else (if is_nvme major d.sys_path
                      then label_from (d.sys_path ++ codes "/device/model") labelled
                      else failed enotsup))))

  abbrev pub read_size : Option ℕ → ℕ
  read_size none = unknown_size
  read_size (some size) = size

  -- The end of `readMetadata`: a failure returns before the listener is told.
  unfoldable pub set_label : Label → Disk → Run Event (Disk × ℤ)
  set_label (failed status) d = return (d, status)
  set_label (labelled label) d = do
    tell (listen machine (disk_metadata_changed d.id d.size label d.sys_path))
    return (record d { label = label }, okay)

  abbrev pub cleared : Disk → Disk
  cleared d = record d { size = read_size (machine.block_dev_size d.dev_path); label = [] }

  unfoldable pub read_metadata : Disk → Run Event (Disk × ℤ)
  unfolding read_label set_label
  read_metadata d =
      if d.skip_change then return (d, okay) else set_label (read_label (cleared d)) (cleared d)

  -- The number in a file of sysfs; `std::stoi` throws on a text without one.
  unfoldable pub minors_from : Option Text → Run Event ℤ
  minors_from none = return machine.failed_read
  minors_from (some content) = elim (machine.stoi content) [ none ↦ none | some n ↦ return n ]

  abbrev or_else : Option Text → Option Text → Option Text
  or_else none other = other
  or_else (some content) other = some content

  unfoldable pub get_max_minors : Disk → Run Event ℤ
  unfolding minors_from is_nvme
  get_max_minors d =
      let major = d.device.major in
      if major == 7
      then minors_from (machine.read_file (codes "/sys/module/loop/parameters/max_part"))
      else (if is_scsi major
          then return (pos 15)
          else (if major == 179
              then minors_from (
                  or_else
                    (machine.read_file
                      (codes "/sys/module/mmc_block/parameters/mmcblk.perdev_minors"))
                    (machine.read_file (codes "/sys/module/mmcblk/parameters/perdev_minors")))
              else (if machine.is_virtio major
                  then return (pos 15)
                  else (if is_nvme major d.sys_path then return (pos 127) else return enotsup))))
