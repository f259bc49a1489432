-- ===== src/Disk/Outside.antt =====
-- What model/Disk.cpp asks of the device, of sgdisk and of android-base, and what it tells.
use android_system_vold.Common.{ℕ, Option, List, Bool, Text, ℤ}
use android_system_vold.VolumeBase.{Methods}
use android_system_vold.VolumeBase

-- A dev_t.
pub record Device : Type 0 where
  pub major : ℕ
  pub minor : ℕ

pub data Event : Type 0 where
  volume_event : VolumeBase.Event → Event
  disk_created : Text → ℕ → Event
  disk_metadata_changed : Text → ℕ → Text → Text → Event
  disk_scanned disk_destroyed : Text → Event
  executed : List Text → Event

pub record Machine : Type 0 where
  -- The virtual methods of the volumes' classes, and whether a listener is registered.
  pub methods : Methods
  -- `GetBlockDevSize`, `ReadFileToString`, `WriteStringToFile` and the status `-errno` after a
  -- failed read.
  pub block_dev_size : Text → Option ℕ
  pub read_file : Text → Option Text
  pub write_file : Text → Text → Bool
  pub failed_read : ℤ
  -- `Trim`, `ParseInt`, `ParseInt` with its bounds, `Split` at the separators of sgdisk,
  -- `EqualsIgnoreCase`; `std::stoi`, which gives none where it throws, and the words that `strtok`
  -- finds.
  pub trim : Text → Text
  pub parse_int : Text → Option ℤ
  pub parse_bounded : Text → ℕ → ℕ → Option ℕ
  pub split : Text → List Text
  pub equals_ignore_case : Text → Text → Bool
  pub stoi : Text → Option ℤ
  pub words : Text → List Text
  -- `IsVirtioBlkDevice`, and whether `ReadMetadataUntrusted` identifies the file system.
  pub is_virtio : ℕ → Bool
  pub identifies : Text → Bool
  -- `ForkExecvp`: the status and the lines of the output.
  pub execute : List Text → ℤ × List Text
  -- `GenerateRandomUuid` and `generate_volume_key`.
  pub random_uuid : Option Text
  pub volume_key : Option Text
