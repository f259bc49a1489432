-- ===== src/Checkpoint/Commands/Device.antt =====
-- What Checkpoint.cpp asks of the device, and what it does to it: the parameters of its commands.
use android_system_vold.Common.{ℕ, Option, List, Bool, Text, ℤ}

pub data Errno : Type 0 where
  einval enotsup eagain : Errno
  last_errno : Errno

pub data Status : Type 0 where
  ok : Status
  error : Errno → Text → Status

-- The fields of an entry of the fstab that the code reads.
pub record FstabEntry : Type 0 where
  pub blk_device : Text
  pub mount_point : Text
  pub fs_type : Text
  pub fs_options : Text
  pub flags : ℕ
  pub checkpoint_blk : Bool
  pub checkpoint_fs : Bool

-- The boot control service, as it answers.
pub record BootControl : Type 0 where
  pub current_suffix : Text
  pub slot_marked_successful : Option Bool
  pub mark_boot_error : Option Text

pub record System : Type 0 where
  pub fstab_default : List FstabEntry
  -- `GetEntryForMountPoint` in the default fstab.
  pub fstab_entry : Text → Option FstabEntry
  -- `ReadFstabFromFile("/proc/mounts")`.
  pub mounts : Option (List FstabEntry)
  -- `BootControlClient::WaitForService`.
  pub boot : Option BootControl
  -- The property persist.vold.dont_commit_checkpoint is 1.
  pub dont_commit : Bool
  -- Whether the metadata file can be written, read and removed, and what is said if not.
  pub write_ok : Bool
  pub read_ok : Bool
  pub remove_ok : Bool
  pub remove_error : Text
  -- Whether a mount can be remounted; whether it can be opened and trimmed; whether the bow
  -- device of a block device is found and its state file is written.
  pub remount_ok : Text → Bool
  pub trim_ok : Text → Bool
  pub bow_ok : Text → Bool
  -- `android::base::ParseInt`.
  pub parse_int : Text → Option ℤ

pub data Action : Type 0 where
  mark_boot_successful reset_warm_reset : Action
  remount : Text → Text → ℕ → Text → Action
  set_bow_state : Text → Text → Action
  mark_committed remove_metadata start_committed_work : Action
  start_health_daemon : Text → Text → Bool → Action
  reboot : Text → Action
