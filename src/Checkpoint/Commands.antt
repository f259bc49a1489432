-- ===== src/Checkpoint/Commands.antt =====
-- Checkpoint.cpp: the commands that start, commit, abort and roll back a checkpoint. The file
-- /metadata/vold/checkpoint and the three global flags are the state; what the code asks of the
-- device and of other services is the record `System`, and what it does to them is a list of
-- actions, in order.
pub mod Device
pub mod Retry
pub mod Commit
pub mod Sticky
use android_system_vold.Common.{
  ℕ, zero, suc, ◌+◌, ◌-◌, ◌≡◌, Option, none, some, List, [], ◌∷◌, ◌++◌, Bool, true, false, not,
  ◌&&◌, ◌||◌, if◌then◌else◌, Text, codes, text_eq, before_first, to_string, take, drop, ℤ, pos,
  negsuc, is_empty, ltb,
}
use Device.{
  Status, ok, error, Errno, einval, enotsup, last_errno, FstabEntry, Action, System, BootControl,
  set_bow_state, mark_boot_successful, reset_warm_reset, remount, mark_committed, remove_metadata,
  start_committed_work, start_health_daemon, reboot,
}

pub record State : Type 0 where
  pub metadata : Option Text
  pub is_checkpointing : Bool
  pub is_bow : Bool
  pub needs_checkpoint_was_called : Bool

abbrev pub initial : State
initial = record {
  metadata = none;
  is_checkpointing = false;
  is_bow = true;
  needs_checkpoint_was_called = false;
}

abbrev pub zero_text : Text
zero_text = codes "0"

unfoldable pub supports_checkpoint : List FstabEntry → Bool
supports_checkpoint [] = false
supports_checkpoint (e ∷ es) = e.checkpoint_blk || e.checkpoint_fs || supports_checkpoint es

unfoldable pub supports_block_checkpoint : List FstabEntry → Bool
supports_block_checkpoint [] = false
supports_block_checkpoint (e ∷ es) = e.checkpoint_blk || supports_block_checkpoint es

unfoldable pub supports_file_checkpoint : List FstabEntry → Bool
supports_file_checkpoint [] = false
supports_file_checkpoint (e ∷ es) = e.checkpoint_fs || supports_file_checkpoint es

-- The suffix that `start_checkpoint` adds when there is no retry counter.
unfoldable pub slot_suffix : Option BootControl → Text
slot_suffix none = []
slot_suffix (some control) =
    if is_empty control.current_suffix then [] else codes " " ++ control.current_suffix

-- What `start_checkpoint` writes, or none where the count is refused. `retry + 1` is at most
-- INT_MAX.
unfoldable pub checkpoint_content : Option BootControl → ℤ → Option Text
unfolding slot_suffix
checkpoint_content boot (pos n) = some (to_string (n + 1))
checkpoint_content boot (negsuc zero) = some (to_string 0 ++ slot_suffix boot)
checkpoint_content boot (negsuc (suc n)) = none

-- `WriteStringToFile` to the metadata file.
unfoldable pub write_metadata : System → Text → State → State × Bool
write_metadata sys content s =
    if sys.write_ok then (record s { metadata = some content }, true) else (s, false)

-- `ReadFileToString` of the metadata file.
unfoldable pub read_metadata : System → State → Option Text
read_metadata sys s = if sys.read_ok then s.metadata else none

unfoldable pub start_checkpoint : System → ℤ → State → State × Status
unfolding checkpoint_content write_metadata supports_checkpoint
start_checkpoint sys retry s =
    if not (supports_checkpoint sys.fstab_default)
    then (s, error enotsup (codes "Checkpoints not supported"))
    else (elim (checkpoint_content sys.boot retry) [
      | none ↦ (s, error einval (codes "Retry count must be more than -1"))
      | some content ↦
          let (s', written) = write_metadata sys content s in
          if written
          then (s', ok)
          else (s', error last_errno (codes "Failed to write checkpoint file"))
    ])

-- What one mounted file system needs for the commit; the error, if it fails.
unfoldable pub commit_mount : System → Bool → FstabEntry → Option Text × List Action
commit_mount sys is_bow mount_rec = elim (sys.fstab_entry mount_rec.mount_point) [
  | none ↦ (none, [])
  | some fstab_rec ↦
      if fstab_rec.checkpoint_fs
      then (if text_eq fstab_rec.fs_type (codes "f2fs")
          then (
            if sys.remount_ok mount_rec.mount_point then none else some (codes "Failed to remount"),
            remount mount_rec.blk_device mount_rec.mount_point fstab_rec.flags
                  (mount_rec.fs_options ++ codes ",checkpoint=enable")
                ∷ [],
          )
          else (none, []))
      else (if fstab_rec.checkpoint_blk && is_bow
          then (
            if sys.bow_ok mount_rec.blk_device
                then none
                else some (codes "Failed to set bow state"),
            set_bow_state mount_rec.blk_device (codes "2") ∷ [],
          )
          else (none, []))
]

-- The walk of `commit_changes` over the mounted file systems, up to the first error.
unfoldable pub commit_mounts : System → Bool → List FstabEntry → Option Text × List Action
unfolding commit_mount
commit_mounts sys is_bow [] = (none, [])
commit_mounts sys is_bow (mount_rec ∷ mounts) =
    let (failed, done) = commit_mount sys is_bow mount_rec in
    let (later_failed, later_done) = commit_mounts sys is_bow mounts in
    elim failed [ some message ↦ (some message, done) | none ↦ (later_failed, done ++ later_done) ]

-- From the point where the boot slot is marked: the walk and the end of `commit_changes`.
unfoldable pub commit_file_systems : System → List Action → State → State × Status × List Action
unfolding commit_mounts
commit_file_systems sys marked s = elim sys.mounts [
  | none ↦ (s, error einval (codes "Failed to get /proc/mounts"), marked)
  | some mounts ↦
      let (failed, done) = commit_mounts sys s.is_bow mounts in
      elim failed [
        | some message ↦ (s, error einval message, marked ++ done)
        | none ↦
            let committed = record s { is_checkpointing = false } in
            if sys.remove_ok
            then (
              record committed { metadata = none },
              ok,
              marked ++ done ++ mark_committed ∷ remove_metadata ∷ start_committed_work ∷ [],
            )
            else (
              committed,
              error last_errno sys.remove_error,
              marked ++ done ++ mark_committed ∷ remove_metadata ∷ [],
            )
      ]
]

unfoldable pub commit_changes : System → State → State × Status × List Action
unfolding commit_file_systems
commit_changes sys s =
    if not s.is_checkpointing
    then (s, ok, [])
    else (if sys.dont_commit then (s, ok, []) else (elim sys.boot [
      | none ↦ commit_file_systems sys [] s
      | some control ↦ elim control.mark_boot_error [
        | some message ↦ (
          s,
          error einval (codes "Error marking booted successfully: " ++ message),
          mark_boot_successful ∷ [],
        )
        | none ↦ commit_file_systems sys (mark_boot_successful ∷ reset_warm_reset ∷ []) s
      ]
    ]))

-- The retry count is what stands before the first space.
unfoldable pub retry_count : System → Text → Option ℤ
retry_count sys content = sys.parse_int (before_first 32 content)

unfoldable pub abort_metadata_file : System → State → State
unfolding write_metadata read_metadata retry_count
abort_metadata_file sys s = elim s.metadata [
  | none ↦ s
  | some _ ↦ elim (read_metadata sys s) [
    | none ↦ s
    | some old_content ↦ elim (retry_count sys old_content) [
      | some (pos (suc n)) ↦ (write_metadata sys zero_text s).0
      | _ ↦ s
    ]
  ]
]

-- Whether such a content of the metadata file calls for a rollback.
unfoldable pub content_needs_rollback : Option BootControl → Text → Bool
content_needs_rollback boot content =
    text_eq content zero_text
    || (text_eq (take 3 content) (codes "-1 ") && (elim boot [
      | none ↦ false
      | some control ↦ text_eq (drop 3 content) control.current_suffix
    ]))

unfoldable pub needs_rollback : System → State → Bool
unfolding read_metadata content_needs_rollback
needs_rollback sys s = elim (read_metadata sys s) [
  | none ↦ false
  | some content ↦ content_needs_rollback sys.boot content
]

-- Whether the boot control service says that the current slot did not boot successfully yet.
unfoldable pub slot_unsuccessful : Option BootControl → Bool
slot_unsuccessful none = false
slot_unsuccessful (some control) = elim control.slot_marked_successful [
  | none ↦ false
  | some marked ↦ not marked
]

unfoldable pub needs_checkpoint : System → State → State × Bool
unfolding slot_unsuccessful read_metadata
needs_checkpoint sys s =
    if s.needs_checkpoint_was_called
    then (s, s.is_checkpointing)
    else (let called = record s { needs_checkpoint_was_called = true } in
        if s.is_checkpointing
        then (called, true)
        else (if slot_unsuccessful sys.boot
            then (record called { is_checkpointing = true }, true)
            else (elim (read_metadata sys s) [
              | none ↦ (called, false)
              | some content ↦
                  let ret = not (text_eq content zero_text) in
                  (record called { is_checkpointing = ret }, ret)
            ])))

unfoldable pub abort_changes : System → Text → Bool → State → State × List Action
unfolding needs_checkpoint abort_metadata_file
abort_changes sys message retry s =
    let (s', needed) = needs_checkpoint sys s in
    if not needed
    then (s', [])
    else (if retry then s' else abort_metadata_file sys s', reboot message ∷ [])

unfoldable pub mark_boot_attempt : System → State → State × Status
unfolding write_metadata read_metadata retry_count
mark_boot_attempt sys s = elim s.metadata [
  | none ↦ (s, ok)
  | some _ ↦ elim (read_metadata sys s) [
    | none ↦ (s, error last_errno (codes "Failed to read checkpoint file"))
    | some old_content ↦ elim (retry_count sys old_content) [
      | none ↦ (s, error einval (codes "Could not parse retry count"))
      | some (pos (suc n)) ↦
          let (s', written) = write_metadata sys (to_string n) s in
          if written
          then (s', ok)
          else (s', error last_errno (codes "Could not write checkpoint file"))
      | some _ ↦ (s, ok)
    ]
  ]
]

unfoldable pub reset_checkpoint : State → State
reset_checkpoint s = record s { needs_checkpoint_was_called = false }

-- `cp_prepareCheckpoint` for one mounted file system: whether bow is still in use, and what is
-- done. A file system that cannot be opened or trimmed is passed over.
unfoldable pub prepare_mount : System → Bool → FstabEntry → Bool × List Action
prepare_mount sys is_bow mount_rec = elim (sys.fstab_entry mount_rec.mount_point) [
  | none ↦ (is_bow, [])
  | some fstab_rec ↦
      let daemon =
        start_health_daemon mount_rec.mount_point mount_rec.blk_device fstab_rec.checkpoint_fs in
      if fstab_rec.checkpoint_blk
      then (if sys.trim_ok mount_rec.mount_point
          then (
            is_bow && sys.bow_ok mount_rec.blk_device,
            set_bow_state mount_rec.blk_device (codes "1") ∷ daemon ∷ [],
          )
          else (is_bow, []))
      else (if fstab_rec.checkpoint_fs then (is_bow, daemon ∷ []) else (is_bow, []))
]

unfoldable pub prepare_mounts : System → Bool → List FstabEntry → Bool × List Action
unfolding prepare_mount
prepare_mounts sys is_bow [] = (is_bow, [])
prepare_mounts sys is_bow (mount_rec ∷ mounts) =
    let (still_bow, done) = prepare_mount sys is_bow mount_rec in
    let (end_bow, later_done) = prepare_mounts sys still_bow mounts in (end_bow, done ++ later_done)

unfoldable pub prepare_checkpoint : System → State → State × Status × List Action
unfolding prepare_mounts
prepare_checkpoint sys s = if not s.is_checkpointing then (s, ok, []) else (elim sys.mounts [
  | none ↦ (s, error einval (codes "Failed to get /proc/mounts"), [])
  | some mounts ↦
      let (is_bow, done) = prepare_mounts sys s.is_bow mounts in
      (record s { is_bow = is_bow }, ok, done)
])
