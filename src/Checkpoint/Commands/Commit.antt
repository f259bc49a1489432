-- ===== src/Checkpoint/Commands/Commit.antt =====
-- When a checkpoint is committed, and what has happened by then.
use android_system_vold.Common.{
  ◌≡◌, ◌↔◌, refl, inl, inr, Option, none, some, List, [], ◌∷◌, ◌++◌, Bool, true, false, ◌||◌, Text,
  codes, text_eq, All, arith, Bool-cases, Option-cases,
}
use android_system_vold.Checkpoint.Commands.Device.{
  ok, error, einval, FstabEntry, Action, System, BootControl, mark_boot_successful,
  reset_warm_reset, mark_committed, remove_metadata, start_committed_work,
}
use android_system_vold.Checkpoint.Commands.{
  State, commit_mount, commit_mounts, commit_file_systems, commit_changes,
}

-- The file system is not one that the checkpoint covers, or its checkpoint can be given up.
abbrev pub EntryReady : System → Bool → FstabEntry → Option FstabEntry → Type 0
EntryReady sys is_bow m none = Unit {0}
EntryReady sys is_bow m (some e) =
    (e.checkpoint_fs ≡ true
      → text_eq e.fs_type (codes "f2fs") ≡ true
      → sys.remount_ok m.mount_point ≡ true)
    × (e.checkpoint_fs ≡ false
        → e.checkpoint_blk ≡ true
        → is_bow ≡ true
        → sys.bow_ok m.blk_device ≡ true)

abbrev pub MountReady : System → Bool → FstabEntry → Type 0
MountReady sys is_bow m = EntryReady sys is_bow m (sys.fstab_entry m.mount_point)

abbrev pub BootMarked : Option BootControl → Type 0
BootMarked none = Unit {0}
BootMarked (some control) = control.mark_boot_error ≡ none

commit_mount-MountReady :
    (sys : System) (is_bow : Bool) (m : FstabEntry)
    → (commit_mount sys is_bow m).0 ≡ none
    → MountReady sys is_bow m
unfolding commit_mount
commit_mount-MountReady sys is_bow m h = ground arith

MountReady-commit_mount :
    (sys : System) (is_bow : Bool) (m : FstabEntry)
    → MountReady sys is_bow m
    → (commit_mount sys is_bow m).0 ≡ none
unfolding commit_mount
MountReady-commit_mount sys is_bow m h = ground arith

commit_mounts-MountReady :
    (sys : System) (is_bow : Bool) (ms : List FstabEntry)
    → (commit_mounts sys is_bow ms).0 ≡ none
    → All (MountReady sys is_bow) ms
unfolding commit_mounts
commit_mounts-MountReady sys is_bow [] h = tt
commit_mounts-MountReady sys is_bow (m ∷ ms) h = (
  commit_mount-MountReady sys is_bow m (ground arith),
  commit_mounts-MountReady sys is_bow ms (ground arith),
)

MountReady-commit_mounts :
    (sys : System) (is_bow : Bool) (ms : List FstabEntry)
    → All (MountReady sys is_bow) ms
    → (commit_mounts sys is_bow ms).0 ≡ none
unfolding commit_mounts
MountReady-commit_mounts sys is_bow [] h = refl
MountReady-commit_mounts sys is_bow (m ∷ ms) h =
    ground
      (arith, MountReady-commit_mount sys is_bow m h.0, MountReady-commit_mounts sys is_bow ms h.1)

-- All that has to go well for the commit.
pub record CanCommit (sys : System) (s : State) : Type 0 where
  pub allowed : sys.dont_commit ≡ false
  pub boot_marked : BootMarked sys.boot
  pub mounted : (ms : List FstabEntry) × (sys.mounts ≡ some ms) × All (MountReady sys s.is_bow) ms

commit_file_systems-ready :
    (sys : System) (done : List Action) (s : State)
    → s.is_checkpointing ≡ true
    → (commit_file_systems sys done s).0.is_checkpointing ≡ false
    → (ms : List FstabEntry) × (sys.mounts ≡ some ms) × All (MountReady sys s.is_bow) ms
unfolding commit_file_systems
commit_file_systems-ready sys done s c h = elim (Option-cases sys.mounts) [
  | inl missing ↦ absurd (ground arith)
  | inr (ms, found) ↦ (ms, found, commit_mounts-MountReady sys s.is_bow ms (ground arith))
]

ready-commit_file_systems :
    (sys : System) (done : List Action) (s : State) (ms : List FstabEntry)
    → sys.mounts ≡ some ms
    → All (MountReady sys s.is_bow) ms
    → (commit_file_systems sys done s).0.is_checkpointing ≡ false
unfolding commit_file_systems
ready-commit_file_systems sys done s ms found h =
    ground (arith, MountReady-commit_mounts sys s.is_bow ms h)

commit_changes-CanCommit :
    (sys : System) (s : State)
    → s.is_checkpointing ≡ true
    → (commit_changes sys s).0.is_checkpointing ≡ false
    → CanCommit sys s
unfolding commit_changes
commit_changes-CanCommit sys s c h = record {
  allowed = ground arith;
  boot_marked = ground arith;
  mounted = elim (Option-cases sys.boot) [
    | inl absent ↦ commit_file_systems-ready sys [] s c (ground arith)
    | inr (control, present) ↦
        commit_file_systems-ready sys (mark_boot_successful ∷ reset_warm_reset ∷ []) s c
          (ground arith)
  ];
}

CanCommit-commit_changes :
    (sys : System) (s : State)
    → s.is_checkpointing ≡ true
    → CanCommit sys s
    → (commit_changes sys s).0.is_checkpointing ≡ false
unfolding commit_changes
CanCommit-commit_changes sys s c v =
    let (ms, found, ready) = v.mounted in
    ground (
      arith,
      ready-commit_file_systems sys [] s ms found ready,
      ready-commit_file_systems sys (mark_boot_successful ∷ reset_warm_reset ∷ []) s ms found ready,
    )

-- A device in a checkpoint leaves it exactly when committing is not switched off, the boot slot
-- (if there is a boot control service) is marked successful, the mounts can be read, and each
-- mount that the fstab puts under a checkpoint is remounted (f2fs) or has its bow device told.
pub commit_changes_iff :
    (sys : System) (s : State)
    → s.is_checkpointing ≡ true
    → ((commit_changes sys s).0.is_checkpointing ≡ false) ↔ CanCommit sys s
commit_changes_iff sys s c = (commit_changes-CanCommit sys s c, CanCommit-commit_changes sys s c)

-- Whether the work that was put off until the commit is started.
abbrev pub starts_work : List Action → Bool
starts_work [] = false
starts_work (start_committed_work ∷ xs) = true
starts_work (a ∷ xs) = starts_work xs

starts_work-append :
    (xs bs : List Action) → starts_work (xs ++ bs) ≡ (starts_work xs || starts_work bs)
starts_work-append [] bs = refl
starts_work-append (mark_boot_successful ∷ xs) bs = starts_work-append xs bs
starts_work-append (start_committed_work ∷ xs) bs = refl
starts_work-append (_ ∷ xs) bs = starts_work-append xs bs

commit_mount-no_work :
    (sys : System) (is_bow : Bool) (m : FstabEntry)
    → starts_work (commit_mount sys is_bow m).1 ≡ false
unfolding commit_mount
commit_mount-no_work sys is_bow m = ground arith

commit_mounts-no_work :
    (sys : System) (is_bow : Bool) (ms : List FstabEntry)
    → starts_work (commit_mounts sys is_bow ms).1 ≡ false
unfolding commit_mounts
commit_mounts-no_work sys is_bow [] = refl
commit_mounts-no_work sys is_bow (m ∷ ms) = ground (
  arith,
  starts_work-append (commit_mount sys is_bow m).1 (commit_mounts sys is_bow ms).1,
  commit_mount-no_work sys is_bow m,
  commit_mounts-no_work sys is_bow ms,
)

commit_file_systems-work :
    (sys : System) (done : List Action) (s : State)
    → s.is_checkpointing ≡ true
    → starts_work done ≡ false
    → (starts_work (commit_file_systems sys done s).2 ≡ true) ↔ (
        ((commit_file_systems sys done s).0.is_checkpointing ≡ false)
        × ((commit_file_systems sys done s).0.metadata ≡ none)
        × ((commit_file_systems sys done s).1 ≡ ok))
unfolding commit_file_systems
commit_file_systems-work sys done s c h = elim (Option-cases sys.mounts) [
  | inl missing ↦ ground arith
  | inr (ms, found) ↦
      let acts = (commit_mounts sys s.is_bow ms).1 in
      let last : List Action = mark_committed ∷ remove_metadata ∷ start_committed_work ∷ [] in
      let short : List Action = mark_committed ∷ remove_metadata ∷ [] in
      ground (
        arith,
        commit_mounts-no_work sys s.is_bow ms,
        starts_work-append done acts,
        starts_work-append (done ++ acts) last,
        starts_work-append (done ++ acts) short,
      )
]

-- The work that was put off until the commit is started exactly when a device that was in a
-- checkpoint leaves it, the commit is reported as made and the metadata file is gone.
pub commit_changes-starts_work :
    (sys : System) (s : State)
    → (starts_work (commit_changes sys s).2 ≡ true) ↔ (
        (s.is_checkpointing ≡ true)
        × ((commit_changes sys s).0.is_checkpointing ≡ false)
        × ((commit_changes sys s).0.metadata ≡ none)
        × ((commit_changes sys s).1 ≡ ok))
unfolding commit_changes
commit_changes-starts_work sys s = elim (Bool-cases s.is_checkpointing) [
  | inr idle ↦ ground arith
  | inl busy ↦
      let marked : List Action = mark_boot_successful ∷ reset_warm_reset ∷ [] in
      ground (
        arith,
        commit_file_systems-work sys [] s busy refl,
        commit_file_systems-work sys marked s busy refl,
      )
]

-- An error before the end of the walk leaves the flags and the file as they were.
pub commit_changes_error :
    (sys : System) (s : State) (message : Text)
    → (commit_changes sys s).1 ≡ error einval message
    → (commit_changes sys s).0 ≡ s
unfolding commit_changes commit_file_systems
commit_changes_error sys s message h = ground arith
