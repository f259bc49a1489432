-- ===== src/Checkpoint/Tests.antt =====
-- The theorems about Checkpoint.cpp at concrete inputs.
use android_system_vold.Common.{
  ℕ, zero, suc, ◌+◌, ◌-◌, ◌*◌, ◌/◌, ◌%◌, ◌≡◌, ◌<◌, ◌↔◌, refl, ap, ◌∙◌, none, some, [], ◌∷◌, true,
  false, ◌&&◌, ◌||◌, ltb, leb, if◌then◌else◌, Text, codes, decimal, to_string, All, pos, negsuc,
  arith, Bool-cases, inl, inr, ltb→le,
}
use android_system_vold.OrderedMap.{floor, upper_bound}
use android_system_vold.Checkpoint.Relocations.{
  Relocations, no_relocations, relocate, translate, Copied, relocate_entries, sector_mod,
}
use android_system_vold.Checkpoint.Relocations.Reads.{IsValid, relocate-translate}
use android_system_vold.Checkpoint.Relocations.Replay.{
  no_relocations-IsValid, Fits, read_through, replay, validate-replay,
}
use android_system_vold.Checkpoint.UsedSectors.{
  UsedSectors, no_used_sectors, mark_used, check_collision, entry_after,
}
use android_system_vold.Checkpoint.UsedSectors.Entries.{is_used}
use android_system_vold.Checkpoint.UsedSectors.Marks
use android_system_vold.Checkpoint.UsedSectors.Marks.{mark_used-is_used}
use android_system_vold.Checkpoint.UsedSectors.Collisions.{check_collision_always}
use android_system_vold.Checkpoint.Crc.{crc32}
use android_system_vold.Checkpoint.Crc.Polynomial.{crc_reference, crc32-crc_reference}
use android_system_vold.Checkpoint.Commands.{
  State, initial, supports_checkpoint, start_checkpoint, needs_rollback, needs_checkpoint,
  abort_changes, commit_changes, commit_file_systems,
}
use android_system_vold.Checkpoint.Commands.Device.{System, FstabEntry, BootControl, ok, reboot}
use android_system_vold.Checkpoint.Commands.Sticky.{
  starts, aborts, obey_all, needs_checkpoint_sticky,
}
use android_system_vold.Checkpoint.Commands.Retry.{
  ParsesDecimals, attempts, needs_rollback-attempts, needs_rollback-slot,
  abort_changes-needs_rollback,
}
use android_system_vold.Checkpoint.Commands.Commit.{
  CanCommit, commit_changes_iff, starts_work, commit_changes-starts_work, commit_changes_error,
}

relocate-translate_example :
    (m' : Relocations) × (relocate no_relocations 100 50 4 ≡ some m')
    × IsValid m'
    × ((s : ℕ)
        → s < sector_mod
        → translate m' s ≡ (
            if leb 100 s && ltb s (100 + 4)
            then translate no_relocations (s + 50 - 100)
            else translate no_relocations s))
relocate-translate_example =
    relocate-translate no_relocations 100 50 4 no_relocations-IsValid (omega arith) (omega arith)
      (omega arith)

abbrev one_copy : Copied
one_copy = record { source = 8; dest = 16; count = 8 }

one_copy-Fits : All Fits (one_copy ∷ [])
one_copy-Fits = ground arith

validate-replay_example :
    (m : Relocations) × (relocate_entries no_relocations (one_copy ∷ []) ≡ some m)
    × ((s : ℕ)
        → s < sector_mod
        → read_through (λ t. t) m s ≡ some (replay (one_copy ∷ []) (λ t. t) s))
validate-replay_example = validate-replay (λ t. t) (one_copy ∷ []) one_copy-Fits

no_used-IsValid : Marks.IsValid no_used_sectors
unfolding floor upper_bound is_used entry_after
no_used-IsValid = record { ordered = omega arith; alternates = λ k. ground arith }

mark_used-is_used_example :
    (m' : UsedSectors) × (mark_used no_used_sectors 8 16 ≡ some m')
    × Marks.IsValid m'
    × ((x : ℕ) → is_used m' x ≡ (is_used no_used_sectors x || (leb 8 x && ltb x 16)))
mark_used-is_used_example = mark_used-is_used 8 16 no_used_sectors (omega arith) no_used-IsValid

check_collision_always_example : check_collision no_used_sectors 8 16 ≡ some true
check_collision_always_example =
    check_collision_always no_used_sectors 8 16 {e = (0, false)} no_used-IsValid
      (unfold floor in refl) (omega arith)

crc32-crc_reference_example : crc32 (1 ∷ 2 ∷ []) 0 ≡ crc_reference (1 ∷ 2 ∷ []) 0
crc32-crc_reference_example = crc32-crc_reference (1 ∷ 2 ∷ []) 0

-- A reading of decimals.
abbrev value : ℕ → Text → ℕ
value v [] = v
value v (c ∷ s) = value (v * 10 + (c - 48)) s

value-decimal : (f n : ℕ) (acc : Text) → n < f → value 0 (decimal f n acc) ≡ value n acc
unfolding decimal
value-decimal zero n acc h = absurd (omega (arith, h))
value-decimal (suc f) n acc h = elim (Bool-cases (ltb n 10)) [
  | inl e ↦ rw e (ap (λ v. value v acc) (omega arith))
  | inr e ↦ rw e (
      value-decimal f (n / 10) ((48 + n % 10) ∷ acc) (omega (arith, ltb→le n 10 e))
      ∙ ap (λ v. value v acc) (omega arith))
]

abbrev data_entry : FstabEntry
data_entry = record {
  blk_device = codes "/dev/block/dm-5";
  mount_point = codes "/data";
  fs_type = codes "f2fs";
  fs_options = codes "rw";
  flags = 0;
  checkpoint_blk = false;
  checkpoint_fs = true;
}

abbrev slot_a : BootControl
slot_a = record {
  current_suffix = codes "_a";
  slot_marked_successful = some false;
  mark_boot_error = none;
}

abbrev phone : System
phone = record {
  fstab_default = data_entry ∷ [];
  fstab_entry = λ point. some data_entry;
  mounts = some (data_entry ∷ []);
  boot = some slot_a;
  dont_commit = false;
  write_ok = true;
  read_ok = true;
  remove_ok = true;
  remove_error = [];
  remount_ok = λ point. true;
  trim_ok = λ point. true;
  bow_ok = λ device. true;
  parse_int = λ s. some (pos (value 0 s));
}

phone-ParsesDecimals : ParsesDecimals phone
phone-ParsesDecimals n h =
    unfold to_string in ap (λ v. some (pos v)) (value-decimal (n + 1) n [] (omega arith))

needs_rollback-attempts_example :
    needs_rollback phone (attempts phone 3 (start_checkpoint phone (pos 2) initial).0)
    ≡ leb (2 + 1) 3
needs_rollback-attempts_example =
    needs_rollback-attempts phone 2 3 initial phone-ParsesDecimals refl refl
      (unfold supports_checkpoint in refl) (omega arith)

needs_rollback-slot_example :
    needs_rollback phone (attempts phone 5 (start_checkpoint phone (negsuc 0) initial).0) ≡ false
needs_rollback-slot_example =
    needs_rollback-slot phone phone slot_a 5 initial refl refl refl
      (unfold supports_checkpoint in refl) phone-ParsesDecimals

needs_checkpoint_sticky_example :
    let first = needs_checkpoint phone initial in
    let s' = obey_all ((phone, starts (pos 2)) ∷ (phone, aborts (codes "x") true) ∷ []) first.0 in
    (s'.is_checkpointing ≡ first.1) × (needs_checkpoint phone s' ≡ (s', first.1))
needs_checkpoint_sticky_example =
    needs_checkpoint_sticky phone phone
      ((phone, starts (pos 2)) ∷ (phone, aborts (codes "x") true) ∷ []) initial

abbrev in_checkpoint : State
in_checkpoint = record initial {
  metadata = some (to_string 2);
  is_checkpointing = true;
  needs_checkpoint_was_called = true;
}

abort_changes-needs_rollback_example :
    (needs_rollback phone (abort_changes phone (codes "low") false in_checkpoint).0 ≡ true)
    × ((abort_changes phone (codes "low") false in_checkpoint).1 ≡ reboot (codes "low") ∷ [])
abort_changes-needs_rollback_example =
    abort_changes-needs_rollback phone (codes "low") in_checkpoint 2 phone-ParsesDecimals refl refl
      (omega arith) refl (unfold needs_checkpoint in refl)

commit_changes_iff_example :
    ((commit_changes phone in_checkpoint).0.is_checkpointing ≡ false)
    ↔ CanCommit phone in_checkpoint
commit_changes_iff_example = commit_changes_iff phone in_checkpoint refl

commit_changes-starts_work_example : (starts_work (commit_changes phone in_checkpoint).2 ≡ true) ↔ (
    (in_checkpoint.is_checkpointing ≡ true)
    × ((commit_changes phone in_checkpoint).0.is_checkpointing ≡ false)
    × ((commit_changes phone in_checkpoint).0.metadata ≡ none)
    × ((commit_changes phone in_checkpoint).1 ≡ ok))
commit_changes-starts_work_example = commit_changes-starts_work phone in_checkpoint

abbrev no_mounts : System
no_mounts = record phone { mounts = none }

commit_changes_error_example : (commit_changes no_mounts in_checkpoint).0 ≡ in_checkpoint
commit_changes_error_example =
    commit_changes_error no_mounts in_checkpoint (codes "Failed to get /proc/mounts")
      (unfold commit_changes commit_file_systems in refl)
