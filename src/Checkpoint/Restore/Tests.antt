-- ===== src/Checkpoint/Restore/Tests.antt =====
-- The theorems about `cp_restoreCheckpoint` at concrete devices.
use android_system_vold.Common.{◌+◌, ◌≤◌, ◌≡◌, refl, some, true, ◌==◌, if◌then◌else◌, arith}
use android_system_vold.Checkpoint.Log.{
  Bytes, Storage, LogSector, log_sector, log_sector_size, log_entry_size, bow_magic, number,
}
use android_system_vold.Checkpoint.Relocations.{translate}
use android_system_vold.OrderedMap.{floor}
use android_system_vold.Checkpoint.Restore.{
  Restore, process_entry, relocated_read, read_blocks, read_at, seeks_to, undefined, checksum_of,
}
use android_system_vold.Checkpoint.Restore.Rounds.{
  check_log_sector, entry_offset, Result, restore_checkpoint, at_first, turn,
}
use android_system_vold.Checkpoint.Restore.Turns.{restore_checkpoint-ends}
use android_system_vold.Checkpoint.Restore.Validate.{
  check_log_sector-fits, Validated, turn-Validated,
}

abbrev disk : Storage
disk = record {
  opens = true;
  seeks = λ offset. true;
  reads = λ offset size. true;
  writes = λ offset size. true;
}

-- A log sector of one entry, which copies sector 9 to sector 0.
abbrev one_entry : Bytes
one_entry i =
    if i == 0
    then 0x42
    else (if i == 1
        then 0x4f
        else (if i == 2 then 0x57 else (if i == 45 then 2 else (if i == 36 then 9 else 0))))

abbrev header : LogSector
header = record {
  magic = bow_magic;
  header_version = 1;
  header_size = 28;
  block_size = 512;
  count = 1;
  sequence = 0;
  sector0 = 9;
}

abbrev reading : Restore
reading = record (at_first (λ i. i)) { ls_buffer = one_entry }

restore_checkpoint-ends_example :
    (result : Result) × (restore_checkpoint disk 2 0 one_entry ≡ some result)
    × (restore_checkpoint disk 5 0 one_entry ≡ some result)
restore_checkpoint-ends_example = restore_checkpoint-ends disk 3 0 one_entry

check_log_sector-fits_example :
    (log_sector_size ≤ entry_offset 28 0) × (entry_offset 28 0 + log_entry_size ≤ 512)
check_log_sector-fits_example =
    check_log_sector-fits true 512 0 0 header (unfold check_log_sector in refl) (omega arith)

turn-Validated_example : Validated one_entry (turn disk 0 true (at_first one_entry))
turn-Validated_example =
    turn-Validated disk 0 (at_first one_entry) (unfold log_sector number in omega arith)

-- An entry of 513 bytes leaves its buffer.
long_entry :
    process_entry disk 0 true 0 512
      (record { source = 0; dest = 9; size = 513; checksum = 0 })
      (at_first (λ i. i))
    ≡ undefined
unfolding process_entry relocated_read read_blocks read_at seeks_to translate floor
long_entry = refl

-- A block of less than a sector divides by zero.
short_block :
    process_entry disk 0 true 0 256
      (record { source = 0; dest = 9; size = 256; checksum = 0 })
      (at_first (λ i. i))
    ≡ undefined
unfolding process_entry relocated_read read_blocks read_at seeks_to translate floor checksum_of
short_block = refl
