-- ===== src/Checkpoint/Restore.antt =====
-- Checkpoint.cpp: `relocatedRead`, `restoreSector` and `cp_restoreCheckpoint`.
pub mod Rounds
pub mod Turns
pub mod Kept
pub mod Validate
pub mod Whole
pub mod Defined
pub mod Contents
pub mod Tests
use android_system_vold.Common.{
  ℕ, zero, suc, ◌+◌, ◌-◌, ◌*◌, ◌/◌, ◌%◌, ◌^◌, Option, none, some, List, [], ◌∷◌, Bool, true, false,
  not, ◌&&◌, ◌||◌, ltb, leb, ◌==◌, if◌then◌else◌, Text, codes,
}
use android_system_vold.Checkpoint.Log.{
  Bytes, Storage, LogSector, LogEntry, log_sector, log_entry, log_sector_size, log_entry_size,
  sector_size, bow_magic, partial_restore_magic, write_bytes, bytes_from, mark_partial,
  mark_restored,
}
use android_system_vold.Checkpoint.Crc.{crc32}
use android_system_vold.Checkpoint.Relocations.{
  Relocations, no_relocations, sector_mod, add_sector, relocate, translate,
}
use android_system_vold.Checkpoint.UsedSectors.{
  UsedSectors, no_used_sectors, check_collision, mark_used,
}

-- The device with the position in its file, and the variables that outlive an entry of the log.
pub record Restore : Type 0 where
  pub device : Bytes
  pub position : ℕ
  pub relocations : Relocations
  pub used_sectors : UsedSectors
  pub ls_buffer : Bytes
  pub restore_count : ℕ

-- A step goes on, ends with an error, or does what the language leaves undefined: it leaves a
-- buffer, divides by zero or moves an iterator before the first entry.
pub data Outcome (A : Type 0) : Type 0 where
  done : A → Outcome A
  failed : Text → Restore → Outcome A
  undefined : Outcome A

abbrev pub then_do : {A B : Type 0} → Outcome A → (A → Outcome B) → Outcome B
then_do (done a) f = f a
then_do (failed message s) f = failed message s
then_do undefined f = undefined

-- `sector * kSectorSize` as an `off64_t`.
abbrev pub offset_of : ℕ → ℕ
offset_of sector = (sector * sector_size) % sector_mod

abbrev pub uint_max : ℕ
uint_max = 2 ^ 32 - 1

-- How many blocks a loop over a number of bytes meets, the last in part.
abbrev pub blocks : ℕ → ℕ → ℕ
blocks size block_size = (size + block_size - 1) / block_size

-- The loop over the blocks of the buffer.
unfoldable pub checksum_blocks : ℕ → ℕ → ℕ → Bytes → ℕ → ℕ
unfolding crc32 bytes_from
checksum_blocks zero block_size i buffer checksum = checksum
checksum_blocks (suc n) block_size i buffer checksum =
    checksum_blocks n block_size (i + block_size) buffer
      (crc32 (bytes_from buffer i block_size) checksum)

-- The checksum of the buffer of an entry.
unfoldable pub checksum_of : ℕ → LogEntry → Bytes → Outcome ℕ
unfolding checksum_blocks
checksum_of block_size le buffer =
    if block_size / sector_size == 0
    then undefined
    else (if not (le.size % block_size == 0)
        then undefined
        else done (
            checksum_blocks (blocks le.size block_size) block_size 0 buffer
              ((le.source / (block_size / sector_size)) % 2 ^ 32)))

-- The next log sector, when it is the first entry that restores it.
unfoldable pub mark_next : ℕ → ℕ → Bytes → Bytes
unfolding log_sector mark_partial
mark_next index sequence buffer =
    if index == 0 && not (sequence == 0) && (log_sector buffer).magic == bow_magic
    then mark_partial buffer
    else buffer

abbrev pub entry_sectors : LogEntry → ℕ
entry_sectors le = (le.size - 1) / sector_size + 1

module _ (storage : Storage) where
  unfoldable pub seeks_to : ℕ → Bool
  seeks_to offset = ltb offset (2 ^ 63) && storage.seeks offset

  -- `lseek64` without a look at its result, and `write`.
  unfoldable pub seek : ℕ → Restore → Restore
  unfolding seeks_to
  seek offset s = if seeks_to offset then record s { position = offset } else s

  unfoldable pub write_here : ℕ → Bytes → Restore → Restore
  unfolding write_bytes
  write_here size bytes s =
      if storage.writes s.position size
      then record s {
        device = write_bytes s.position size bytes s.device;
        position = s.position + size;
      }
      else s

  -- A read at an offset, or none.
  unfoldable pub read_at : ℕ → ℕ → Restore → Option (Bytes × Restore)
  unfolding seeks_to
  read_at offset size s =
      if seeks_to offset && storage.reads offset size
      then some (λ i. s.device (offset + i), record s { position = offset + size })
      else none

  -- The loop of `relocatedRead` while the log is validated, from byte `i` on. A block that does not
  -- fit in what is left of the buffer leaves it.
  unfoldable pub read_blocks :
      ℕ → ℕ → ℕ → ℕ → ℕ → Bytes → Restore → Outcome (Option (Bytes × Restore))
  unfolding read_at translate write_bytes
  read_blocks zero size block_size sector i buffer s = done (some (buffer, s))
  read_blocks (suc n) size block_size sector i buffer s = elim (translate s.relocations sector) [
    | none ↦ undefined
    | some place ↦ elim (read_at (offset_of place) block_size s) [
      | none ↦ done none
      | some (block, s') ↦
          let rest =
            read_blocks n size block_size (add_sector sector (block_size / sector_size))
              (i + block_size) (write_bytes i block_size block buffer) s' in
          if ltb size (i + block_size) then undefined else rest
    ]
  ]

  unfoldable pub relocated_read : Bool → ℕ → ℕ → ℕ → Restore → Outcome (Option (Bytes × Restore))
  unfolding read_at read_blocks
  relocated_read validating sector size block_size s =
      if validating
      then read_blocks (blocks size block_size) size block_size sector 0 (λ i. 0) s
      else done (read_at (offset_of sector) size s)

  -- The save of a partial result.
  unfoldable pub save_partial : ℕ → ℕ → Restore → Restore
  unfolding seek write_here mark_restored
  save_partial index block_size s =
      let marked = record s { ls_buffer = mark_restored (index + 1) s.ls_buffer } in
      record (write_here block_size marked.ls_buffer (seek 0 marked)) {
        used_sectors = no_used_sectors;
      }

  unfoldable pub write_restored : ℕ → LogEntry → Bytes → UsedSectors → Restore → Restore
  unfolding seek write_here mark_next log_sector
  write_restored index le buffer used s =
      write_here le.size (mark_next index (log_sector s.ls_buffer).sequence buffer)
        (seek (offset_of le.source) (record s { used_sectors = used }))

  unfoldable pub restore_sector : ℕ → ℕ → LogEntry → Bytes → Restore → Outcome Restore
  unfolding check_collision mark_used save_partial write_restored
  restore_sector index block_size le buffer s =
      elim (check_collision s.used_sectors le.source (add_sector le.source (entry_sectors le))) [
        | none ↦ undefined
        | some collision ↦
            let saved = if collision then save_partial index block_size s else s in
            elim (mark_used saved.used_sectors le.dest (add_sector le.dest (entry_sectors le))) [
              | none ↦ undefined
              | some used ↦ done (write_restored index le buffer used saved)
            ]
      ]

  -- What is done with an entry whose contents were read and have the right checksum.
  unfoldable pub take_entry : ℕ → Bool → ℕ → ℕ → LogEntry → Bytes → Restore → Outcome Restore
  unfolding relocate restore_sector
  take_entry restore_limit validating index block_size le buffer s =
      if validating
      then (elim (relocate s.relocations le.source le.dest (entry_sectors le)) [
        | none ↦ undefined
        | some relocations ↦ done (record s { relocations = relocations })
      ])
      else then_do (restore_sector index block_size le buffer s) (λ s'.
        let counted = record s' { restore_count = s'.restore_count + 1 } in
        if not (restore_limit == 0) && leb restore_limit counted.restore_count
        then failed (codes "Hit the test limit") counted
        else done counted)

  unfoldable pub process_entry : ℕ → Bool → ℕ → ℕ → LogEntry → Restore → Outcome Restore
  unfolding relocated_read checksum_of take_entry
  process_entry restore_limit validating index block_size le s =
      if ltb (uint_max - le.size) block_size || ltb le.size block_size
      then failed (codes "log entry is invalid") s
      else then_do (relocated_read validating le.dest le.size block_size s) (λ o. elim o [
        | none ↦ failed (codes "Failed to read sector") s
        | some (buffer, s') ↦ then_do (checksum_of block_size le buffer) (λ checksum.
            if not (le.checksum == 0) && not (checksum == le.checksum)
            then failed (codes "Checksums don't match") s'
            else take_entry restore_limit validating index block_size le buffer s')
      ])
