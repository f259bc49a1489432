-- ===== src/Checkpoint/Restore/Rounds.antt =====
-- Checkpoint.cpp: the loops of `cp_restoreCheckpoint` over the log sectors and their entries, first
-- to validate the log and then to restore it.
use android_system_vold.Common.{
  ℕ, zero, suc, ◌+◌, ◌-◌, ◌*◌, ◌/◌, ◌^◌, Option, none, some, Bool, true, false, not, ◌&&◌, ◌||◌,
  ltb, ◌==◌, if◌then◌else◌, Text, codes,
}
use android_system_vold.Checkpoint.Log.{
  Bytes, Storage, LogSector, log_sector, log_entry, log_sector_size, log_entry_size, bow_magic,
  partial_restore_magic,
}
use android_system_vold.Checkpoint.Relocations.{no_relocations}
use android_system_vold.Checkpoint.UsedSectors.{no_used_sectors}
use android_system_vold.Checkpoint.Restore.{
  Restore, Outcome, done, failed, undefined, then_do, write_here, read_at, relocated_read,
  process_entry, seeks_to, offset_of,
}

-- The tests of a log sector, in the order of the code: the message of the first that fails.
unfoldable pub check_log_sector : Bool → ℕ → ℕ → LogSector → Option Text
check_log_sector validating block_size sequence ls =
    if not (ls.magic == bow_magic) && (not (ls.magic == partial_restore_magic) || validating)
    then some (codes "No magic")
    else (if not (ls.block_size == block_size)
        then some (codes "Block size mismatch")
        else (if not (ls.sequence == sequence)
            then some (codes "Expecting log sector")
            else (if ltb ls.header_size log_sector_size || ltb ls.block_size ls.header_size
                then some (codes "Log sector header size is invalid")
                else (if ltb ls.count 1
                      || ltb ((ls.block_size - ls.header_size) / log_entry_size) ls.count
                    then some (codes "Log sector count is invalid")
                    else none))))

-- Where the entry of an index stands in the buffer of its log sector.
abbrev pub entry_offset : ℕ → ℕ → ℕ
entry_offset header_size index = header_size + log_entry_size * index

module _ (storage : Storage) (restore_limit : ℕ) (validating : Bool) (block_size : ℕ) where
  -- The entries before an index, the last first.
  unfoldable pub process_entries : ℕ → LogSector → Restore → Outcome Restore
  unfolding process_entry log_entry
  process_entries zero ls s = done s
  process_entries (suc index) ls s =
      then_do
        (process_entry storage restore_limit validating index block_size
          (log_entry s.ls_buffer (entry_offset ls.header_size index)) s)
        (λ s'. process_entries index ls s')

  unfoldable pub process_log_sector : ℕ → Restore → Outcome Restore
  unfolding relocated_read log_sector check_log_sector process_entries
  process_log_sector sequence s =
      then_do (relocated_read storage validating 0 block_size block_size s) (λ o. elim o [
        | none ↦ failed (codes "Failed to read log sector") s
        | some (ls_buffer, s') ↦
            let read = record s' { ls_buffer = ls_buffer; used_sectors = no_used_sectors } in
            let ls = log_sector ls_buffer in
            elim (check_log_sector validating block_size sequence ls) [
              | some message ↦ failed message read
              | none ↦ process_entries ls.count ls read
            ]
      ])

  -- The log sectors before a number, the last first.
  unfoldable pub process_log : ℕ → Restore → Outcome Restore
  unfolding process_log_sector
  process_log zero s = done s
  process_log (suc sequence) s =
      then_do (process_log_sector sequence s) (λ s'. process_log sequence s')

-- The result of the command, with the device after it; or what is left undefined.
pub data Result : Type 0 where
  okay : Bytes → Result
  error : Text → Bytes → Result
  crashed : Result

-- What one turn of the outer loop comes to.
pub data Turn : Type 0 where
  returns : Result → Turn
  restores : Restore → Turn

-- `int sequence = original_ls.sequence`: the loop runs while it is not negative.
abbrev pub log_sectors : ℕ → ℕ
log_sectors sequence = if ltb sequence (2 ^ 31) then sequence + 1 else 0

abbrev pub at_first : Bytes → Restore
at_first device = record {
  device = device;
  position = 0;
  relocations = no_relocations;
  used_sectors = no_used_sectors;
  ls_buffer = λ i. 0;
  restore_count = 0;
}

module _ (storage : Storage) where
  -- The original contents of sector 0 are written back.
  unfoldable pub roll_forward : LogSector → Restore → Result
  unfolding read_at seeks_to write_here
  roll_forward original_ls s =
      elim (read_at storage (offset_of original_ls.sector0) original_ls.block_size s) [
        | none ↦ error (codes "Failed to read original sector") s.device
        | some (buffer, s') ↦
            if not (seeks_to storage 0)
            then error (codes "Failed to seek to sector 0") s'.device
            else (if not (storage.writes 0 original_ls.block_size)
                then error (codes "Failed to write original sector") s'.device
                else okay
                    (write_here storage original_ls.block_size buffer
                      (record s' { position = 0 })).device)
      ]

  unfoldable pub end_turn : Bool → LogSector → Outcome Restore → Turn
  unfolding roll_forward
  end_turn validating original_ls undefined = returns crashed
  end_turn validating original_ls (failed message s) =
      if not validating
      then returns (error message s.device)
      else returns (roll_forward original_ls s)
  end_turn validating original_ls (done s) =
      if not validating then returns (okay s.device) else restores s

  unfoldable pub process_device : ℕ → Bool → LogSector → Restore → Turn
  unfolding end_turn process_log
  process_device restore_limit validating original_ls s =
      if ltb original_ls.block_size log_sector_size
      then returns (error (codes "Block size is invalid") s.device)
      else end_turn validating original_ls (
          process_log storage restore_limit validating original_ls.block_size
            (log_sectors original_ls.sequence) s)

  -- A turn, which opens the device anew.
  unfoldable pub turn : ℕ → Bool → Restore → Turn
  unfolding process_device log_sector
  turn restore_limit validating before =
      let s = record before { position = 0; relocations = no_relocations } in
      let original_ls = log_sector s.device in
      if not storage.opens
      then returns (error (codes "Cannot open") s.device)
      else (if not (storage.reads 0 log_sector_size)
          then returns (error (codes "Cannot read sector") s.device)
          else (if original_ls.magic == partial_restore_magic
              then process_device restore_limit false original_ls s
              else (if not (original_ls.magic == bow_magic)
                  then returns (error (codes "No magic") s.device)
                  else process_device restore_limit validating original_ls s)))

  -- The outer loop, for so many turns at most; none when they are not enough.
  unfoldable pub turns : ℕ → ℕ → Bool → Restore → Option Result
  unfolding turn
  turns zero restore_limit validating s = none
  turns (suc fuel) restore_limit validating s = elim (turn restore_limit validating s) [
    | returns result ↦ some result
    | restores s' ↦ turns fuel restore_limit false s'
  ]

  unfoldable pub restore_checkpoint : ℕ → ℕ → Bytes → Option Result
  unfolding turns
  restore_checkpoint fuel restore_limit device = turns fuel restore_limit true (at_first device)
