-- ===== src/Checkpoint/Restore/Validate.antt =====
-- The turn of `cp_restoreCheckpoint` that validates writes nothing to the device but, where the log
-- is not valid, the original contents of sector 0.
use android_system_vold.Common.{
  ℕ, ◌+◌, ◌≤◌, ◌<◌, ◌≡◌, ◌≢◌, refl, ap, ◌∙◌, none, Bool, true, false, not, ◌&&◌, ltb, ◌==◌,
  if◌then◌else◌, arith, Bool-cases, inl, inr,
}
use android_system_vold.Checkpoint.Log.{
  Bytes, Storage, LogSector, log_sector, log_sector_size, log_entry_size, bow_magic,
  partial_restore_magic, write_bytes,
}
use android_system_vold.Checkpoint.Relocations.{no_relocations}
use android_system_vold.Checkpoint.Restore.{
  Restore, Outcome, done, failed, undefined, write_here, read_at, seeks_to, offset_of,
}
use android_system_vold.Checkpoint.Restore.Rounds.{
  check_log_sector, entry_offset, process_log, okay, error, crashed, Turn, returns, restores,
  log_sectors, roll_forward, end_turn, process_device, turn,
}
use android_system_vold.Checkpoint.Restore.Kept.{Keeps, process_log-Keeps}

-- Each entry of a log sector that passes the tests lies in its block, after the header.
pub check_log_sector-fits :
    (validating : Bool) (block_size sequence index : ℕ) (ls : LogSector)
    → check_log_sector validating block_size sequence ls ≡ none
    → index < ls.count
    → (log_sector_size ≤ entry_offset ls.header_size index)
      × (entry_offset ls.header_size index + log_entry_size ≤ block_size)
unfolding check_log_sector
check_log_sector-fits validating block_size sequence index ls h less = ground (arith, h)

-- What validation leaves of the device: all of it, but for the first block where the original
-- contents of sector 0 are written back.
abbrev pub Validated : Bytes → Turn → Type 0
Validated device (returns (okay after)) =
    (i : ℕ) → (log_sector device).block_size ≤ i → after i ≡ device i
Validated device (returns (error message after)) = after ≡ device
Validated device (returns crashed) = Unit {0}
Validated device (restores s) = s.device ≡ device

if-Validated :
    (device : Bytes) (b : Bool) (t u : Turn)
    → Validated device t
    → Validated device u
    → Validated device (if b then t else u)
if-Validated device true t u h g = h
if-Validated device false t u h g = g

write_bytes_after :
    (size i : ℕ) (bytes device : Bytes) → size ≤ i → write_bytes 0 size bytes device i ≡ device i
unfolding write_bytes
write_bytes_after size i bytes device h = ground (arith, h)

not_equal : (a b : ℕ) → a ≢ b → (a == b) ≡ false
not_equal a b h = ground (arith, h)

module _ (storage : Storage) where
  roll_forward-Validated :
      (device : Bytes) (s : Restore)
      → s.device ≡ device
      → Validated device (returns (roll_forward storage (log_sector device) s))
  unfolding roll_forward read_at write_here write_bytes
  roll_forward-Validated device s same =
      elim (Bool-cases (
        seeks_to storage (offset_of (log_sector device).sector0)
        && storage.reads (offset_of (log_sector device).sector0) (log_sector device).block_size)) [
          | inr bad ↦ rw (bad, Validated) same
          | inl good ↦
              rw (good, Validated)
                (elim (Bool-cases (seeks_to storage 0)) [
                  | inr bad ↦ rw (bad, Validated) same
                  | inl sought ↦
                      rw (sought, Validated)
                        (elim (Bool-cases (storage.writes 0 (log_sector device).block_size)) [
                          | inr bad ↦ rw (bad, Validated) same
                          | inl written ↦
                              rw (written, Validated)
                                (λ i beyond.
                                  write_bytes_after (log_sector device).block_size i
                                    (λ j. s.device (offset_of (log_sector device).sector0 + j))
                                    s.device beyond
                                  ∙ ap (λ d. d i) same)
                        ])
                ])
        ]

  end_turn-Validated :
      (device : Bytes) (o : Outcome Restore)
      → Keeps device o
      → Validated device (end_turn storage true (log_sector device) o)
  unfolding end_turn
  end_turn-Validated device undefined h = tt
  end_turn-Validated device (failed message s) h = roll_forward-Validated device s h
  end_turn-Validated device (done s) h = h

-- Whatever the log holds, while its first sector is not marked as partially restored: the turn that
-- validates it leaves every byte of the device as it is when it fails or goes on to restore, and
-- when it rolls forward it changes no byte after the first block.
pub turn-Validated :
    (storage : Storage) (restore_limit : ℕ) (s : Restore)
    → (log_sector s.device).magic ≢ partial_restore_magic
    → Validated s.device (turn storage restore_limit true s)
unfolding turn process_device
turn-Validated storage restore_limit s fresh =
    let again = record s { position = 0; relocations = no_relocations } in
    let ls = log_sector s.device in
    let first = if-Validated s.device (ltb ls.block_size log_sector_size) _ _ refl (
      end_turn-Validated storage s.device
        (process_log storage restore_limit true ls.block_size (log_sectors ls.sequence) again)
        (process_log-Keeps storage restore_limit s.device ls.block_size (log_sectors ls.sequence)
          again refl)) in
    if-Validated s.device (not storage.opens) _ _ refl (
      if-Validated s.device (not (storage.reads 0 log_sector_size)) _ _ refl (
        rw (not_equal ls.magic partial_restore_magic fresh)
          (if-Validated s.device (not (ls.magic == bow_magic)) _ _ refl first)))
