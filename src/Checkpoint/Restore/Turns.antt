-- ===== src/Checkpoint/Restore/Turns.antt =====
-- The outer loop of `cp_restoreCheckpoint` ends.
use android_system_vold.Common.{
  ℕ, suc, ◌≡◌, refl, ◌⊎◌, some, Bool, true, false, not, ltb, ◌==◌, if◌then◌else◌, codes, inl, inr,
}
use android_system_vold.Checkpoint.Log.{
  Bytes, Storage, LogSector, log_sector, log_sector_size, bow_magic, partial_restore_magic,
}
use android_system_vold.Checkpoint.Relocations.{no_relocations}
use android_system_vold.Checkpoint.Restore.{Restore, Outcome, done, failed, undefined}
use android_system_vold.Checkpoint.Restore.Rounds.{
  Result, okay, error, crashed, Turn, returns, restores, end_turn, process_device, turn, turns,
  at_first, restore_checkpoint,
}

module _ (storage : Storage) (restore_limit : ℕ) where
  -- A turn that restores is the last.
  end_turn-Returns :
      (original_ls : LogSector) (o : Outcome Restore)
      → (result : Result) × (end_turn storage false original_ls o ≡ returns result)
  unfolding end_turn
  end_turn-Returns original_ls undefined = (crashed, refl)
  end_turn-Returns original_ls (failed message s) = (error message s.device, refl)
  end_turn-Returns original_ls (done s) = (okay s.device, refl)

  abbrev Returns : Turn → Type 0
  Returns t = (result : Result) × (t ≡ returns result)

  if-Returns : (b : Bool) (t u : Turn) → Returns t → Returns u → Returns (if b then t else u)
  if-Returns true t u h g = h
  if-Returns false t u h g = g

  process_device-Returns :
      (original_ls : LogSector) (s : Restore)
      → Returns (process_device storage restore_limit false original_ls s)
  unfolding process_device
  process_device-Returns original_ls s =
      if-Returns (ltb original_ls.block_size log_sector_size) _ _ (_, refl)
        (end_turn-Returns original_ls _)

  turn-Returns : (s : Restore) → Returns (turn storage restore_limit false s)
  unfolding turn
  turn-Returns s =
      let again = record s { position = 0; relocations = no_relocations } in
      if-Returns (not storage.opens) _ _ (error (codes "Cannot open") s.device, refl)
        (if-Returns (not (storage.reads 0 log_sector_size)) _ _
          (error (codes "Cannot read sector") s.device, refl)
          (if-Returns ((log_sector s.device).magic == partial_restore_magic) _ _
            (process_device-Returns (log_sector s.device) again)
            (if-Returns (not ((log_sector s.device).magic == bow_magic)) _ _
              (error (codes "No magic") s.device, refl)
              (process_device-Returns (log_sector s.device) again))))

  turns_restoring :
      (fuel : ℕ) (s : Restore)
      → (result : Result) × (turns storage (suc fuel) restore_limit false s ≡ some result)
        × (turns storage 1 restore_limit false s ≡ some result)
  unfolding turns
  turns_restoring fuel s =
      let (result, e) = turn-Returns s in (result, rw (e, turns) refl, rw (e, turns) refl)

turn_cases :
    (t : Turn) → ((result : Result) × (t ≡ returns result)) ⊎ ((s : Restore) × (t ≡ restores s))
turn_cases (returns result) = inl (result, refl)
turn_cases (restores s) = inr (s, refl)

turns_end :
    (storage : Storage) (fuel restore_limit : ℕ) (s : Restore)
    → (result : Result) × (turns storage 2 restore_limit true s ≡ some result)
      × (turns storage (suc (suc fuel)) restore_limit true s ≡ some result)
unfolding turns
turns_end storage fuel restore_limit s = elim (turn_cases (turn storage restore_limit true s)) [
  | inl (result, e) ↦ (result, rw (e, turns) refl, rw (e, turns) refl)
  | inr (s', e) ↦
      let (result, more, one) = turns_restoring storage restore_limit fuel s' in
      (result, rw (e, turns) one, rw (e, turns) more)
]

-- The outer loop ends: two turns are always enough, and more give the same result.
pub restore_checkpoint-ends :
    (storage : Storage) (fuel restore_limit : ℕ) (device : Bytes)
    → (result : Result) × (restore_checkpoint storage 2 restore_limit device ≡ some result)
      × (restore_checkpoint storage (suc (suc fuel)) restore_limit device ≡ some result)
unfolding restore_checkpoint
restore_checkpoint-ends storage fuel restore_limit device =
    turns_end storage fuel restore_limit (at_first device)
