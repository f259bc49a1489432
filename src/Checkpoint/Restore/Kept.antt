-- ===== src/Checkpoint/Restore/Kept.antt =====
-- The loops of `cp_restoreCheckpoint` leave the device as it is while they validate.
use android_system_vold.Common.{
  ℕ, zero, suc, ◌+◌, ◌-◌, ◌/◌, ◌%◌, ◌≡◌, refl, subst, ◌∙◌, Option, none, some, Bool, true, false,
  not, ◌&&◌, ◌||◌, ltb, ◌==◌, if◌then◌else◌, Bool-cases, Option-cases, inl, inr,
}
use android_system_vold.Checkpoint.Log.{
  Bytes, Storage, LogSector, LogEntry, log_sector, log_entry, write_bytes,
}
use android_system_vold.Checkpoint.Relocations.{relocate, translate, add_sector}
use android_system_vold.Checkpoint.UsedSectors.{no_used_sectors}
use android_system_vold.Checkpoint.Restore.{
  Restore, Outcome, done, failed, undefined, then_do, read_at, read_blocks, relocated_read,
  checksum_of, take_entry, process_entry, seeks_to, offset_of, blocks, uint_max, entry_sectors,
  sector_size,
}
use android_system_vold.Checkpoint.Restore.Rounds.{
  check_log_sector, entry_offset, process_entries, process_log_sector, process_log,
}

-- What an outcome leaves of the device.
abbrev pub Keeps : Bytes → Outcome Restore → Type 0
Keeps device (done s) = s.device ≡ device
Keeps device (failed message s) = s.device ≡ device
Keeps device undefined = Unit {0}

abbrev KeepsRead : Bytes → Outcome (Option (Bytes × Restore)) → Type 0
KeepsRead device (done none) = Unit {0}
KeepsRead device (done (some (buffer, s))) = s.device ≡ device
KeepsRead device (failed message s) = s.device ≡ device
KeepsRead device undefined = Unit {0}

if-Keeps :
    (device : Bytes) (b : Bool) (m n : Outcome Restore)
    → Keeps device m
    → Keeps device n
    → Keeps device (if b then m else n)
if-Keeps device true m n h g = h
if-Keeps device false m n h g = g

then_do-Keeps :
    (device : Bytes) (m : Outcome Restore) (f : Restore → Outcome Restore)
    → Keeps device m
    → ((s : Restore) → s.device ≡ device → Keeps device (f s))
    → Keeps device (then_do m f)
then_do-Keeps device (done s) f h g = g s h
then_do-Keeps device (failed message s) f h g = h
then_do-Keeps device undefined f h g = tt

read-Keeps :
    (device : Bytes) (m : Outcome (Option (Bytes × Restore)))
    (f : Option (Bytes × Restore) → Outcome Restore)
    → KeepsRead device m
    → Keeps device (f none)
    → ((buffer : Bytes) (s : Restore) → s.device ≡ device → Keeps device (f (some (buffer, s))))
    → Keeps device (then_do m f)
read-Keeps device (done none) f h e g = e
read-Keeps device (done (some (buffer, s))) f h e g = g buffer s h
read-Keeps device (failed message s) f h e g = h
read-Keeps device undefined f h e g = tt

checksum-Keeps :
    (device : Bytes) (block_size : ℕ) (le : LogEntry) (buffer : Bytes) (f : ℕ → Outcome Restore)
    → ((checksum : ℕ) → Keeps device (f checksum))
    → Keeps device (then_do (checksum_of block_size le buffer) f)
unfolding checksum_of
checksum-Keeps device block_size le buffer f h = elim (Bool-cases (block_size / sector_size == 0)) [
  | inl zero_sectors ↦ rw (zero_sectors, Keeps) tt
  | inr some_sectors ↦
      rw (some_sectors, Keeps)
        (elim (Bool-cases (not (le.size % block_size == 0))) [
          | inl part ↦ rw (part, Keeps) tt
          | inr whole ↦ rw (whole, Keeps) (h _)
        ])
]

module _ (storage : Storage) where
  read_at-KeepsRead :
      (offset size : ℕ) (s : Restore) → KeepsRead s.device (done (read_at storage offset size s))
  unfolding read_at
  read_at-KeepsRead offset size s =
      elim (Bool-cases (seeks_to storage offset && storage.reads offset size)) [
        | inl good ↦ rw (good, KeepsRead) refl
        | inr bad ↦ rw (bad, KeepsRead) tt
      ]

  read_blocks-KeepsRead :
      (device : Bytes) (n size block_size sector i : ℕ) (buffer : Bytes) (s : Restore)
      → s.device ≡ device
      → KeepsRead device (read_blocks storage n size block_size sector i buffer s)
  unfolding read_blocks
  read_blocks-KeepsRead device zero size block_size sector i buffer s same = same
  read_blocks-KeepsRead device (suc n) size block_size sector i buffer s same =
      elim (Option-cases (translate s.relocations sector)) [
        | inl lost ↦ rw (lost, KeepsRead) tt
        | inr (place, e) ↦
            rw (e, KeepsRead)
              (go (read_at storage (offset_of place) block_size s)
                (read_at-KeepsRead (offset_of place) block_size s)
                (λ block s' kept.
                  read_blocks-KeepsRead device n size block_size
                    (add_sector sector (block_size / sector_size)) (i + block_size)
                    (write_bytes i block_size block buffer) s' kept))
      ]
    where
      go :
          (o : Option (Bytes × Restore))
          → KeepsRead s.device (done o)
          → ((block : Bytes) (s' : Restore)
              → s'.device ≡ device
              → KeepsRead device (
                  read_blocks storage n size block_size
                    (add_sector sector (block_size / sector_size))
                    (i + block_size)
                    (write_bytes i block_size block buffer)
                    s'))
          → KeepsRead device (elim o as (λ _. Outcome (Option (Bytes × Restore))) [
            | none ↦ done none
            | some (block, s') ↦
                let rest =
                  read_blocks storage n size block_size
                    (add_sector sector (block_size / sector_size))
                    (i + block_size)
                    (write_bytes i block_size block buffer)
                    s' in
                if ltb size (i + block_size) then undefined else rest
          ])
      go none h later = tt
      go (some (block, s')) h later = elim (Bool-cases (ltb size (i + block_size))) [
        | inl out ↦ rw (out, KeepsRead) tt
        | inr fits ↦ rw (fits, KeepsRead) (later block s' (h ∙ same))
      ]

  relocated_read-KeepsRead :
      (device : Bytes) (validating : Bool) (sector size block_size : ℕ) (s : Restore)
      → s.device ≡ device
      → KeepsRead device (relocated_read storage validating sector size block_size s)
  unfolding relocated_read
  relocated_read-KeepsRead device true sector size block_size s same =
      read_blocks-KeepsRead device (blocks size block_size) size block_size sector 0 (λ i. 0) s same
  relocated_read-KeepsRead device false sector size block_size s same =
      subst (λ d. KeepsRead d (done (read_at storage (offset_of sector) size s))) same
        (read_at-KeepsRead (offset_of sector) size s)

  module _ (restore_limit : ℕ) (device : Bytes) where
    take_entry-Keeps :
        (index block_size : ℕ) (le : LogEntry) (buffer : Bytes) (s : Restore)
        → s.device ≡ device
        → Keeps device (take_entry storage restore_limit true index block_size le buffer s)
    unfolding take_entry
    take_entry-Keeps index block_size le buffer s same =
        elim (Option-cases (relocate s.relocations le.source le.dest (entry_sectors le))) [
          | inl lost ↦ rw (lost, Keeps) tt
          | inr (relocations, e) ↦ rw (e, Keeps) same
        ]

    process_entry-Keeps :
        (index block_size : ℕ) (le : LogEntry) (s : Restore)
        → s.device ≡ device
        → Keeps device (process_entry storage restore_limit true index block_size le s)
    unfolding process_entry
    process_entry-Keeps index block_size le s same =
        if-Keeps device (ltb (uint_max - le.size) block_size || ltb le.size block_size) _ _ same (
          read-Keeps device (relocated_read storage true le.dest le.size block_size s) _
            (relocated_read-KeepsRead device true le.dest le.size block_size s same) same
            (λ buffer s' same'. checksum-Keeps device block_size le buffer _ (λ checksum.
              if-Keeps device (not (le.checksum == 0) && not (checksum == le.checksum)) _ _ same'
                (take_entry-Keeps index block_size le buffer s' same'))))

    pub process_entries-Keeps :
        (block_size index : ℕ) (ls : LogSector) (s : Restore)
        → s.device ≡ device
        → Keeps device (process_entries storage restore_limit true block_size index ls s)
    unfolding process_entries
    process_entries-Keeps block_size zero ls s same = same
    process_entries-Keeps block_size (suc index) ls s same =
        then_do-Keeps device
          (process_entry storage restore_limit true index block_size
            (log_entry s.ls_buffer (entry_offset ls.header_size index)) s)
          _ (process_entry-Keeps index block_size _ s same)
          (λ s' same'. process_entries-Keeps block_size index ls s' same')

    process_log_sector-Keeps :
        (block_size sequence : ℕ) (s : Restore)
        → s.device ≡ device
        → Keeps device (process_log_sector storage restore_limit true block_size sequence s)
    unfolding process_log_sector
    process_log_sector-Keeps block_size sequence s same =
        read-Keeps device (relocated_read storage true 0 block_size block_size s) _
          (relocated_read-KeepsRead device true 0 block_size block_size s same) same
          (λ ls_buffer s' same'.
            elim (Option-cases (check_log_sector true block_size sequence (log_sector ls_buffer))) [
              | inl good ↦
                  rw (good, Keeps)
                    (process_entries-Keeps block_size (log_sector ls_buffer).count
                      (log_sector ls_buffer)
                      (record s' { ls_buffer = ls_buffer; used_sectors = no_used_sectors }) same')
              | inr (message, e) ↦ rw (e, Keeps) same'
            ])

    pub process_log-Keeps :
        (block_size sequence : ℕ) (s : Restore)
        → s.device ≡ device
        → Keeps device (process_log storage restore_limit true block_size sequence s)
    unfolding process_log
    process_log-Keeps block_size zero s same = same
    process_log-Keeps block_size (suc sequence) s same =
        then_do-Keeps device (process_log_sector storage restore_limit true block_size sequence s) _
          (process_log_sector-Keeps block_size sequence s same)
          (λ s' same'. process_log-Keeps block_size sequence s' same')
