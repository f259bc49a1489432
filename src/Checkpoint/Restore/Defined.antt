-- ===== src/Checkpoint/Restore/Defined.antt =====
-- Entries of a log whose sizes are multiples of the size of a block are validated within the bounds
-- of their buffers, and the relocations after them are those of the entries.
use android_system_vold.Common.{
  ℕ, zero, suc, ◌-◌, ◌%◌, ◌≤◌, ◌<◌, ◌≡◌, refl, sym, ap, subst, ◌∙◌, Option, none, some, List, [],
  ◌∷◌, true, not, ◌&&◌, ◌||◌, ltb, ◌==◌, arith, All,
}
use android_system_vold.Checkpoint.Log.{Bytes, Storage, LogSector, LogEntry, log_entry, sector_size}
use android_system_vold.Checkpoint.Relocations.{
  Relocations, relocate, no_relocations, sector_mod, relocate_entries, Copied,
}
use android_system_vold.Checkpoint.Relocations.Reads.{IsValid, relocate-translate}
use android_system_vold.Checkpoint.Relocations.Replay.{
  Fits, replay, read_through, validate-replay, no_relocations-IsValid,
}
use android_system_vold.Checkpoint.Restore.{
  Restore, Outcome, done, failed, undefined, relocated_read, take_entry, process_entry, blocks,
  uint_max, entry_sectors,
}
use android_system_vold.Checkpoint.Restore.Rounds.{entry_offset, process_entries}
use android_system_vold.Checkpoint.Restore.Whole.{
  Reaches, Has, then_do-Reaches, if-Reaches, read-Reaches, checksum-Reaches, blocks_whole,
  read_blocks-HasRead,
}

-- The copy that an entry stands for.
abbrev pub copied : LogEntry → Copied
copied le = record { source = le.source; dest = le.dest; count = entry_sectors le }

-- The size of the entry is a multiple of the size of a block, and its sectors have numbers of 64 bits.
abbrev pub IsWhole : ℕ → LogEntry → Type 0
IsWhole block_size le = (le.size % block_size ≡ 0) × Fits (copied le)

-- The copies of the entries before an index, the last first.
abbrev pub entries_before : Bytes → ℕ → ℕ → List Copied
entries_before ls_buffer header_size zero = []
entries_before ls_buffer header_size (suc index) =
    copied (log_entry ls_buffer (entry_offset header_size index))
    ∷ entries_before ls_buffer header_size index

some_same : (r r' : Relocations) → some r ≡ some r' → r ≡ r'
some_same r r' e = ap from e
  where
    from : Option Relocations → Relocations
    from none = r
    from (some q) = q

abbrev then_relocate : Option Relocations → List Copied → Option Relocations
then_relocate o les = elim o [ none ↦ none | some r ↦ relocate_entries r les ]

module _ (storage : Storage) (restore_limit block_size : ℕ) (ls_buffer : Bytes) where
  take_entry-Has :
      (r r' : Relocations) (index : ℕ) (le : LogEntry) (buffer : Bytes) (s : Restore)
      → Has r ls_buffer s
      → relocate r le.source le.dest (entry_sectors le) ≡ some r'
      → Reaches
          (Has r' ls_buffer)
          (take_entry storage restore_limit true index block_size le buffer s)
  unfolding take_entry
  take_entry-Has r r' index le buffer s h e =
      rw (ap (λ q. relocate q le.source le.dest (entry_sectors le)) h.0 ∙ e, Reaches) (refl, h.1)

  process_entry-Has :
      (r r' : Relocations) (index : ℕ) (le : LogEntry) (s : Restore)
      → IsValid r
      → sector_size ≤ block_size
      → le.size % block_size ≡ 0
      → Has r ls_buffer s
      → relocate r le.source le.dest (entry_sectors le) ≡ some r'
      → Reaches (Has r' ls_buffer) (process_entry storage restore_limit true index block_size le s)
  unfolding process_entry relocated_read
  process_entry-Has r r' index le s v big whole h e =
      if-Reaches (Has r' ls_buffer) (ltb (uint_max - le.size) block_size || ltb le.size block_size)
        _ _ (λ bad. tt)
        (λ good.
          read-Reaches r ls_buffer (Has r' ls_buffer)
            (relocated_read storage true le.dest le.size block_size s) _
            (read_blocks-HasRead storage r v ls_buffer (blocks le.size block_size) le.size
              block_size le.dest 0 (λ i. 0) s h
              (omega (arith, blocks_whole le.size block_size (omega arith) whole)))
            tt
            (λ buffer s' h'.
              checksum-Reaches (Has r' ls_buffer) block_size le buffer _ big whole (λ checksum.
                if-Reaches (Has r' ls_buffer)
                  (not (le.checksum == 0) && not (checksum == le.checksum)) _ _ (λ bad. tt)
                  (λ good. take_entry-Has r r' index le buffer s' h' e))))

  process_entries-Has :
      (r r' : Relocations) (count : ℕ) (ls : LogSector) (s : Restore)
      → IsValid r
      → sector_size ≤ block_size
      → ((index : ℕ)
          → index < count
          → IsWhole block_size (log_entry ls_buffer (entry_offset ls.header_size index)))
      → Has r ls_buffer s
      → relocate_entries r (entries_before ls_buffer ls.header_size count) ≡ some r'
      → Reaches
          (Has r' ls_buffer)
          (process_entries storage restore_limit true block_size count ls s)
  unfolding process_entries relocate_entries
  process_entries-Has r r' zero ls s v big whole h e = (h.0 ∙ some_same r r' e, h.1)
  process_entries-Has r r' (suc index) ls s v big whole h e =
      let le = log_entry ls_buffer (entry_offset ls.header_size index) in
      let (fits_size, fits) = whole index (omega arith) in
      let (r₁, first, v₁, reads) =
        relocate-translate r le.source le.dest (entry_sectors le) v fits.some_sectors
          fits.source_fits fits.dest_fits in
      then_do-Reaches (Has r₁ ls_buffer) (Has r' ls_buffer)
        (process_entry storage restore_limit true index block_size
          (log_entry s.ls_buffer (entry_offset ls.header_size index)) s)
        _
        (subst
          (λ b. Reaches (Has r₁ ls_buffer) (
            process_entry storage restore_limit true index block_size
              (log_entry b (entry_offset ls.header_size index)) s))
          (sym h.1) (process_entry-Has r r₁ index le s v big fits_size h first))
        (λ s' h'.
          process_entries-Has r₁ r' index ls s' v₁ big (λ i less. whole i (omega arith)) h'
            (subst (λ o. then_relocate o (entries_before ls_buffer ls.header_size index) ≡ some r')
              first e))

entries_before-Fits :
    (ls_buffer : Bytes) (block_size header_size count : ℕ)
    → ((index : ℕ)
        → index < count
        → IsWhole block_size (log_entry ls_buffer (entry_offset header_size index)))
    → All Fits (entries_before ls_buffer header_size count)
entries_before-Fits ls_buffer block_size header_size zero whole = tt
entries_before-Fits ls_buffer block_size header_size (suc index) whole = (
  (whole index (omega arith)).1,
  entries_before-Fits ls_buffer block_size header_size index (λ i less. whole i (omega arith)),
)

weaken-Reaches :
    (P Q : Restore → Type 0) (m : Outcome Restore)
    → Reaches P m
    → ((s : Restore) → P s → Q s)
    → Reaches Q m
weaken-Reaches P Q (done s) h g = g s h
weaken-Reaches P Q (failed message s) h g = h
weaken-Reaches P Q undefined h g = h

-- The relocations after the entries of the first log sector that is met are those of the copies, and
-- each sector is read through them where the copies put its contents, for any contents.
pub process_entries-relocations :
    (A : Type 0) (contents : ℕ → A) (storage : Storage) (restore_limit block_size : ℕ)
    (ls : LogSector) (s : Restore)
    → sector_size ≤ block_size
    → s.relocations ≡ no_relocations
    → ((index : ℕ)
        → index < ls.count
        → IsWhole block_size (log_entry s.ls_buffer (entry_offset ls.header_size index)))
    → Reaches
        (λ s'.
          (sector : ℕ)
          → sector < sector_mod
          → read_through contents s'.relocations sector
            ≡ some (replay (entries_before s.ls_buffer ls.header_size ls.count) contents sector))
        (process_entries storage restore_limit true block_size ls.count ls s)
process_entries-relocations A contents storage restore_limit block_size ls s big start whole =
    let (m, found, shows) =
      validate-replay contents (entries_before s.ls_buffer ls.header_size ls.count)
        (entries_before-Fits s.ls_buffer block_size ls.header_size ls.count whole) in
    weaken-Reaches (Has m s.ls_buffer) _
      (process_entries storage restore_limit true block_size ls.count ls s)
      (process_entries-Has storage restore_limit block_size s.ls_buffer no_relocations m ls.count ls
        s no_relocations-IsValid big whole (start, refl) found)
      (λ s' h sector less. ap (λ r. read_through contents r sector) h.0 ∙ shows sector less)
