-- ===== src/Checkpoint/Log.antt =====
-- Checkpoint.cpp: the log of a block device, its entries and the reads and writes of bytes.
use android_system_vold.Common.{
  ℕ, zero, suc, ◌+◌, ◌-◌, ◌*◌, ◌/◌, ◌%◌, ◌^◌, List, [], ◌∷◌, Bool, ◌&&◌, ltb, leb, if◌then◌else◌,
}

-- The bytes of the device or of a buffer, by their offset.
abbrev pub Bytes : Type 0
Bytes = ℕ → ℕ

-- What the kernel answers: whether the device opens, and whether a seek to an offset, a read of a
-- number of bytes at an offset and such a write succeed as a whole.
pub record Storage : Type 0 where
  pub opens : Bool
  pub seeks : ℕ → Bool
  pub reads : ℕ → ℕ → Bool
  pub writes : ℕ → ℕ → Bool

-- A number of so many bytes, the lowest first.
unfoldable pub number : Bytes → ℕ → ℕ → ℕ
number bytes offset zero = 0
number bytes offset (suc width) = bytes offset + 256 * number bytes (offset + 1) width

-- The bytes from an offset on are those of the data.
unfoldable pub write_bytes : ℕ → ℕ → Bytes → Bytes → Bytes
write_bytes offset size bytes device i =
    if leb offset i && ltb i (offset + size) then bytes (i - offset) else device i

-- A number as its bytes.
unfoldable pub digits : ℕ → Bytes
digits n i = (n / 256 ^ i) % 256

unfoldable pub bytes_from : Bytes → ℕ → ℕ → List ℕ
bytes_from bytes offset zero = []
bytes_from bytes offset (suc n) = bytes offset ∷ bytes_from bytes (offset + 1) n

abbrev pub sector_size : ℕ
sector_size = 512

abbrev pub bow_magic : ℕ
bow_magic = 0x00574f42

abbrev pub partial_restore_magic : ℕ
partial_restore_magic = 0x00424f57

-- `log_sector_v1_0` and `log_entry`, which are packed: 28 and 24 bytes.
pub record LogSector : Type 0 where
  pub magic : ℕ
  pub header_version : ℕ
  pub header_size : ℕ
  pub block_size : ℕ
  pub count : ℕ
  pub sequence : ℕ
  pub sector0 : ℕ

pub record LogEntry : Type 0 where
  pub source : ℕ
  pub dest : ℕ
  pub size : ℕ
  pub checksum : ℕ

abbrev pub log_sector_size : ℕ
log_sector_size = 28

abbrev pub log_entry_size : ℕ
log_entry_size = 24

unfoldable pub log_sector : Bytes → LogSector
unfolding number
log_sector bytes = record {
  magic = number bytes 0 4;
  header_version = number bytes 4 2;
  header_size = number bytes 6 2;
  block_size = number bytes 8 4;
  count = number bytes 12 4;
  sequence = number bytes 16 4;
  sector0 = number bytes 20 8;
}

unfoldable pub log_entry : Bytes → ℕ → LogEntry
unfolding number
log_entry bytes offset = record {
  source = number bytes offset 8;
  dest = number bytes (offset + 8) 8;
  size = number bytes (offset + 16) 4;
  checksum = number bytes (offset + 20) 4;
}

-- `ls.magic = kPartialRestoreMagic`, and with it `ls.count = count`.
unfoldable pub mark_partial : Bytes → Bytes
unfolding write_bytes digits
mark_partial bytes = write_bytes 0 4 (digits partial_restore_magic) bytes

unfoldable pub mark_restored : ℕ → Bytes → Bytes
unfolding write_bytes digits mark_partial
mark_restored count bytes = mark_partial (write_bytes 12 4 (digits count) bytes)
