-- ===== src/EncryptInplace.antt =====
-- EncryptInplace.cpp: the I/O buffer of `InPlaceEncrypter`, and the flush of the blocks that are
-- pending in it.
pub mod Ext4
pub mod Blocks
pub mod Buffer
pub mod Process
pub mod Encrypted
pub mod Works
pub mod Bitmaps
pub mod Groups
pub mod Distinct
pub mod Used
pub mod Fits
pub mod Tests
pub mod Whole
use android_system_vold.Common.{
  ℕ, zero, suc, ◌+◌, ◌-◌, ◌*◌, ◌%◌, ◌^◌, List, [], ◌∷◌, Bool, true, false, not, ◌&&◌, ◌||◌, leb,
  ◌==◌, if◌then◌else◌, Text,
}

abbrev pub Contents : Type 0
Contents = ℕ → ℕ

-- The block device and the one that dm-crypt puts over it. A call is numbered from the start, and
-- succeeds or fails as its number, offset and size say.
pub record Device : Type 0 where
  pub opens_real : Bool
  pub opens_crypto : Bool
  pub reads : ℕ → ℕ → ℕ → Bool
  pub writes : ℕ → ℕ → ℕ → Bool
  pub syncs : Bool
  -- What the block device holds after some bytes are written through the crypto device at an
  -- offset, and after such a write fails.
  pub encrypted : ℕ → ℕ → Contents → Contents → Contents
  pub torn : ℕ → ℕ → Contents → Contents → Contents
  -- What a read through the crypto device gives.
  pub decrypted : Contents → Contents

-- A `uint64_t` or a `size_t`.
abbrev pub wrap : ℕ → ℕ
wrap n = n % 2 ^ 64

-- The members that change, with what the block device holds, the number of calls to it and the
-- counts of the progress messages, the latest first.
pub record Encrypter : Type 0 where
  pub fs_type : Text
  pub blocks_done : ℕ
  pub blocks_to_encrypt : ℕ
  pub block_size : ℕ
  pub io_buffer_size : ℕ
  pub first_pending_block : ℕ
  pub blocks_pending : ℕ
  pub real : Contents
  pub calls : ℕ
  pub messages : List ℕ

abbrev pub io_size : ℕ
io_size = 32768

abbrev pub log_interval : ℕ
log_interval = 10000

unfoldable pub round_up : ℕ → ℕ → ℕ
round_up val amount = if val % amount == 0 then val else wrap (val + (amount - val % amount))

unfoldable pub init_fs : Text → ℕ → ℕ → Encrypter → Encrypter
unfolding round_up
init_fs fs_type blocks_to_encrypt block_size e = record e {
  fs_type = fs_type;
  blocks_done = 0;
  blocks_to_encrypt = blocks_to_encrypt;
  block_size = block_size;
  io_buffer_size = round_up io_size block_size;
  first_pending_block = 0;
  blocks_pending = 0;
}

-- The count that the next message is due at, before and at the end.
unfoldable pub next_message : ℕ → ℕ → Bool → ℕ
unfolding round_up
next_message before after done =
    if done && not (after % log_interval == 0)
    then after
    else round_up (wrap (before + 1)) log_interval

unfoldable pub update_progress : ℕ → Bool → Encrypter → Encrypter
unfolding next_message
update_progress blocks done e =
    let after = wrap (e.blocks_done + blocks) in
    let due = next_message e.blocks_done after done in
    record e {
      blocks_done = after;
      messages = if leb due after then due ∷ e.messages else e.messages;
    }

-- The buffer is full, the block does not follow the pending ones, or it is aligned to the buffer.
unfoldable pub must_flush : ℕ → Encrypter → Bool
must_flush block_num e =
    (wrap (e.blocks_pending * e.block_size) == e.io_buffer_size)
    || not (block_num == wrap (e.first_pending_block + e.blocks_pending))
    || (wrap (block_num * e.block_size) % e.io_buffer_size == 0)

abbrev pub add_block : Encrypter → Encrypter
add_block e = record e { blocks_pending = wrap (e.blocks_pending + 1) }

abbrev pub start_with : ℕ → Encrypter × Bool → Encrypter × Bool
start_with block_num (e, true) = (add_block (record e { first_pending_block = block_num }), true)
start_with block_num (e, false) = (e, false)

module _ (device : Device) where
  -- The buffer holds what was read until it is written.
  unfoldable pub write_pending : ℕ → ℕ → Encrypter → Encrypter × Bool
  unfolding update_progress
  write_pending bytes offset e =
      let buffer : Contents = λ i. e.real (offset + i) in
      if device.writes (e.calls + 1) offset bytes
      then (
        record (update_progress e.blocks_pending false (record e {
          real = device.encrypted offset bytes buffer e.real;
          calls = e.calls + 2;
        })) { blocks_pending = 0 },
        true,
      )
      else (record e { real = device.torn offset bytes buffer e.real; calls = e.calls + 2 }, false)

  unfoldable pub encrypt_pending_data : Encrypter → Encrypter × Bool
  unfolding write_pending
  encrypt_pending_data e =
      let bytes = wrap (e.blocks_pending * e.block_size) in
      let offset = wrap (e.first_pending_block * e.block_size) in
      if e.blocks_pending == 0
      then (e, true)
      else (if device.reads e.calls offset bytes
          then write_pending bytes offset e
          else (record e { calls = e.calls + 1 }, false))

  unfoldable pub process_used_block : ℕ → Encrypter → Encrypter × Bool
  unfolding must_flush encrypt_pending_data
  process_used_block block_num e =
      if must_flush block_num e
      then start_with block_num (encrypt_pending_data e)
      else (add_block e, true)
