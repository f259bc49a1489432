-- ===== src/EncryptInplace/Fits.antt =====
-- The I/O buffer is never overrun, whether calls fail or not.
use android_system_vold.Common.{
  ℕ, zero, suc, ◌+◌, ◌*◌, ◌^◌, ◌≤◌, ◌<◌, ◌≡◌, refl, ap, sym, ◌∙◌, inl, inr, List, [], ◌∷◌, Bool,
  true, false, ◌==◌, Text, arith, Bool-cases, ==_iff,
}
use mathlib.Core.Path.{ap₂}
use android_system_vold.EncryptInplace.{
  Device, Encrypter, wrap, io_size, init_fs, process_used_block, encrypt_pending_data,
  write_pending, update_progress, must_flush, start_with, add_block,
}
use android_system_vold.EncryptInplace.Blocks.{round_up_multiple, le_scaled, scale_le, wrap_small}

-- What `EncryptPendingData` reads and writes fits in the buffer.
pub record Fits (e : Encrypter) : Type 0 where
  pub no_overflow : wrap (e.blocks_pending * e.block_size) ≡ e.blocks_pending * e.block_size
  pub fits : e.blocks_pending * e.block_size ≤ e.io_buffer_size

-- The calls of `ProcessUsedBlock` for some blocks, whatever each returns.
unfoldable pub process_all : Device → List ℕ → Encrypter → Encrypter
unfolding process_used_block
process_all device [] e = e
process_all device (b ∷ bs) e = process_all device bs (process_used_block device b e).0

module _ (device : Device) (size n : ℕ) (h : (0 < size) × (0 < n) × (n * size < 2 ^ 64)) where
  record Within (e : Encrypter) : Type 0 where
    sized : e.block_size ≡ size
    buffer : e.io_buffer_size ≡ n * size
    pending : e.blocks_pending ≤ n

  add_block-Within : (e : Encrypter) → Within e → e.blocks_pending < n → Within (add_block e)
  add_block-Within e w room = record {
    sized = w.sized;
    buffer = w.buffer;
    pending = omega (arith, le_scaled n size h.0, wrap_small (e.blocks_pending + 1));
  }

  encrypt_pending_data-Within :
      (e : Encrypter)
      → Within e
      → Within (encrypt_pending_data device e).0
        × ((encrypt_pending_data device e).1 ≡ true
            → (encrypt_pending_data device e).0.blocks_pending ≡ 0)
  unfolding encrypt_pending_data write_pending update_progress
  encrypt_pending_data-Within e w = ground (arith, w.sized, w.buffer, w.pending)

  start_with-Within :
      (b : ℕ) (r : Encrypter × Bool)
      → Within r.0
      → (r.1 ≡ true → r.0.blocks_pending ≡ 0)
      → Within (start_with b r).0
  start_with-Within b (e, false) w empty = w
  start_with-Within b (e, true) w empty =
      add_block-Within (record e { first_pending_block = b })
        (record { sized = w.sized; buffer = w.buffer; pending = w.pending })
        (omega (arith, empty refl, h.1))

  must_flush_full :
      (b : ℕ) (e : Encrypter) → Within e → e.blocks_pending ≡ n → must_flush b e ≡ true
  unfolding must_flush
  must_flush_full b e w full = ground (arith, same)
    where
      same : wrap (e.blocks_pending * e.block_size) ≡ e.io_buffer_size
      same =
          ap₂ (λ t u. wrap (t * u)) full w.sized
          ∙ wrap_small (n * size) (omega (arith, h.2))
          ∙ sym w.buffer

  process_used_block-Within :
      (b : ℕ) (e : Encrypter) → Within e → Within (process_used_block device b e).0
  unfolding process_used_block
  process_used_block-Within b e w = elim (Bool-cases (must_flush b e)) [
    | inl full ↦
        let flushed = encrypt_pending_data-Within e w in
        rw full (start_with-Within b (encrypt_pending_data device e) flushed.0 flushed.1)
    | inr room ↦ rw room (
        add_block-Within e w (elim (Bool-cases (e.blocks_pending == n)) [
          | inl all ↦ cc (sym room ∙ must_flush_full b e w ((==_iff _ _).0 all))
          | inr less ↦ ground (arith, w.pending)
        ]))
  ]

  process_all-Within : (bs : List ℕ) (e : Encrypter) → Within e → Within (process_all device bs e)
  unfolding process_all
  process_all-Within [] e w = w
  process_all-Within (b ∷ bs) e w =
      process_all-Within bs (process_used_block device b e).0 (process_used_block-Within b e w)

  Within-Fits : (e : Encrypter) → Within e → Fits e
  Within-Fits e w =
      let small = scale_le e.blocks_pending n size w.pending in
      let product : e.blocks_pending * e.block_size ≡ e.blocks_pending * size =
        ap (λ t. e.blocks_pending * t) w.sized in
      record {
        no_overflow =
            wrap_small (e.blocks_pending * e.block_size) (omega (arith, small, product, h.2));
        fits = omega (arith, small, product, w.buffer);
      }

-- From the start of a run on, whatever blocks come in whatever order, and whichever calls to the
-- devices fail or succeed: the bytes that are pending, which the next flush reads and writes, fit
-- in the I/O buffer, and their number does not wrap around. The block size is positive and below
-- 2^62.
pub process_all-Fits :
    (device : Device) (bs : List ℕ) (fs_type : Text) (count size : ℕ) (e : Encrypter)
    → 0 < size
    → size < 2 ^ 62
    → Fits (process_all device bs (init_fs fs_type count size e))
process_all-Fits device bs fs_type count size e positive small =
    let rounded = round_up_multiple io_size size positive (omega arith) in
    let h : (0 < size) × (0 < rounded.0) × (rounded.0 * size < 2 ^ 64) =
      (positive, some_block rounded.0 (omega (arith, rounded.2)), omega (arith, rounded.3)) in
    Within-Fits device size rounded.0 h (process_all device bs begun) (
      process_all-Within device size rounded.0 h bs begun
        (unfold init_fs in record { sized = refl; buffer = rounded.1; pending = omega arith }))
  where
    begun : Encrypter
    begun = init_fs fs_type count size e

    some_block : (j : ℕ) → 0 < j * size → 0 < j
    some_block zero p = absurd (omega (arith, p))
    some_block (suc j) p = omega arith
