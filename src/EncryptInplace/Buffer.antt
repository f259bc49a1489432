-- ===== src/EncryptInplace/Buffer.antt =====
-- The invariant of the I/O buffer: which blocks are encrypted and which are pending.
use android_system_vold.Common.{
  ℕ, ◌+◌, ◌-◌, ◌*◌, ◌%◌, ◌^◌, ◌≤◌, ◌<◌, ◌≡◌, refl, ◌⊎◌, inl, inr, List, Bool, true, false, not, ap,
  ◌∙◌, ◌&&◌, ltb, leb, ◌==◌, if◌then◌else◌, arith, Bool-cases, ==_iff,
}
use android_system_vold.EncryptInplace.{
  Contents, Device, Encrypter, wrap, encrypt_pending_data, write_pending, update_progress,
}
use android_system_vold.EncryptInplace.Blocks.{
  mem, byte_before, byte_after, byte_within, sectors_of, scale_le,
}

-- A write of whole sectors through the crypto device is what a later read through it gives; other
-- bytes stay as they are, read through it or not.
pub record IsCrypt (device : Device) : Type 0 where
  pub written :
      (offset size : ℕ) (buffer real : Contents) (x : ℕ)
      → offset % 512 ≡ 0
      → size % 512 ≡ 0
      → offset ≤ x
      → x < offset + size
      → device.decrypted (device.encrypted offset size buffer real) x ≡ buffer (x - offset)
  pub apart :
      (offset size : ℕ) (buffer real : Contents) (x : ℕ)
      → offset % 512 ≡ 0
      → size % 512 ≡ 0
      → (x < offset) ⊎ (offset + size ≤ x)
      → (device.decrypted (device.encrypted offset size buffer real) x ≡ device.decrypted real x)
        × (device.encrypted offset size buffer real x ≡ real x)

abbrev pub is_pending : ℕ → Encrypter → Bool
is_pending b e = leb e.first_pending_block b && ltb b (e.first_pending_block + e.blocks_pending)

abbrev pub Sizes : ℕ → ℕ → Type 0
Sizes k n = (0 < k) × (0 < n) × (n * (k * 512) < 2 ^ 63)

-- What holds of the state after a test, if the branch taken succeeds.
pub if_succeeds :
    (P : Encrypter → Type 0) (b : Bool) (x y : Encrypter × Bool)
    → (b ≡ true → x.1 ≡ true → P x.0)
    → (b ≡ false → y.1 ≡ true → P y.0)
    → (if b then x else y).1 ≡ true
    → P (if b then x else y).0
if_succeeds P true x y f g = f refl
if_succeeds P false x y f g = g refl

module _ (device : Device) (law : IsCrypt device) (start : Contents) (k n : ℕ) where
  -- Blocks of `k` sectors, a buffer of `n` blocks, and the blocks that were processed.
  pub record Buffered (seen : List ℕ) (e : Encrypter) : Type 0 where
    pub sized : e.block_size ≡ k * 512
    pub buffer : e.io_buffer_size ≡ n * (k * 512)
    pub fits : e.blocks_pending ≤ n
    pub range : (e.first_pending_block + e.blocks_pending) * (k * 512) ≤ 2 ^ 63
    pub pending_seen : (b : ℕ) → is_pending b e ≡ true → mem b seen ≡ true
    pub crypted :
        (b i : ℕ)
        → i < k * 512
        → (mem b seen && not (is_pending b e)) ≡ true
        → device.decrypted e.real (b * (k * 512) + i) ≡ start (b * (k * 512) + i)
    pub plain :
        (b i : ℕ)
        → i < k * 512
        → (mem b seen && not (is_pending b e)) ≡ false
        → e.real (b * (k * 512) + i) ≡ start (b * (k * 512) + i)

  -- Bytes of a block after a flush.
  module _ (h : Sizes k n) (seen : List ℕ) (e : Encrypter) (inv : Buffered seen e) where
    offset : ℕ
    offset = e.first_pending_block * (k * 512)

    size : ℕ
    size = e.blocks_pending * (k * 512)

    flushed : Contents
    unfolding offset size
    flushed = device.encrypted offset size (λ i. e.real (offset + i)) e.real

    flushed_pending :
        (b i : ℕ)
        → i < k * 512
        → is_pending b e ≡ true
        → device.decrypted flushed (b * (k * 512) + i) ≡ start (b * (k * 512) + i)
    unfolding flushed offset size
    flushed_pending b i l p =
        let within =
          byte_within b e.first_pending_block e.blocks_pending i (k * 512) l (ground arith)
            (ground arith) in
        law.written offset size _ e.real (b * (k * 512) + i) (sectors_of _ k) (sectors_of _ k)
          within.0 within.1
        ∙ ap e.real (omega (arith, within.0))
        ∙ inv.plain b i l (ground arith)

    flushed_apart :
        (b i : ℕ)
        → i < k * 512
        → is_pending b e ≡ false
        → (device.decrypted flushed (b * (k * 512) + i)
            ≡ device.decrypted e.real (b * (k * 512) + i))
          × (flushed (b * (k * 512) + i) ≡ e.real (b * (k * 512) + i))
    unfolding flushed offset size
    flushed_apart b i l p =
        law.apart offset size _ e.real (b * (k * 512) + i) (sectors_of _ k) (sectors_of _ k)
          (elim (Bool-cases (leb e.first_pending_block b)) [
            | inl after ↦
                inr (byte_after b e.first_pending_block e.blocks_pending i (k * 512) (ground arith))
            | inr before ↦ inl (byte_before b e.first_pending_block i (k * 512) l (ground arith))
          ])

    abbrev after_flush : Encrypter
    after_flush =
        record (update_progress e.blocks_pending false
          (record e { real = flushed; calls = e.calls + 2 })) { blocks_pending = 0 }

    after_flush_bytes :
        (b i : ℕ)
        → i < k * 512
        → (mem b seen ≡ true
            → device.decrypted flushed (b * (k * 512) + i) ≡ start (b * (k * 512) + i))
          × (mem b seen ≡ false → flushed (b * (k * 512) + i) ≡ start (b * (k * 512) + i))
    after_flush_bytes b i l = elim (Bool-cases (is_pending b e)) [
      | inl p ↦ (λ _. flushed_pending b i l p, λ m. cc (inv.pending_seen b p))
      | inr p ↦ (
        λ m. (flushed_apart b i l p).0 ∙ inv.crypted b i l (ground arith),
        λ m. (flushed_apart b i l p).1 ∙ inv.plain b i l (ground arith),
      )
    ]

    after_flush-Buffered : Buffered seen after_flush
    unfolding update_progress
    after_flush-Buffered = record {
      sized = inv.sized;
      buffer = inv.buffer;
      fits = omega arith;
      range = omega (
        arith,
        inv.range,
        scale_le e.first_pending_block (e.first_pending_block + e.blocks_pending) (k * 512)
            (omega arith),
      );
      pending_seen = λ b p. ground arith;
      crypted = λ b i l p. (after_flush_bytes b i l).0 (ground arith);
      plain = λ b i l p. (after_flush_bytes b i l).1 (ground arith);
    }

    wrap-offset : wrap (e.first_pending_block * e.block_size) ≡ offset
    unfolding offset
    wrap-offset = rw inv.sized (
        omega (
          arith,
          inv.range,
          scale_le e.first_pending_block (e.first_pending_block + e.blocks_pending) (k * 512)
              (omega arith),
        ))

    wrap-size : wrap (e.blocks_pending * e.block_size) ≡ size
    unfolding size
    wrap-size = rw inv.sized (
        omega (
          arith,
          inv.range,
          scale_le e.blocks_pending (e.first_pending_block + e.blocks_pending) (k * 512)
              (omega arith),
        ))

    pub encrypt_pending_data-Buffered :
        (encrypt_pending_data device e).1 ≡ true
        → Buffered seen (encrypt_pending_data device e).0
          × ((encrypt_pending_data device e).0.blocks_pending ≡ 0)
    unfolding encrypt_pending_data write_pending offset size flushed
    encrypt_pending_data-Buffered =
        rw (wrap-offset, wrap-size)
          (if_succeeds Emptied (e.blocks_pending == 0) _ _ (λ empty _. (inv, (==_iff _ _).0 empty))
            (λ _.
              if_succeeds Emptied (device.reads e.calls offset size) _ _
                (λ _.
                  if_succeeds Emptied (device.writes (e.calls + 1) offset size) _ _
                    (λ _ _. (after_flush-Buffered, refl)) (λ _ r. cc r))
                (λ _ r. cc r)))
      where
        Emptied : Encrypter → Type 0
        Emptied e' = Buffered seen e' × (e'.blocks_pending ≡ 0)
