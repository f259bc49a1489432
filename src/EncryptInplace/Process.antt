-- ===== src/EncryptInplace/Process.antt =====
-- What `ProcessUsedBlock` and a loop over it do to the invariant of the I/O buffer.
use mathlib.Core.Path.{ap₂}
use android_system_vold.Common.{
  ℕ, ◌+◌, ◌*◌, ◌^◌, ◌≤◌, ◌<◌, ◌≡◌, refl, sym, subst, ◌∙◌, inl, inr, List, [], ◌∷◌, Bool, true,
  false, ◌||◌, ◌==◌, arith, Bool-cases, ==_iff,
}
use android_system_vold.EncryptInplace.{
  Contents, Device, Encrypter, wrap, encrypt_pending_data, must_flush, process_used_block,
  add_block, start_with,
}
use android_system_vold.EncryptInplace.Blocks.{mem, le_scaled, succ_scaled, wrap_small}
use android_system_vold.EncryptInplace.Buffer.{
  IsCrypt, Buffered, Sizes, encrypt_pending_data-Buffered, if_succeeds,
}

module _ (device : Device) (law : IsCrypt device) (start : Contents) (k n : ℕ) (h : Sizes k n) where
  abbrev Holds : List ℕ → Encrypter → Type 0
  Holds = Buffered device law start k n

  buffer_blocks : n < 2 ^ 63
  buffer_blocks = omega (arith, h.2, le_scaled n (k * 512) (omega (arith, h.0)))

  append-Holds :
      (seen : List ℕ) (b : ℕ) (e : Encrypter)
      → Holds seen e
      → b ≡ e.first_pending_block + e.blocks_pending
      → e.blocks_pending < n
      → mem b seen ≡ false
      → (b + 1) * (k * 512) ≤ 2 ^ 63
      → Holds (b ∷ seen) (add_block e)
  append-Holds seen b e inv next room new small =
      rw (wrap_small (e.blocks_pending + 1) (omega (arith, buffer_blocks))) (record {
        sized = inv.sized;
        buffer = inv.buffer;
        fits = omega arith;
        range = subst (λ t. t * (k * 512) ≤ 2 ^ 63) (omega arith) small;
        pending_seen = λ b' p. ground (arith, inv.pending_seen b');
        crypted = λ b' i l p. inv.crypted b' i l (ground (arith, inv.pending_seen b'));
        plain = λ b' i l p. inv.plain b' i l (ground arith);
      })

  moved-Holds :
      (seen : List ℕ) (b : ℕ) (e : Encrypter)
      → Holds seen e
      → e.blocks_pending ≡ 0
      → b * (k * 512) ≤ 2 ^ 63
      → Holds seen (record e { first_pending_block = b })
  moved-Holds seen b e inv none small = record {
    sized = inv.sized;
    buffer = inv.buffer;
    fits = inv.fits;
    range = subst (λ t. t * (k * 512) ≤ 2 ^ 63) (omega arith) small;
    pending_seen = λ b' p. ground arith;
    crypted = λ b' i l p. inv.crypted b' i l (ground arith);
    plain = λ b' i l p. inv.plain b' i l (ground arith);
  }

  start_with-Holds :
      (seen : List ℕ) (b : ℕ) (r : Encrypter × Bool)
      → (r.1 ≡ true → Holds seen r.0 × (r.0.blocks_pending ≡ 0))
      → mem b seen ≡ false
      → (b + 1) * (k * 512) ≤ 2 ^ 63
      → (start_with b r).1 ≡ true
      → Holds (b ∷ seen) (start_with b r).0
  start_with-Holds seen b (e, false) inv new small ran = cc
  start_with-Holds seen b (e, true) inv new small ran =
      let emptied = inv refl in
      append-Holds seen b (record e { first_pending_block = b })
        (moved-Holds seen b e emptied.0 emptied.1 (omega (arith, small, succ_scaled b (k * 512))))
        (omega (arith, emptied.1)) (omega (arith, emptied.1, h.1)) new small

  -- A block that needs no flush follows the pending ones, and fits.
  next_block :
      (seen : List ℕ) (b : ℕ) (e : Encrypter)
      → Holds seen e
      → must_flush b e ≡ false
      → (b ≡ e.first_pending_block + e.blocks_pending) × (e.blocks_pending < n)
  unfolding must_flush
  next_block seen b e inv kept = (
    ground (arith, wrap_small (e.first_pending_block + e.blocks_pending) below),
    elim (Bool-cases (e.blocks_pending == n)) [
      | inl full ↦ absurd (differs ((==_iff _ _).0 full))
      | inr room ↦ ground (arith, inv.fits)
    ],
  )
    where
      below : e.first_pending_block + e.blocks_pending < 2 ^ 64
      below = omega (
        arith,
        inv.range,
        le_scaled (e.first_pending_block + e.blocks_pending) (k * 512) (omega (arith, h.0)),
      )

      size_full : e.blocks_pending ≡ n → wrap (e.blocks_pending * e.block_size) ≡ e.io_buffer_size
      size_full full =
          ap₂ (λ t u. wrap (t * u)) full inv.sized
          ∙ wrap_small (n * (k * 512)) (omega (arith, h.2))
          ∙ sym inv.buffer

      differs : e.blocks_pending ≡ n → ⊥
      differs full = ground (arith, size_full full)

  pub process_used_block-Holds :
      (seen : List ℕ) (b : ℕ) (e : Encrypter)
      → Holds seen e
      → mem b seen ≡ false
      → (b + 1) * (k * 512) ≤ 2 ^ 63
      → (process_used_block device b e).1 ≡ true
      → Holds (b ∷ seen) (process_used_block device b e).0
  unfolding process_used_block
  process_used_block-Holds seen b e inv new small =
      if_succeeds (Holds (b ∷ seen)) (must_flush b e) _ _
        (λ _.
          start_with-Holds seen b (encrypt_pending_data device e)
            (encrypt_pending_data-Buffered device law start k n h seen e inv) new small)
        (λ kept _.
          let next = next_block seen b e inv kept in
          append-Holds seen b e inv next.0 next.1 new small)

-- A loop that calls a function on each block in order, and stops at the first that fails.
abbrev pub each : (ℕ → Encrypter → Encrypter × Bool) → List ℕ → Encrypter → Encrypter × Bool
each f [] e = (e, true)
each f (b ∷ bs) e = elim ((f b e).1) [ true ↦ each f bs (f b e).0 | false ↦ ((f b e).0, false) ]

-- The blocks are distinct, and they lie in the first 2^63 bytes.
abbrev pub Fresh : ℕ → List ℕ → List ℕ → Type 0
Fresh size seen [] = Unit {0}
Fresh size seen (b ∷ bs) =
    (mem b seen ≡ false) × ((b + 1) * size ≤ 2 ^ 63) × Fresh size (b ∷ seen) bs

abbrev pub gather : List ℕ → List ℕ → List ℕ
gather seen [] = seen
gather seen (b ∷ bs) = gather (b ∷ seen) bs

pub mem-gather : (b : ℕ) (seen bs : List ℕ) → mem b (gather seen bs) ≡ (mem b bs || mem b seen)
mem-gather b seen [] = refl
mem-gather b seen (c ∷ bs) = ground (arith, mem-gather b (c ∷ seen) bs)

module _ (device : Device) (law : IsCrypt device) (start : Contents) (k n : ℕ) (h : Sizes k n) where
  pub each-Holds :
      (seen bs : List ℕ) (e : Encrypter)
      → Buffered device law start k n seen e
      → Fresh (k * 512) seen bs
      → (each (process_used_block device) bs e).1 ≡ true
      → Buffered device law start k n (gather seen bs) (each (process_used_block device) bs e).0
  each-Holds seen [] e inv fresh = λ _. inv
  each-Holds seen (b ∷ bs) e inv fresh = elim (Bool-cases ((process_used_block device b e).1)) [
    | inl on ↦
        rw (on, each)
          (each-Holds (b ∷ seen) bs (process_used_block device b e).0
            (process_used_block-Holds device law start k n h seen b e inv fresh.0 fresh.1 on)
            fresh.2)
    | inr off ↦ rw (off, each) (λ ran. cc ran)
  ]
