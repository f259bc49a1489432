-- ===== src/EncryptInplace/Encrypted.antt =====
-- What a successful run of `encrypt_inplace` leaves on the device.
use android_system_vold.Common.{
  ℕ, zero, suc, ◌+◌, ◌*◌, ◌^◌, ◌≤◌, ◌<◌, ◌≡◌, refl, subst, ◌∙◌, inl, inr, Option, none, some, List,
  [], ◌∷◌, Bool, true, false, not, ◌&&◌, ltb, leb, Text, codes, arith, Bool-cases,
}
use android_system_vold.EncryptInplace.{
  Contents, Device, Encrypter, init_fs, process_used_block, update_progress, io_size, round_up,
}
use android_system_vold.EncryptInplace.Ext4.{Ext4, encrypt_in_place_ext4}
use android_system_vold.EncryptInplace.Whole.{
  F2fs, process_sectors, encrypt_in_place_f2fs, encrypt_full_device, do_encrypt_in_place,
  flush_if_done, finish, encrypt_in_place, error_of, result_or,
}
use android_system_vold.EncryptInplace.Blocks.{mem, round_up_multiple, scale_le}
use android_system_vold.EncryptInplace.Buffer.{
  IsCrypt, Buffered, Sizes, encrypt_pending_data-Buffered, if_succeeds,
}
use android_system_vold.EncryptInplace.Process.{each, Fresh, gather, mem-gather, each-Holds}

-- The used blocks read back through the crypto device as they were, and no byte of another block
-- changed.
pub record IsEncrypted (device : Device) (size : ℕ) (used : ℕ → Bool) (start final : Contents)
    : Type 0 where
  pub readable :
      (b i : ℕ)
      → i < size
      → used b ≡ true
      → device.decrypted final (b * size + i) ≡ start (b * size + i)
  pub untouched :
      (b i : ℕ) → i < size → used b ≡ false → final (b * size + i) ≡ start (b * size + i)

-- The loop over the sectors is a loop over a list.
pub from : ℕ → ℕ → List ℕ
from zero i = []
from (suc n) i = i ∷ from n (suc i)

pub process_sectors-each :
    (device : Device) (m i : ℕ) (e : Encrypter)
    → process_sectors device m i e ≡ each (process_used_block device) (from m i) e
unfolding process_sectors from
process_sectors-each device zero i e = refl
process_sectors-each device (suc m) i e = elim (Bool-cases ((process_used_block device i e).1)) [
  | inl on ↦
      rw (on, process_sectors, each)
        (process_sectors-each device m (suc i) (process_used_block device i e).0)
  | inr off ↦ rw (off, process_sectors, each) refl
]

mem-from : (b m i : ℕ) → mem b (from m i) ≡ (leb i b && ltb b (i + m))
unfolding from
mem-from b zero i = ground arith
mem-from b (suc m) i = ground (arith, mem-from b m (suc i))

module _ (device : Device) (law : IsCrypt device) (k : ℕ)
    (sized : (0 < k) × (k * 512 < 2 ^ 62)) where
  -- What a run that has the blocks `bs` processed starts and ends with.
  pub init_blocks : (n : ℕ) × (round_up io_size (k * 512) ≡ n * (k * 512)) × Sizes k n
  init_blocks =
      let rounded =
        round_up_multiple io_size (k * 512) (omega (arith, sized.0)) (omega (arith, sized.1)) in
      (
        rounded.0,
        rounded.1,
        (sized.0, positive rounded.0 (omega (arith, rounded.2)), omega (arith, rounded.3, sized.1)),
      )
    where
      positive : (j : ℕ) → 0 < j * (k * 512) → 0 < j
      positive zero p = absurd (omega (arith, p))
      positive (suc j) p = omega arith

  pub init_fs-Buffered :
      (fs_type : Text) (count : ℕ) (e : Encrypter)
      → Buffered device law e.real k init_blocks.0 [] (init_fs fs_type count (k * 512) e)
  unfolding init_fs
  init_fs-Buffered fs_type count e = record {
    sized = refl;
    buffer = init_blocks.1;
    fits = omega arith;
    range = omega arith;
    pending_seen = λ b p. ground arith;
    crypted = λ b i l p. cc p;
    plain = λ b i l p. refl;
  }

  pub flush-IsEncrypted :
      (start : Contents) (n : ℕ) (bs : List ℕ) (r : Encrypter × Bool)
      → Sizes k n
      → (r.1 ≡ true → Buffered device law start k n (gather [] bs) r.0)
      → (flush_if_done device r).1 ≡ true
      → IsEncrypted device (k * 512) (λ b. mem b bs) start (flush_if_done device r).0.real
  flush-IsEncrypted start n bs (e, false) h inv = λ ran. cc ran
  flush-IsEncrypted start n bs (e, true) h inv = λ ran.
      let flushed =
        encrypt_pending_data-Buffered device law start k n h (gather [] bs) e (inv refl) ran in
      record {
        readable =
            λ b i l u. flushed.0.crypted b i l (ground (arith, mem-gather b [] bs, flushed.1));
        untouched =
            λ b i l u. flushed.0.plain b i l (ground (arith, mem-gather b [] bs, flushed.1));
      }

  from-Fresh :
      (m i : ℕ) (seen : List ℕ)
      → ((b : ℕ) → i ≤ b → mem b seen ≡ false)
      → (i + m) * (k * 512) ≤ 2 ^ 63
      → Fresh (k * 512) seen (from m i)
  unfolding from
  from-Fresh zero i seen new small = tt
  from-Fresh (suc m) i seen new small = (
    new i (omega arith),
    omega (arith, small, scale_le (i + 1) (i + suc m) (k * 512) (omega arith)),
    from-Fresh m (suc i) (i ∷ seen) (λ b after. ground (arith, new b))
        (subst (λ t. t * (k * 512) ≤ 2 ^ 63) (omega arith) small),
  )

  -- A run over some blocks, from the initial state to the last flush.
  blocks-IsEncrypted :
      (fs_type : Text) (count : ℕ) (bs : List ℕ) (e : Encrypter)
      → Fresh (k * 512) [] bs
      → (flush_if_done device
          (each (process_used_block device) bs (init_fs fs_type count (k * 512) e))).1
        ≡ true
      → IsEncrypted device
          (k * 512)
          (λ b. mem b bs)
          e.real
          (flush_if_done device
            (each (process_used_block device) bs (init_fs fs_type count (k * 512) e))).0.real
  blocks-IsEncrypted fs_type count bs e fresh =
      flush-IsEncrypted e.real init_blocks.0 bs
        (each (process_used_block device) bs (init_fs fs_type count (k * 512) e)) init_blocks.2
        (each-Holds device law e.real k init_blocks.0 init_blocks.2 [] bs
          (init_fs fs_type count (k * 512) e) (init_fs-Buffered fs_type count e) fresh)

-- The last steps keep what is on the device, and fail if the run has failed.
finish_kept :
    (device : Device) (P : Contents → Type 0) (r : Encrypter × Bool)
    → (r.1 ≡ true → P r.0.real)
    → (finish device r).1 ≡ true
    → P (finish device r).0.real
unfolding update_progress
finish_kept device P (e, false) h = λ ran. cc ran
finish_kept device P (e, true) h = elim (Bool-cases device.syncs) [
  | inl synced ↦ rw (synced, finish) (λ _. h refl)
  | inr lost ↦ rw (lost, finish) (λ ran. cc ran)
]

pub opened :
    (device : Device) (P : Contents → Type 0) (ext4 : Option Ext4) (f2fs : Option F2fs) (nr_sec : ℕ)
    (e : Encrypter)
    → ((flush_if_done device (do_encrypt_in_place device ext4 f2fs nr_sec e)).1 ≡ true
        → P (flush_if_done device (do_encrypt_in_place device ext4 f2fs nr_sec e)).0.real)
    → (encrypt_in_place device ext4 f2fs nr_sec e).1 ≡ true
    → P (encrypt_in_place device ext4 f2fs nr_sec e).0.real
unfolding encrypt_in_place
opened device P ext4 f2fs nr_sec e h =
    if_succeeds (λ e'. P e'.real) (not device.opens_real) _ _ (λ _ ran. cc ran)
      (λ _.
        if_succeeds (λ e'. P e'.real) (not device.opens_crypto) _ _ (λ _ ran. cc ran)
          (λ _.
            finish_kept device P
              (flush_if_done device (do_encrypt_in_place device ext4 f2fs nr_sec e)) h))

-- Where no file system is found, a run that succeeds has encrypted the whole device: every byte of
-- the `nr_sec` sectors reads back through the crypto device as it was, and no byte after them
-- changes.
pub encrypt_full_device-IsEncrypted :
    (device : Device) (nr_sec : ℕ) (e : Encrypter)
    → IsCrypt device
    → nr_sec * 512 ≤ 2 ^ 63
    → (encrypt_in_place device none none nr_sec e).1 ≡ true
    → IsEncrypted device 512
        (λ b. ltb b nr_sec)
        e.real
        (encrypt_in_place device none none nr_sec e).0.real
unfolding do_encrypt_in_place encrypt_in_place_ext4 encrypt_in_place_f2fs encrypt_full_device
encrypt_full_device-IsEncrypted device nr_sec e law small =
    opened device (IsEncrypted device 512 (λ b. ltb b nr_sec) e.real) none none nr_sec e (
      rw (process_sectors-each device nr_sec 0 (init_fs (codes "") nr_sec 512 e)) (λ ran. below (
        blocks-IsEncrypted device law 1 (omega arith) (codes "") nr_sec (from nr_sec 0) e
          (from-Fresh device law 1 (omega arith) nr_sec 0 [] (λ b _. refl) (omega arith)) ran)))
  where
    below :
        {final : Contents}
        → IsEncrypted device 512 (λ b. mem b (from nr_sec 0)) e.real final
        → IsEncrypted device 512 (λ b. ltb b nr_sec) e.real final
    below i = record {
      readable = λ b j l u. i.readable b j l (mem-from b nr_sec 0 ∙ ground (arith, u));
      untouched = λ b j l u. i.untouched b j l (mem-from b nr_sec 0 ∙ ground (arith, u));
    }

-- What `run_on_used_blocks` does: it calls the function on each used block in order, and stops at
-- the first call that fails.
abbrev pub RunsOver : F2fs → List ℕ → Type 0
RunsOver fs_info bs =
    (f : ℕ → Encrypter → Encrypter × Bool) (e : Encrypter)
    → fs_info.run_on_used_blocks f e ≡ each f bs e

f2fs_run :
    (device : Device) (fs_info : F2fs) (bs : List ℕ) (nr_sec : ℕ) (e : Encrypter)
    → RunsOver fs_info bs
    → do_encrypt_in_place device none (some fs_info) nr_sec e
      ≡ each
          (process_used_block device)
          bs
          (init_fs (codes "f2fs") fs_info.num_blocks_used fs_info.block_size e)
unfolding do_encrypt_in_place encrypt_in_place_ext4 encrypt_in_place_f2fs
f2fs_run device fs_info bs nr_sec e runs =
    rw
      (runs (process_used_block device)
        (init_fs (codes "f2fs") fs_info.num_blocks_used fs_info.block_size e))
      (go (
        each (process_used_block device) bs
          (init_fs (codes "f2fs") fs_info.num_blocks_used fs_info.block_size e)))
  where
    go :
        (r : Encrypter × Bool)
        → result_or (r.0, error_of r.1) (encrypt_full_device device nr_sec) ≡ r
    go (e', true) = refl
    go (e', false) = refl

-- On an f2fs file system a run that succeeds has encrypted exactly the used blocks, whatever order
-- and gaps they come in: every byte of them reads back through the crypto device as it was, and no
-- byte of another block changes. The block size is a number of sectors, and the used blocks are
-- distinct and lie in the first 2^63 bytes.
pub encrypt_in_place_f2fs-IsEncrypted :
    (device : Device) (fs_info : F2fs) (bs : List ℕ) (k nr_sec : ℕ) (e : Encrypter)
    → IsCrypt device
    → RunsOver fs_info bs
    → fs_info.block_size ≡ k * 512
    → (0 < k) × (k * 512 < 2 ^ 62)
    → Fresh (k * 512) [] bs
    → (encrypt_in_place device none (some fs_info) nr_sec e).1 ≡ true
    → IsEncrypted device
        (k * 512)
        (λ b. mem b bs)
        e.real
        (encrypt_in_place device none (some fs_info) nr_sec e).0.real
encrypt_in_place_f2fs-IsEncrypted device fs_info bs k nr_sec e law runs size sized fresh =
    opened device (IsEncrypted device (k * 512) (λ b. mem b bs) e.real) none (some fs_info) nr_sec e
      (rw (f2fs_run device fs_info bs nr_sec e runs, size)
        (blocks-IsEncrypted device law k sized (codes "f2fs") fs_info.num_blocks_used bs e fresh))
