-- ===== src/EncryptInplace/Bitmaps.antt =====
-- The blocks that the bitmaps of an ext4 file system mark as used, and a run that encrypts them.
use android_system_vold.Common.{
  ℕ, zero, suc, ◌+◌, ◌*◌, ◌^◌, ◌≤◌, ◌<◌, ◌≡◌, refl, ap, sym, subst, ◌∙◌, inl, inr, Option, some,
  List, [], ◌∷◌, ◌++◌, Bool, true, false, ◌||◌, if◌then◌else◌, codes, Bool-cases, arith,
}
use android_system_vold.EncryptInplace.{
  Contents, Device, Encrypter, wrap, io_size, round_up, init_fs, process_used_block,
}
use android_system_vold.EncryptInplace.Ext4.{
  Ext4, process_group, process_groups, read_block_bitmap, block_count, first_block_in_group,
  count_blocks,
}
use android_system_vold.EncryptInplace.Whole.{F2fs, encrypt_in_place}
use android_system_vold.EncryptInplace.Blocks.{mem, wrap_small, succ_scaled}
use android_system_vold.EncryptInplace.Buffer.{IsCrypt, Buffered, Sizes}
use android_system_vold.EncryptInplace.Process.{each, Fresh, gather, each-Holds}
use android_system_vold.EncryptInplace.Encrypted.{
  IsEncrypted, opened, init_blocks, init_fs-Buffered, flush-IsEncrypted,
}
use android_system_vold.EncryptInplace.Works.{
  IsFaultless, process_used_block_works, each_works, read_block_bitmap_works, opened_works,
  ext4_run,
}

module _ (info : Ext4) where
  -- The blocks of a group that the loop encrypts.
  unfoldable pub marked : ℕ → ℕ → Bool → Contents → ℕ → List ℕ
  marked zero i uninit bitmap first = []
  marked (suc m) i uninit bitmap first =
      if uninit || info.get_bit bitmap i
      then wrap (first + i) ∷ marked m (suc i) uninit bitmap first
      else marked m (suc i) uninit bitmap first

  -- The bitmap of a group.
  abbrev pub bitmap_of : Contents → ℕ → Contents
  bitmap_of contents group i = contents ((info.bg_desc group).bg_block_bitmap * info.block_size + i)

  unfoldable pub in_group : Contents → ℕ → List ℕ
  unfolding marked
  in_group contents group =
      marked (block_count info group) 0 (info.bg_desc group).uninit (bitmap_of contents group)
        (first_block_in_group info group)

  -- The used blocks of the groups from a group on.
  unfoldable pub used_blocks : Contents → ℕ → ℕ → List ℕ
  unfolding in_group
  used_blocks contents zero group = []
  used_blocks contents (suc m) group = in_group contents group ++ used_blocks contents m (suc group)

  -- No bitmap lies in a used block of an earlier group, and all lie in the first 2^63 bytes.
  abbrev pub BitmapsAhead : Contents → List ℕ → ℕ → ℕ → Type 0
  BitmapsAhead contents seen zero group = Unit {0}
  BitmapsAhead contents seen (suc m) group =
      (mem (info.bg_desc group).bg_block_bitmap seen ≡ false)
      × (((info.bg_desc group).bg_block_bitmap + 1) * info.block_size ≤ 2 ^ 63)
      × BitmapsAhead contents (gather seen (in_group contents group)) m (suc group)

  -- What `bitmap_get_bit` depends on: the bytes of the bitmap's block.
  abbrev pub ReadsBlock : Type 0
  ReadsBlock =
      (c d : Contents) (i : ℕ)
      → ((j : ℕ) → j < info.block_size → c j ≡ d j)
      → info.get_bit c i ≡ info.get_bit d i

  marked-eq :
      (m i : ℕ) (uninit : Bool) (c d : Contents) (first : ℕ)
      → ReadsBlock
      → ((j : ℕ) → j < info.block_size → c j ≡ d j)
      → marked m i uninit c first ≡ marked m i uninit d first
  unfolding marked
  marked-eq zero i uninit c d first reads same = refl
  marked-eq (suc m) i uninit c d first reads same =
      rw (reads c d i same, marked-eq m (suc i) uninit c d first reads same) refl

  process_group-each :
      (device : Device) (m i : ℕ) (uninit : Bool) (bitmap : Contents) (first : ℕ) (e : Encrypter)
      → IsFaultless device
      → process_group info device m i uninit bitmap first e
        ≡ (each (process_used_block device) (marked m i uninit bitmap first) e).0
  unfolding process_group marked
  process_group-each device zero i uninit bitmap first e works = refl
  process_group-each device (suc m) i uninit bitmap first e works =
      elim (Bool-cases (uninit || info.get_bit bitmap i)) [
        | inl used ↦
            rw (used, each, process_used_block_works device works (wrap (first + i)) e)
              (process_group-each device m (suc i) uninit bitmap first
                (process_used_block device (wrap (first + i)) e).0 works)
        | inr free ↦ rw free (process_group-each device m (suc i) uninit bitmap first e works)
      ]

Fresh-append :
    (size : ℕ) (seen xs ys : List ℕ)
    → Fresh size seen (xs ++ ys)
    → Fresh size seen xs × Fresh size (gather seen xs) ys
Fresh-append size seen [] ys h = (tt, h)
Fresh-append size seen (x ∷ xs) ys h =
    let rest = Fresh-append size (x ∷ seen) xs ys h.2 in ((h.0, h.1, rest.0), rest.1)

gather-append : (seen xs ys : List ℕ) → gather seen (xs ++ ys) ≡ gather (gather seen xs) ys
gather-append seen [] ys = refl
gather-append seen (x ∷ xs) ys = gather-append (x ∷ seen) xs ys

module _ (device : Device) (law : IsCrypt device) (works : IsFaultless device) (info : Ext4)
    (reads : ReadsBlock info) (k n : ℕ) (h : Sizes k n) (size : info.block_size ≡ k * 512)
    (start : Contents) where
  abbrev Holds : List ℕ → Encrypter → Type 0
  Holds = Buffered device law start k n

  bitmap_kept :
      (seen : List ℕ) (b : ℕ) (e : Encrypter)
      → Holds seen e
      → mem b seen ≡ false
      → (b + 1) * info.block_size ≤ 2 ^ 63
      → (j : ℕ) → j < info.block_size
      → e.real (wrap (b * info.block_size) + j) ≡ start (b * info.block_size + j)
  bitmap_kept seen b e inv ahead small j l =
      rw (wrap_small (b * info.block_size) (omega (arith, small, succ_scaled b info.block_size))) (
        subst (λ s. (i : ℕ) → i < s → e.real (b * s + i) ≡ start (b * s + i)) (sym size)
          (λ i l'. inv.plain b i l' (ground (arith, ahead))) j l)

  after_read :
      (seen : List ℕ) (group : ℕ) (e : Encrypter)
      → Holds seen e
      → Holds seen (read_block_bitmap info device group e).0
  unfolding read_block_bitmap
  after_read seen group e inv = record {
    sized = inv.sized;
    buffer = inv.buffer;
    fits = inv.fits;
    range = inv.range;
    pending_seen = inv.pending_seen;
    crypted = inv.crypted;
    plain = inv.plain;
  }

  -- A group's blocks are those that the original bitmap marks.
  group_lem :
      (seen : List ℕ) (group : ℕ) (e : Encrypter)
      → Holds seen e
      → mem (info.bg_desc group).bg_block_bitmap seen ≡ false
      → ((info.bg_desc group).bg_block_bitmap + 1) * info.block_size ≤ 2 ^ 63
      → process_group info device
          (block_count info group)
          0
          (info.bg_desc group).uninit
          (λ i. e.real (wrap ((info.bg_desc group).bg_block_bitmap * info.block_size) + i))
          (first_block_in_group info group)
          (read_block_bitmap info device group e).0
        ≡ (each
            (process_used_block device)
            (in_group info start group)
            (read_block_bitmap info device group e).0).0
  unfolding in_group
  group_lem seen group e inv ahead small =
      process_group-each info device (block_count info group) 0 (info.bg_desc group).uninit _
        (first_block_in_group info group) (read_block_bitmap info device group e).0 works
      ∙ ap (λ bs. (each (process_used_block device) bs (read_block_bitmap info device group e).0).0)
          (marked-eq info (block_count info group) 0 (info.bg_desc group).uninit _
            (bitmap_of info start group) (first_block_in_group info group) reads
            (bitmap_kept seen (info.bg_desc group).bg_block_bitmap e inv ahead small))

  process_groups-Holds :
      (m group : ℕ) (seen : List ℕ) (e : Encrypter)
      → Holds seen e
      → Fresh (k * 512) seen (used_blocks info start m group)
      → BitmapsAhead info start seen m group
      → Holds
          (gather seen (used_blocks info start m group))
          (process_groups info device m group e).0
  unfolding used_blocks process_groups
  process_groups-Holds zero group seen e inv fresh ahead = inv
  process_groups-Holds (suc m) group seen e inv fresh ahead =
      let blocks = in_group info start group in
      let later = used_blocks info start m (suc group) in
      let read = (read_block_bitmap info device group e).0 in
      let parts = Fresh-append (k * 512) seen blocks later fresh in
      rw
        (
          read_block_bitmap_works device works info group e,
          process_groups,
          group_lem seen group e inv ahead.0 ahead.1,
          gather-append seen blocks later,
        )
        (process_groups-Holds m (suc group) (gather seen blocks)
          (each (process_used_block device) blocks read).0
          (each-Holds device law start k n h seen blocks read (after_read seen group e inv) parts.0
            (each_works device works blocks read))
          parts.1 ahead.2)

-- A run without a failing call encrypts the blocks that its loops pick.
pub encrypt_in_place_ext4-used_blocks :
    (device : Device) (info : Ext4) (f2fs : Option F2fs) (k nr_sec : ℕ) (e : Encrypter)
    → IsCrypt device
    → IsFaultless device
    → ReadsBlock info
    → info.block_size ≡ k * 512
    → (0 < k) × (k * 512 < 2 ^ 62)
    → Fresh (k * 512) [] (used_blocks info e.real info.groups 0)
    → BitmapsAhead info e.real [] info.groups 0
    → ((encrypt_in_place device (some info) f2fs nr_sec e).1 ≡ true)
      × IsEncrypted device
          (k * 512)
          (λ b. mem b (used_blocks info e.real info.groups 0))
          e.real
          (encrypt_in_place device (some info) f2fs nr_sec e).0.real
encrypt_in_place_ext4-used_blocks device info f2fs k nr_sec e law works reads size sized fresh
      ahead =
    let ran =
      opened_works device works (some info) f2fs nr_sec e
        (ap (λ r. r.1) (ext4_run device works info f2fs nr_sec e)) in
    (
      ran,
      opened device (IsEncrypted device (k * 512) (λ b. mem b used) e.real) (some info) f2fs nr_sec
          e
          (rw (ext4_run device works info f2fs nr_sec e) (
            flush-IsEncrypted device law k sized e.real blocks.0 used
              ((process_groups info device info.groups 0 begun).0, true) blocks.2 (λ _. done)))
          ran,
    )
  where
    used : List ℕ
    used = used_blocks info e.real info.groups 0

    blocks : (n : ℕ) × (round_up io_size (k * 512) ≡ n * (k * 512)) × Sizes k n
    blocks = init_blocks device law k sized

    begun : Encrypter
    begun = init_fs (codes "ext4") (count_blocks info info.groups 0 0) info.block_size e

    done :
        Buffered device law e.real k blocks.0
          (gather [] used)
          (process_groups info device info.groups 0 begun).0
    done =
        process_groups-Holds device law works info reads k blocks.0 blocks.2 size e.real info.groups
          0 [] begun
          (subst
            (λ s.
              Buffered device law e.real k blocks.0 []
                (init_fs (codes "ext4") (count_blocks info info.groups 0 0) s e))
            (sym size)
            (init_fs-Buffered device law k sized (codes "ext4") (count_blocks info info.groups 0 0)
              e))
          fresh ahead
