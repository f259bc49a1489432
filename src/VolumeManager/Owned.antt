-- ===== src/VolumeManager/Owned.antt =====
-- OBBs, stub volumes and the operations of a volume that an id names: no CHECK fails.
use android_system_vold.Common.{
  ℕ, ◌+◌, ◌≡◌, ◌≢◌, ◌∙◌, ◌↔◌, refl, ℤ, Option, none, some, List, [], ◌++◌, Bool, true, false, not,
  ◌&&◌, ◌||◌, ◌==◌, Text, text_eq, starts_with, codes, to_string, arith, Bool-cases, Option-cases,
  inl, inr,
}
use Prim.Native.Nat.{bit_and}
use android_system_vold.Common.Aborts.{
  Run, return, Ensures, bind-Ensures, weaken-Ensures, if-Ensures, check-Ensures,
}
use android_system_vold.VolumeBase.{
  Volume, Volumes, volume, nil, cons, Info, info, add_volume, append_volumes, set_mount_flags,
  set_mount_user_id, Methods,
}
use android_system_vold.VolumeBase
use android_system_vold.VolumeBase.Safety.{AllCreated}
use android_system_vold.Disk.{is_stub, new_disk, of_volume, destroy_and_drop}
use android_system_vold.Disk.Outside.{Device, Event}
use android_system_vold.Disk.Checks.{
  IsLive, IsFresh, create-Ensures, destroy-Drops, unmount-Ensures, format-Ensures, mount-IsLive,
  set_mount_flags-IsLive, set_mount_user_id-IsLive, named-IsFresh,
}
use android_system_vold.Disk.Safety.{IsDown, AllCreated-add_volume}
use android_system_vold.Disk.Life.{ReadsNumbers}
use android_system_vold.Disk.Partitions.{named_volume, initialize_partition}
use android_system_vold.VolumeManager.Data.{State, Host}
use android_system_vold.VolumeManager.Lookup.{change_volume}
use android_system_vold.VolumeManager.Requests.{
  keep_state, create_obb, holds_obb, any_volume, all_volumes, destroy_with_id, destroy_obb,
  stub_flags, stub_id, create_stub_volume, destroy_stub_volume, mount_change, unmount_change,
  format_change, on_volume,
}
use android_system_vold.VolumeManager.Changes.{
  IsValid, IsKept, KeepsLive, IfFound, IsChanged, change_volume-IfFound, IfFound,
}
use android_system_vold.VolumeManager.Steady.{
  handle_disk_added-Ensures, handle_disk_removed-Ensures,
}

-- The id of a volume stays.
module _ (methods : Methods) where
  unmount-id :
      (v : Volume) (r : Volume × ℤ × List VolumeBase.Event)
      → VolumeBase.unmount methods v ≡ some r
      → (info r.0).id ≡ (info v).id
  unfolding VolumeBase.unmount VolumeBase.unmount_with
  unmount-id (volume i vs) r e = ground (arith, e)

  format_idle-id :
      (fs_type : Text) (v : Volume) (events : List VolumeBase.Event)
      → (info (VolumeBase.format_idle methods fs_type v events).0).id ≡ (info v).id
  unfolding VolumeBase.format_idle
  format_idle-id fs_type (volume i vs) events = ground arith

  format-id :
      (fs_type : Text) (v : Volume) (r : Volume × ℤ × List VolumeBase.Event)
      → VolumeBase.format methods fs_type v ≡ some r
      → (info r.0).id ≡ (info v).id
  unfolding VolumeBase.format
  format-id fs_type v r e = ground (
    arith,
    e,
    unmount-id v,
    format_idle-id fs_type v [],
    Option-cases (VolumeBase.unmount methods v),
  )

  mount-id : (v : Volume) → (info (VolumeBase.mount methods v).0).id ≡ (info v).id
  unfolding VolumeBase.mount VolumeBase.mount_path VolumeBase.mount_internal_path
      VolumeBase.set_path VolumeBase.set_internal_path
  mount-id (volume i vs) = ground arith

set_mount_flags-id : (flags : ℕ) (v : Volume) → (info (set_mount_flags flags v).0).id ≡ (info v).id
unfolding set_mount_flags
set_mount_flags-id flags (volume i vs) = ground arith

set_mount_user_id-id :
    (user : ℕ) (v : Volume) → (info (set_mount_user_id user v).0).id ≡ (info v).id
unfolding set_mount_user_id
set_mount_user_id-id user (volume i vs) = ground arith

of_volume-id :
    (v : Volume) (o : Option (Volume × ℤ × List VolumeBase.Event))
    → Ensures IsLive (of_volume o)
    → ((r : Volume × ℤ × List VolumeBase.Event) → o ≡ some r → (info r.0).id ≡ (info v).id)
    → Ensures (IsKept v) (of_volume o)
of_volume-id v none l h = l
of_volume-id v (some r) l h = (l, h r refl)

-- One of the two flags of stub disks.
abbrev pub has_stub_flag : ℕ → Bool
has_stub_flag flags = not (bit_and flags 32 == 0) || not (bit_and flags 64 == 0)

abbrev pub HasStubFlag : ℕ → Type 0
HasStubFlag flags = has_stub_flag flags ≡ true

module _ (host : Host) (reads : ReadsNumbers host.machine) where
  pub create_obb-Ensures :
      (source : Text) (s : State)
      → IsValid s
      → Ensures IsValid (keep_state (create_obb host source s))
  unfolding create_obb
  create_obb-Ensures source s v =
      bind-Ensures (λ r. IsValid r.0) IsValid (create_obb host source s) _
        (if-Ensures (λ r. IsValid r.0)
          (starts_with source (codes "/storage/")
            && not (
                any_volume (holds_obb source)
                  (append_volumes s.internal_emulated (all_volumes s.disks))))
          _ _
          (record {
            up = v.up;
            down = v.down;
            emulated = v.emulated;
            obb = v.obb;
            sources = v.sources;
          })
          (bind-Ensures IsLive (λ r. IsValid r.0)
            (of_volume (
              VolumeBase.create host.machine.methods
                (named_volume VolumeBase.obb (codes "obb:" ++ to_string s.next_obb_id))))
            _ (create-Ensures host.machine.methods _ (named-IsFresh VolumeBase.obb _))
            (λ e l. record {
              up = v.up;
              down = v.down;
              emulated = v.emulated;
              obb = AllCreated-add_volume s.obb_volumes e v.obb l;
              sources = v.sources;
            })))
        (λ r v'. v')

  destroy_with_id-Ensures :
      (id : Text) (vs : Volumes) → AllCreated vs → Ensures AllCreated (destroy_with_id host id vs)
  unfolding destroy_with_id
  destroy_with_id-Ensures id nil h = tt
  destroy_with_id-Ensures id (cons v vs) h =
      if-Ensures AllCreated (text_eq (info v).id id) _ _
        (bind-Ensures (λ _. Unit {0}) AllCreated (destroy_and_drop host.machine v) _
          (destroy-Drops host.machine.methods v (h.0, h.1))
          (λ _ _. destroy_with_id-Ensures id vs h.2))
        (bind-Ensures AllCreated AllCreated (destroy_with_id host id vs) _
          (destroy_with_id-Ensures id vs h.2) (λ vs' l. (h.0, h.1, l)))

  pub destroy_obb-Ensures :
      (id : Text) (s : State) → IsValid s → Ensures IsValid (destroy_obb host id s)
  unfolding destroy_obb
  destroy_obb-Ensures id s v =
      bind-Ensures AllCreated IsValid (destroy_with_id host id s.obb_volumes) _
        (destroy_with_id-Ensures id s.obb_volumes v.obb)
        (λ vs l. record {
          up = v.up;
          down = v.down;
          emulated = v.emulated;
          obb = l;
          sources = v.sources;
        })

  initialize-Ensures :
      (v : Volume) (path nick : Text) (device : Device) (flags : ℕ)
      → IsFresh v
      → HasStubFlag flags
      → Ensures IsDown (initialize_partition host.machine v (new_disk path device nick flags))
  unfolding initialize_partition new_disk is_stub
  initialize-Ensures v path nick device flags f h =
      check-Ensures IsDown (not (bit_and flags 32 == 0) || not (bit_and flags 64 == 0)) _ h
        (refl, rw h f)

  pub create_stub_volume-Ensures :
      (flags : ℕ) (s : State)
      → HasStubFlag (stub_flags flags)
      → IsValid s
      → Ensures IsValid (create_stub_volume host flags s)
  unfolding create_stub_volume
  create_stub_volume-Ensures flags s h v =
      bind-Ensures IsDown IsValid
        (initialize_partition host.machine
          (named_volume VolumeBase.stub (codes "stub:" ++ to_string (stub_id s.stubs_made)))
          (new_disk (codes "stub") (host.device_of (stub_id s.stubs_made)) (codes "stub")
            (stub_flags flags)))
        _ (initialize-Ensures _ _ _ _ _ (named-IsFresh VolumeBase.stub _) h)
        (λ d down.
          handle_disk_added-Ensures host.machine reads d
            (record s { stubs_made = s.stubs_made + 1 }) down
            (record {
              up = v.up;
              down = v.down;
              emulated = v.emulated;
              obb = v.obb;
              sources = v.sources;
            }))

  pub destroy_stub_volume-Ensures :
      (id : Text) (s : State)
      → host.stub_number id ≢ none
      → IsValid s
      → Ensures IsValid (destroy_stub_volume host id s)
  unfolding destroy_stub_volume
  destroy_stub_volume-Ensures id s h v = elim (Option-cases (host.stub_number id)) [
    | inl e ↦ absurd (h e)
    | inr (n, e) ↦
        rw (e, Ensures) (handle_disk_removed-Ensures host.machine reads (host.device_of n) s v)
  ]

  pub on_volume-Ensures :
      (id : Text) (f : Volume → Run Event Volume) (s : State)
      → KeepsLive f
      → IsValid s
      → Ensures IsValid (on_volume id f s)
  unfolding on_volume
  on_volume-Ensures id f s keeps v =
      go (change_volume id f s) (change_volume-IfFound id f s keeps v)
    where
      go :
          (o : Option (Run Event State))
          → IfFound (IsChanged s) o
          → Ensures IsValid
              (elim o as (λ _. Run Event State) [ none ↦ return s | some task ↦ task ])
      go none h = v
      go (some task) h = weaken-Ensures (IsChanged s) IsValid task h (λ s' c. c.0)

  pub mount-KeepsLive :
      ((i : Info) → AllCreated (host.machine.methods.do_post_mount i))
      → (flags user : ℕ) → KeepsLive (mount_change host flags user)
  unfolding mount_change
  mount-KeepsLive post flags user v l =
      let flagged = (set_mount_flags flags v).0 in
      let owned = (set_mount_user_id user flagged).0 in
      (
        mount-IsLive host.machine.methods owned post
            (set_mount_user_id-IsLive user flagged (set_mount_flags-IsLive flags v l)),
        mount-id host.machine.methods owned
            ∙ set_mount_user_id-id user flagged
            ∙ set_mount_flags-id flags v,
      )

  pub unmount-KeepsLive : KeepsLive (unmount_change host)
  unfolding unmount_change
  unmount-KeepsLive v l =
      of_volume-id v _ (unmount-Ensures host.machine.methods v l)
        (unmount-id host.machine.methods v)

  pub format-KeepsLive : (fs_type : Text) → KeepsLive (format_change host fs_type)
  unfolding format_change
  format-KeepsLive fs_type v l =
      of_volume-id v _ (format-Ensures host.machine.methods fs_type v l)
        (format-id host.machine.methods fs_type v)

none_not : {A : Type 0} (P : A → Type 0) (m : Run Event A) → Ensures P m → m ≢ none
none_not P none h e = h
none_not P (some r) h e = cc

-- `createStubVolume` aborts the daemon exactly when the flags that it passes on have neither of the
-- two flags of stubs, in every valid state, when the numbers of sysfs are numbers.
pub create_stub_volume-none_iff :
    (host : Host) (flags : ℕ) (s : State)
    → ReadsNumbers host.machine
    → IsValid s
    → (create_stub_volume host flags s ≡ none) ↔ (has_stub_flag (stub_flags flags) ≡ false)
create_stub_volume-none_iff host flags s reads v =
    elim (Bool-cases (has_stub_flag (stub_flags flags))) [
      | inl good ↦ (
        λ e. absurd (
            none_not IsValid (create_stub_volume host flags s)
              (create_stub_volume-Ensures host reads flags s good v) e),
        λ bad. cc (good, bad),
      )
      | inr bad ↦ (
        λ e. bad,
        λ e. unfold create_stub_volume initialize_partition new_disk is_stub in rw bad refl,
      )
    ]
