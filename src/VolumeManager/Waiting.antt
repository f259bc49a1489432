-- ===== src/VolumeManager/Waiting.antt =====
-- Until the keyguard is away no disk is touched.
use android_system_vold.Common.{
  ℕ, ◌+◌, ◌≡◌, refl, ap, subst, some, List, [], ◌∷◌, ◌++◌, true, false, not, ◌&&◌, All,
  if◌then◌else◌, arith, Option-cases, inl, inr, Text, codes, starts_with, to_string,
}
use android_system_vold.Common.Aborts.{
  Run, return, ◌>>◌, Gives, check-Gives, bind-Gives, any-Gives, if-Gives,
}
use android_system_vold.VolumeBase.{Volume, Volumes, nil, cons, info, add_volume, append_volumes}
use android_system_vold.VolumeBase
use android_system_vold.Disk.{of_volume, new_disk, destroy_volumes}
use android_system_vold.Disk.Outside.{Event}
use android_system_vold.Disk.Life.{ReadsNumbers}
use android_system_vold.Disk.Partitions.{initialize_partition, named_volume}
use android_system_vold.VolumeManager.Data.{State, Host, initial, member, is_ready, insert_user}
use android_system_vold.VolumeManager.Emulated.{emulated_volume, create_emulated_volumes_for_user}
use android_system_vold.VolumeManager.Disks.{recreate_disks, destroy_disks, update_virtual_disk}
use android_system_vold.VolumeManager.Requests.{
  Request, disk_source, block, user_added, user_removed, user_started, user_stopped, keyguard,
  starting, resetting, shutting_down, unmounting_all, obb_created, obb_destroyed, stub_created,
  stub_destroyed, mounting, unmounting, formatting, keep_state, apply, run, on_user_started,
  on_secure_keyguard_state_changed, unmount_all_volumes, start, reset, shutdown, create_obb,
  holds_obb, any_volume, all_volumes, destroy_with_id, destroy_obb, stub_flags, stub_id,
  create_stub_volume, destroy_stub_volume, mount_change, unmount_change, format_change,
}
use android_system_vold.VolumeManager.Safety.{IsAllowed, StacksCreated, run-IsValid}
use android_system_vold.VolumeManager.Quiet.{
  after_lock, block_event-Quiet, stopped-Quiet, removed-Quiet, started-Quiet, unmount_all-Quiet,
  start-Quiet, reset-Quiet, shutdown-Quiet, obb-Quiet, destroy_obb-Quiet, stub-Quiet,
  stub_destroyed-Quiet, on_volume-Quiet, mount-Quiet, on_user_added-IsLocked,
}
use android_system_vold.VolumeManager.Locked.{
  OfVolume, Quiet, lock, IsLocked, of_volume-Quiet, create_pending-Quiet,
}
use android_system_vold.VolumeManager.Pending.{
  NoneWaits, OnState, after-OnState, SameWait, SameWait-NoneWaits, on_volume-SameWait,
}
use android_system_vold.VolumeManager.Ready.{
  same_none, same_first, on_user_added-NoneWaits, create_pending-NoneWaits,
  handle_disk_added-NoneWaits, handle_disk_removed-NoneWaits, block_event-NoneWaits,
  on_user_stopped-NoneWaits, on_user_removed-NoneWaits, update_virtual_disk-NoneWaits,
  unmount_all_volumes-SameWait,
}

-- A request that is not the news that the keyguard is away.
abbrev pub KeepsLocked : Request → Type 0
KeepsLocked (keyguard false) = ⊥
KeepsLocked _ = Unit

module _ (host : Host) where
  apply-Quiet : (r : Request) (s : State) → KeepsLocked r → Quiet IsLocked (apply host r (lock s))
  unfolding apply
  apply-Quiet (disk_source source) s h = (tt, refl)
  apply-Quiet (block evt) s h = block_event-Quiet host evt s
  apply-Quiet (user_added user serial shares) s h =
      (tt, on_user_added-IsLocked host user serial shares s)
  apply-Quiet (user_removed user) s h = removed-Quiet host user s
  apply-Quiet (user_started user) s h = started-Quiet host user s
  apply-Quiet (user_stopped user) s h = stopped-Quiet host user s
  apply-Quiet (keyguard true) s h =
      unfold on_secure_keyguard_state_changed in create_pending-Quiet host.machine s
  apply-Quiet (keyguard false) s h = absurd h
  apply-Quiet starting s h = start-Quiet host s
  apply-Quiet resetting s h = reset-Quiet host s
  apply-Quiet shutting_down s h = shutdown-Quiet host s
  apply-Quiet unmounting_all s h = unmount_all-Quiet host s
  apply-Quiet (obb_created source) s h = obb-Quiet host source s
  apply-Quiet (obb_destroyed id) s h = destroy_obb-Quiet host id s
  apply-Quiet (stub_created flags) s h = stub-Quiet host flags s
  apply-Quiet (stub_destroyed id) s h = stub_destroyed-Quiet host id s
  apply-Quiet (mounting id flags user) s h =
      on_volume-Quiet host id (mount_change host flags user) s (mount-Quiet host flags user)
  apply-Quiet (unmounting id) s h =
      on_volume-Quiet host id (unmount_change host) s
        (λ v. unfold unmount_change in of_volume-Quiet _)
  apply-Quiet (formatting id fs_type) s h =
      on_volume-Quiet host id (format_change host fs_type) s
        (λ v. unfold format_change in of_volume-Quiet _)

  run-Quiet :
      (rs : List Request) (s : State) → All KeepsLocked rs → Quiet IsLocked (run host rs (lock s))
  unfolding run
  run-Quiet [] s h = (tt, refl)
  run-Quiet (r ∷ rs) s h =
      after_lock (apply host r (lock s)) _ (apply-Quiet r s h.0) (λ s'. run-Quiet rs s' h.1)

-- Until the news comes that the keyguard is away, no sequence of requests touches a disk: after the
-- start, every sequence of the requests that are allowed runs to its end, no disk is in use after
-- it, no event is one of a disk, and no command is executed. The numbers of sysfs are numbers,
-- and what `doPostMount` stacks is created.
pub run_locked :
    (host : Host) (rs : List Request)
    → ReadsNumbers host.machine
    → StacksCreated host.machine
    → All (IsAllowed host) rs
    → All KeepsLocked rs
    → (s : State) × (events : List Event) × (run host (starting ∷ rs) initial ≡ some (s, events))
      × All OfVolume events
      × (s.disks ≡ [])
run_locked host rs reads posts allowed locked =
    let (s, events, e, v) = run-IsValid host rs reads posts allowed in
    let q = subst (λ m. Quiet IsLocked m) e (run-Quiet host (starting ∷ rs) initial (tt, locked)) in
    (s, events, e, q.0, ap (λ (s : State). s.disks) q.1)

abbrev Any : {A : Type 0} → A → Type 0
Any a = Unit {0}

module _ (host : Host) where
  start-NoneWaits : (s : State) → NoneWaits s → OnState NoneWaits (start host s)
  unfolding start
  start-NoneWaits s h =
      same_first s NoneWaits (unmount_all_volumes host s) _ (unmount_all_volumes-SameWait host s)
        (λ s' e.
          check-Gives Any NoneWaits (elim s'.internal_emulated [ nil ↦ true | cons v vs ↦ false ]) _
            (after-OnState NoneWaits
              (of_volume (VolumeBase.create host.machine.methods (emulated_volume 0))) _
              (λ v.
                update_virtual_disk-NoneWaits host
                  (record s' { internal_emulated = add_volume s'.internal_emulated v })
                  (unfold is_ready in SameWait-NoneWaits s s' e h))))

  reset-NoneWaits : (s : State) → OnState NoneWaits (reset host s)
  unfolding reset is_ready
  reset-NoneWaits s =
      after-OnState NoneWaits (destroy_volumes host.machine s.internal_emulated) _ (λ u.
        after-OnState NoneWaits (recreate_disks host.machine s.disks) _ (λ ds.
          after-OnState NoneWaits (update_virtual_disk host _) _
            (λ s'. (tt, λ ready. ground (arith, ready)))))

  shutdown-NoneWaits : (s : State) → NoneWaits s → OnState NoneWaits (shutdown host s)
  unfolding shutdown
  shutdown-NoneWaits s h = by_volumes s.internal_emulated
    where
      by_volumes :
          (vs : Volumes)
          → OnState NoneWaits (elim vs as (λ _. Run Event State) [
            | nil ↦ return s
            | cons w ws ↦ do
              destroy_volumes host.machine (cons w ws)
              destroy_disks host.machine s.disks
              return (record s { internal_emulated = nil; disks = []; pending = [] })
          ])
      by_volumes nil = (tt, h)
      by_volumes (cons w ws) =
          after-OnState NoneWaits (destroy_volumes host.machine (cons w ws)) _ (λ u.
            after-OnState NoneWaits (destroy_disks host.machine s.disks) _
              (λ u. (tt, λ ready. refl)))

  started-NoneWaits : (user : ℕ) (s : State) → OnState NoneWaits (on_user_started host user s)
  unfolding on_user_started
  started-NoneWaits user s =
      after-OnState NoneWaits
        (if member user s.started_users
          then return s
          else create_emulated_volumes_for_user host.machine user s)
        _
        (λ s'.
          create_pending-NoneWaits host
            (record s' { started_users = insert_user user s'.started_users }))

  obb-NoneWaits :
      (source : Text) (s : State)
      → NoneWaits s
      → OnState NoneWaits (keep_state (create_obb host source s))
  unfolding create_obb is_ready
  obb-NoneWaits source s h =
      bind-Gives Any (λ r. NoneWaits r.0) NoneWaits (create_obb host source s) _
        (if-Gives Any (λ r. NoneWaits r.0)
          (starts_with source (codes "/storage/")
            && not (
                any_volume (holds_obb source)
                  (append_volumes s.internal_emulated (all_volumes s.disks))))
          _ _ (tt, h)
          (bind-Gives Any Any (λ r. NoneWaits r.0)
            (of_volume (
              VolumeBase.create host.machine.methods
                (named_volume VolumeBase.obb (codes "obb:" ++ to_string s.next_obb_id))))
            _ (any-Gives _) (λ v u. (tt, h))))
        (λ r h'. (tt, h'))

  destroy_obb-SameWait : (id : Text) (s : State) → OnState (SameWait s) (destroy_obb host id s)
  unfolding destroy_obb
  destroy_obb-SameWait id s =
      after-OnState (SameWait s) (destroy_with_id host id s.obb_volumes) _
        (λ vs. (tt, (refl, refl, refl)))

  stub-NoneWaits :
      (flags : ℕ) (s : State) → NoneWaits s → OnState NoneWaits (create_stub_volume host flags s)
  unfolding create_stub_volume is_ready
  stub-NoneWaits flags s h =
      after-OnState NoneWaits
        (initialize_partition host.machine
          (named_volume VolumeBase.stub (codes "stub:" ++ to_string (stub_id s.stubs_made)))
          (new_disk (codes "stub") (host.device_of (stub_id s.stubs_made)) (codes "stub")
            (stub_flags flags)))
        _ (λ d. handle_disk_added-NoneWaits host d (record s { stubs_made = s.stubs_made + 1 }) h)

  stub_destroyed-NoneWaits :
      (id : Text) (s : State) → NoneWaits s → OnState NoneWaits (destroy_stub_volume host id s)
  unfolding destroy_stub_volume
  stub_destroyed-NoneWaits id s h = elim (Option-cases (host.stub_number id)) [
    | inl e ↦ rw (e, Gives) tt
    | inr (n, e) ↦ rw (e, Gives) (handle_disk_removed-NoneWaits host (host.device_of n) s h)
  ]

  apply-OnState : (r : Request) (s : State) → NoneWaits s → OnState NoneWaits (apply host r s)
  unfolding apply
  apply-OnState (disk_source source) s h = (tt, unfold is_ready in h)
  apply-OnState (block evt) s h = block_event-NoneWaits host evt s h
  apply-OnState (user_added user serial shares) s h =
      (tt, on_user_added-NoneWaits user serial shares s h)
  apply-OnState (user_removed user) s h = on_user_removed-NoneWaits host user s h
  apply-OnState (user_started user) s h = started-NoneWaits user s
  apply-OnState (user_stopped user) s h = on_user_stopped-NoneWaits host user s h
  apply-OnState (keyguard showing) s h =
      unfold on_secure_keyguard_state_changed in
      create_pending-NoneWaits host (record s { keyguard_showing = showing })
  apply-OnState starting s h = start-NoneWaits s h
  apply-OnState resetting s h = reset-NoneWaits s
  apply-OnState shutting_down s h = shutdown-NoneWaits s h
  apply-OnState unmounting_all s h = same_none s _ h (unmount_all_volumes-SameWait host s)
  apply-OnState (obb_created source) s h = obb-NoneWaits source s h
  apply-OnState (obb_destroyed id) s h = same_none s _ h (destroy_obb-SameWait id s)
  apply-OnState (stub_created flags) s h = stub-NoneWaits flags s h
  apply-OnState (stub_destroyed id) s h = stub_destroyed-NoneWaits id s h
  apply-OnState (mounting id flags user) s h =
      same_none s _ h (on_volume-SameWait id (mount_change host flags user) s)
  apply-OnState (unmounting id) s h =
      same_none s _ h (on_volume-SameWait id (unmount_change host) s)
  apply-OnState (formatting id fs_type) s h =
      same_none s _ h (on_volume-SameWait id (format_change host fs_type) s)

-- A request that runs to its end leaves no disk waiting while the keyguard is away and user 0 has
-- started, if none waited so before.
pub apply-NoneWaits :
    (host : Host) (r : Request) (s s' : State) (events : List Event)
    → NoneWaits s
    → apply host r s ≡ some (s', events)
    → NoneWaits s'
apply-NoneWaits host r s s' events h e = (subst (OnState NoneWaits) e (apply-OnState host r s h)).1
