-- ===== src/VolumeManager/Quiet.antt =====
-- Each request while the keyguard shows and no disk is in use: it touches no disk.
use android_system_vold.Common.{
  ℕ, ◌+◌, refl, sym, subst, Option, none, some, List, [], ◌∷◌, ◌++◌, true, false, not, ◌&&◌, ◌==◌,
  if◌then◌else◌, Bool-cases, Option-cases, inl, inr, Text, text_eq, codes, starts_with, to_string,
}
use android_system_vold.Common.Aborts.{
  Run, return, ◌>>=◌, ◌>>◌, Gives, check-Gives, bind-Gives, before-Gives, if-Gives,
}
use android_system_vold.VolumeBase.{Volume, Volumes, nil, cons, info, add_volume, append_volumes}
use android_system_vold.VolumeBase
use android_system_vold.Disk.{
  of_volume, destroy_and_drop, new_disk, destroy_volumes, unmount_volumes, is_stub,
}
use android_system_vold.Disk.Outside.{Event, Device}
use android_system_vold.Disk.Partitions.{initialize_partition, named_volume}
use android_system_vold.VolumeManager.Data.{
  State, Host, DiskSource, member, user_unknown, insert_user, remove_stubs,
}
use android_system_vold.VolumeManager.Lookup.{change_volume}
use android_system_vold.VolumeManager.Emulated.{
  emulated_volume, create_emulated_volumes_for_user, destroy_emulated_volumes_for_user,
}
use android_system_vold.VolumeManager.Disks.{
  recreate_disks, destroy_disks, unmount_disks, update_virtual_disk, handle_disk_removed,
}
use android_system_vold.VolumeManager.BlockEvents.{
  BlockEvent, BlockAction, add, change, remove, other, add_from_sources, handle_action,
  handle_block_event,
}
use android_system_vold.VolumeManager.Requests.{
  keep_state, on_user_added, on_user_stopped, on_user_removed, on_user_started, unmount_all_volumes,
  start, reset, shutdown, create_obb, holds_obb, any_volume, all_volumes, destroy_with_id,
  destroy_obb, stub_flags, stub_id, create_stub_volume, destroy_stub_volume, mount_change,
  on_volume,
}
use android_system_vold.VolumeManager.Locked.{
  OfVolume, Quiet, lock, IsLocked, of_volume-Quiet, destroy_and_drop-Quiet, then-Quiet,
  destroy_volumes-Quiet, unmount_volumes-Quiet, create_emulated-Quiet, destroy_emulated-Quiet,
  create_pending-Quiet, handle_disk_added-Quiet, handle_disk_changed-Quiet,
  handle_disk_removed-Quiet, change_volume-Quiet, QuietIfFound,
}

-- The rest of a `do` block, from a locked state.
pub after_lock :
    (m : Run Event State) (f : State → Run Event State)
    → Quiet IsLocked m
    → ((s : State) → Quiet IsLocked (f (lock s)))
    → Quiet IsLocked (m >>= f)
after_lock m f h g =
    bind-Gives OfVolume IsLocked IsLocked m f h
      (λ s e. subst (λ t. Quiet IsLocked (f t)) (sym e) (g s))

module _ (host : Host) where
  pub add_from_sources-Quiet :
      (sources : List DiskSource) (evt : BlockEvent) (device : Device) (s : State)
      → Quiet IsLocked (add_from_sources host.machine sources evt device (lock s))
  unfolding add_from_sources
  add_from_sources-Quiet [] evt device s = (tt, refl)
  add_from_sources-Quiet (source ∷ sources) evt device s =
      if-Gives OfVolume IsLocked (source.matches evt.event_path) _ _
        (handle_disk_added-Quiet host.machine _ s) (add_from_sources-Quiet sources evt device s)

  handle_action-Quiet :
      (action : BlockAction) (evt : BlockEvent) (device : Device) (s : State)
      → Quiet IsLocked (handle_action host.machine action evt device (lock s))
  unfolding handle_action
  handle_action-Quiet add evt device s = add_from_sources-Quiet s.disk_sources evt device s
  handle_action-Quiet change evt device s = handle_disk_changed-Quiet host.machine device s
  handle_action-Quiet remove evt device s = handle_disk_removed-Quiet host.machine device s
  handle_action-Quiet other evt device s = (tt, refl)

  pub block_event-Quiet :
      (evt : BlockEvent) (s : State) → Quiet IsLocked (handle_block_event host.machine evt (lock s))
  unfolding handle_block_event
  block_event-Quiet evt s =
      if-Gives OfVolume IsLocked (not (text_eq evt.dev_type (codes "disk"))) _ _ (tt, refl)
        (elim (Option-cases evt.device) [
          | inl missing ↦ rw (missing, Gives) tt
          | inr (device, e) ↦ rw (e, Gives) (handle_action-Quiet evt.action evt device s)
        ])

  pub stopped-Quiet : (user : ℕ) (s : State) → Quiet IsLocked (on_user_stopped host user (lock s))
  unfolding on_user_stopped
  stopped-Quiet user s =
      after_lock
        (if member user s.started_users
          then destroy_emulated_volumes_for_user host.machine user (lock s)
          else return (lock s))
        _
        (if-Gives OfVolume IsLocked (member user s.started_users) _ _
          (destroy_emulated-Quiet host.machine user s) (tt, refl))
        (λ s. (tt, refl))

  pub removed-Quiet : (user : ℕ) (s : State) → Quiet IsLocked (on_user_removed host user (lock s))
  unfolding on_user_removed
  removed-Quiet user s =
      after_lock (on_user_stopped host user (lock s)) _ (stopped-Quiet user s) (λ s. (tt, refl))

  pub started-Quiet : (user : ℕ) (s : State) → Quiet IsLocked (on_user_started host user (lock s))
  unfolding on_user_started
  started-Quiet user s =
      after_lock
        (if member user s.started_users
          then return (lock s)
          else create_emulated_volumes_for_user host.machine user (lock s))
        _
        (if-Gives OfVolume IsLocked (member user s.started_users) _ _ (tt, refl)
          (create_emulated-Quiet host.machine user s))
        (λ s'.
          create_pending-Quiet host.machine
            (record s' { started_users = insert_user user s'.started_users }))

  pub unmount_all-Quiet : (s : State) → Quiet IsLocked (unmount_all_volumes host (lock s))
  unfolding unmount_all_volumes unmount_disks
  unmount_all-Quiet s =
      then-Quiet IsLocked (unmount_volumes host.machine s.internal_emulated) _
        (unmount_volumes-Quiet host.machine s.internal_emulated) (λ vs. (tt, refl))

  pub virtual-Quiet : (s : State) → Quiet IsLocked (update_virtual_disk host (lock s))
  unfolding update_virtual_disk
  virtual-Quiet s =
      if-Gives OfVolume IsLocked host.virtual_disk_enabled _ _
        (elim (Option-cases s.virtual_disk) [
          | inr (device, e) ↦ rw (e, Gives) (tt, refl)
          | inl e ↦
              rw (e, Gives)
                (elim (Option-cases host.loop_device) [
                  | inl e' ↦ rw (e', Gives) (tt, refl)
                  | inr (device, e') ↦
                      rw (e', Gives)
                        (handle_disk_added-Quiet host.machine _
                          (record s { virtual_disk = some device }))
                ])
        ])
        (elim (Option-cases s.virtual_disk) [
          | inl e ↦ rw (e, Gives) (tt, refl)
          | inr (device, e) ↦
              rw (e, Gives)
                (after_lock (handle_disk_removed host.machine device (lock s))
                  (λ s'. return (record s' { virtual_disk = none }))
                  (handle_disk_removed-Quiet host.machine device s) (λ s. (tt, refl)))
        ])

  pub start-Quiet : (s : State) → Quiet IsLocked (start host (lock s))
  unfolding start
  start-Quiet s = after_lock (unmount_all_volumes host (lock s)) _ (unmount_all-Quiet s) (λ s'.
      check-Gives OfVolume IsLocked (elim s'.internal_emulated [ nil ↦ true | cons v vs ↦ false ]) _
        (then-Quiet IsLocked
          (of_volume (VolumeBase.create host.machine.methods (emulated_volume 0))) _
          (of_volume-Quiet _)
          (λ v.
            virtual-Quiet (record s' { internal_emulated = add_volume s'.internal_emulated v }))))

  pub reset-Quiet : (s : State) → Quiet IsLocked (reset host (lock s))
  unfolding reset recreate_disks
  reset-Quiet s =
      then-Quiet IsLocked (destroy_volumes host.machine s.internal_emulated) _
        (destroy_volumes-Quiet host.machine s.internal_emulated)
        (λ u.
          unfold remove_stubs in
          before-Gives OfVolume IsLocked [] _ tt (
            after_lock
              (update_virtual_disk host
                (lock (record s { internal_emulated = nil; pending = remove_stubs s.pending })))
              _
              (virtual-Quiet
                (record s { internal_emulated = nil; pending = remove_stubs s.pending }))
              (λ s'. (tt, refl))))

  pub shutdown-Quiet : (s : State) → Quiet IsLocked (shutdown host (lock s))
  unfolding shutdown destroy_disks
  shutdown-Quiet s = by_volumes s.internal_emulated
    where
      by_volumes :
          (vs : Volumes)
          → Quiet IsLocked (elim vs as (λ _. Run Event State) [
            | nil ↦ return (lock s)
            | cons w ws ↦ do
              destroy_volumes host.machine (cons w ws)
              destroy_disks host.machine []
              return (record (lock s) { internal_emulated = nil; disks = []; pending = [] })
          ])
      by_volumes nil = (tt, refl)
      by_volumes (cons w ws) =
          then-Quiet IsLocked (destroy_volumes host.machine (cons w ws)) _
            (destroy_volumes-Quiet host.machine (cons w ws)) (λ u. (tt, refl))

  pub obb-Quiet :
      (source : Text) (s : State) → Quiet IsLocked (keep_state (create_obb host source (lock s)))
  unfolding create_obb
  obb-Quiet source s =
      bind-Gives OfVolume (λ r. IsLocked r.0) IsLocked (create_obb host source (lock s)) _
        (if-Gives OfVolume (λ r. IsLocked r.0)
          (starts_with source (codes "/storage/")
            && not (
                any_volume (holds_obb source)
                  (append_volumes s.internal_emulated (all_volumes []))))
          _ _ (tt, refl)
          (bind-Gives OfVolume (λ _. Unit {0}) (λ r. IsLocked r.0)
            (of_volume (
              VolumeBase.create host.machine.methods
                (named_volume VolumeBase.obb (codes "obb:" ++ to_string s.next_obb_id))))
            _ (of_volume-Quiet _) (λ v u. (tt, refl))))
        (λ r h. (tt, h))

  pub destroy_with_id-Quiet :
      (id : Text) (vs : Volumes) → Quiet (λ _. Unit {0}) (destroy_with_id host id vs)
  unfolding destroy_with_id
  destroy_with_id-Quiet id nil = (tt, tt)
  destroy_with_id-Quiet id (cons v vs) =
      if-Gives OfVolume (λ _. Unit {0}) (text_eq (info v).id id) _ _
        (bind-Gives OfVolume (λ _. Unit {0}) (λ _. Unit {0}) (destroy_and_drop host.machine v) _
          (destroy_and_drop-Quiet host.machine v) (λ v' u. destroy_with_id-Quiet id vs))
        (bind-Gives OfVolume (λ _. Unit {0}) (λ _. Unit {0}) (destroy_with_id host id vs) _
          (destroy_with_id-Quiet id vs) (λ vs' u. (tt, tt)))

  pub destroy_obb-Quiet : (id : Text) (s : State) → Quiet IsLocked (destroy_obb host id (lock s))
  unfolding destroy_obb
  destroy_obb-Quiet id s =
      then-Quiet IsLocked (destroy_with_id host id s.obb_volumes) _
        (destroy_with_id-Quiet id s.obb_volumes) (λ vs. (tt, refl))

  pub initialize-Quiet :
      (v : Volume) (path nick : Text) (device : Device) (flags : ℕ)
      → Quiet
          (λ _. Unit {0})
          (initialize_partition host.machine v (new_disk path device nick flags))
  unfolding initialize_partition new_disk
  initialize-Quiet v path nick device flags =
      check-Gives OfVolume (λ _. Unit {0}) (is_stub (new_disk path device nick flags))
        (λ _. return (record (new_disk path device nick flags) { volumes = cons v nil })) (tt, tt)

  pub stub-Quiet : (flags : ℕ) (s : State) → Quiet IsLocked (create_stub_volume host flags (lock s))
  unfolding create_stub_volume
  stub-Quiet flags s =
      bind-Gives OfVolume (λ _. Unit {0}) IsLocked
        (initialize_partition host.machine
          (named_volume VolumeBase.stub (codes "stub:" ++ to_string (stub_id s.stubs_made)))
          (new_disk (codes "stub") (host.device_of (stub_id s.stubs_made)) (codes "stub")
            (stub_flags flags)))
        _ (initialize-Quiet _ _ _ _ _)
        (λ d u. handle_disk_added-Quiet host.machine d (record s { stubs_made = s.stubs_made + 1 }))

  pub stub_destroyed-Quiet :
      (id : Text) (s : State) → Quiet IsLocked (destroy_stub_volume host id (lock s))
  unfolding destroy_stub_volume
  stub_destroyed-Quiet id s = elim (Option-cases (host.stub_number id)) [
    | inl e ↦ rw (e, Gives) tt
    | inr (n, e) ↦ rw (e, Gives) (handle_disk_removed-Quiet host.machine (host.device_of n) s)
  ]

  pub on_volume-Quiet :
      (id : Text) (f : Volume → Run Event Volume) (s : State)
      → ((v : Volume) → Quiet (λ _. Unit {0}) (f v))
      → Quiet IsLocked (on_volume id f (lock s))
  unfolding on_volume
  on_volume-Quiet id f s quiet = go (change_volume id f (lock s)) (change_volume-Quiet id f s quiet)
    where
      go :
          (o : Option (Run Event State))
          → QuietIfFound IsLocked o
          → Quiet IsLocked
              (elim o as (λ _. Run Event State) [ none ↦ return (lock s) | some task ↦ task ])
      go none h = (tt, refl)
      go (some task) h = h

  pub mount-Quiet :
      (flags user : ℕ) (v : Volume) → Quiet (λ _. Unit {0}) (mount_change host flags user v)
  unfolding mount_change
  mount-Quiet flags user v = of_volume-Quiet (
      some (
        VolumeBase.mount host.machine.methods
          (VolumeBase.set_mount_user_id user (VolumeBase.set_mount_flags flags v).0).0))

  pub on_user_added-IsLocked :
      (user serial shares : ℕ) (s : State) → IsLocked (on_user_added user serial shares (lock s))
  unfolding on_user_added
  on_user_added-IsLocked user serial shares s = elim (Bool-cases (shares == user_unknown)) [
    | inl e ↦ rw e refl
    | inr e ↦ rw e refl
  ]
