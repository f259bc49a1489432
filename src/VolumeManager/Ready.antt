-- ===== src/VolumeManager/Ready.antt =====
-- Requests and the disks that wait.
use android_system_vold.Common.{
  ℕ, ◌≡◌, refl, none, some, List, [], ◌∷◌, true, not, ◌==◌, if◌then◌else◌, arith, Bool-cases,
  Option-cases, inl, inr, text_eq, codes,
}
use android_system_vold.Common.Aborts.{Run, return, ◌>>=◌, Gives, bind-Gives, if-Gives}
use android_system_vold.Disk.{Disk, unmount_volumes}
use android_system_vold.Disk.Outside.{Event, Device}
use android_system_vold.Disk.Partitions
use android_system_vold.Disk.Partitions.{initialize_partition, named_volume}
use android_system_vold.VolumeManager.Data.{
  State, Host, DiskSource, member, is_ready, erase_user, erase_device, user_unknown,
}
use android_system_vold.VolumeManager.Emulated.{destroy_emulated_volumes_for_user}
use android_system_vold.VolumeManager.Disks.{
  create_disks, read_again, destroy_device, create_pending_disks_if_needed, handle_disk_added,
  handle_disk_changed, unmount_disks, update_virtual_disk, handle_disk_removed,
}
use android_system_vold.VolumeManager.BlockEvents.{
  BlockEvent, BlockAction, add, change, remove, other, add_from_sources, handle_action,
  handle_block_event,
}
use android_system_vold.VolumeManager.Requests.{
  on_user_added, on_user_stopped, on_user_removed, unmount_all_volumes,
}
use android_system_vold.VolumeManager.Pending.{
  NoneWaits, OnState, after-OnState, SameWait, SameWait-NoneWaits, destroy_emulated-SameWait,
}

abbrev Any : {A : Type 0} → A → Type 0
Any a = Unit {0}

-- A state in which the same waits, and then a value.
pub same_first :
    (s : State) (P : State → Type 0) (m : Run Event State) (f : State → Run Event State)
    → OnState (SameWait s) m
    → ((s' : State) → SameWait s s' → OnState P (f s'))
    → OnState P (m >>= f)
same_first s P m f h g = bind-Gives Any (SameWait s) P m f h g

pub same_none :
    (s : State) (m : Run Event State) → NoneWaits s → OnState (SameWait s) m → OnState NoneWaits m
same_none s none h g = tt
same_none s (some r) h g = (g.0, SameWait-NoneWaits s r.0 g.1 h)

member-erase_user :
    (x y : ℕ) (users : List ℕ) → member x (erase_user y users) ≡ true → member x users ≡ true
unfolding member erase_user
member-erase_user x y [] h = h
member-erase_user x y (z ∷ zs) h = ground (arith, h, member-erase_user x y zs)

without_user :
    (user : ℕ) (s : State)
    → NoneWaits s
    → NoneWaits (record s { started_users = erase_user user s.started_users })
unfolding is_ready
without_user user s h ready = h (ground (arith, ready, member-erase_user 0 user s.started_users))

pub on_user_added-NoneWaits :
    (user serial shares : ℕ) (s : State)
    → NoneWaits s
    → NoneWaits (on_user_added user serial shares s)
unfolding on_user_added is_ready
on_user_added-NoneWaits user serial shares s h = elim (Bool-cases (shares == user_unknown)) [
  | inl e ↦ rw e h
  | inr e ↦ rw e h
]

module _ (host : Host) where
  pub create_pending-NoneWaits :
      (s : State) → OnState NoneWaits (create_pending_disks_if_needed host.machine s)
  unfolding create_pending_disks_if_needed
  create_pending-NoneWaits s = elim (Bool-cases (is_ready s)) [
    | inl e ↦
        rw (e, Gives)
          (after-OnState NoneWaits (create_disks host.machine s.pending) _
            (λ made. (tt, λ ready. refl)))
    | inr e ↦ rw (e, Gives) (tt, λ ready. cc (ready, e))
  ]

  pub handle_disk_added-NoneWaits :
      (d : Disk) (s : State) → NoneWaits s → OnState NoneWaits (handle_disk_added host.machine d s)
  unfolding handle_disk_added
  handle_disk_added-NoneWaits d s h = elim (Bool-cases (is_ready s)) [
    | inl e ↦
        rw (e, Gives)
          (after-OnState NoneWaits (Partitions.create host.machine d) _ (λ made. (tt, h)))
    | inr e ↦ rw (e, Gives) (tt, λ ready. cc (ready, e))
  ]

  pub handle_disk_removed-NoneWaits :
      (device : Device) (s : State)
      → NoneWaits s
      → OnState NoneWaits (handle_disk_removed host.machine device s)
  unfolding handle_disk_removed is_ready
  handle_disk_removed-NoneWaits device s h =
      after-OnState NoneWaits (destroy_device host.machine device s.disks) _
        (λ disks. (tt, λ ready. rw (h ready) (unfold erase_device in refl)))

  handle_disk_changed-NoneWaits :
      (device : Device) (s : State)
      → NoneWaits s
      → OnState NoneWaits (handle_disk_changed host.machine device s)
  unfolding handle_disk_changed is_ready
  handle_disk_changed-NoneWaits device s h =
      after-OnState NoneWaits (read_again host.machine device s.disks) _ (λ disks. (tt, h))

  add_from_sources-NoneWaits :
      (sources : List DiskSource) (evt : BlockEvent) (device : Device) (s : State)
      → NoneWaits s
      → OnState NoneWaits (add_from_sources host.machine sources evt device s)
  unfolding add_from_sources
  add_from_sources-NoneWaits [] evt device s h = (tt, h)
  add_from_sources-NoneWaits (source ∷ sources) evt device s h =
      if-Gives Any NoneWaits (source.matches evt.event_path) _ _ (handle_disk_added-NoneWaits _ s h)
        (add_from_sources-NoneWaits sources evt device s h)

  handle_action-NoneWaits :
      (action : BlockAction) (evt : BlockEvent) (device : Device) (s : State)
      → NoneWaits s
      → OnState NoneWaits (handle_action host.machine action evt device s)
  unfolding handle_action
  handle_action-NoneWaits add evt device s h =
      add_from_sources-NoneWaits s.disk_sources evt device s h
  handle_action-NoneWaits change evt device s h = handle_disk_changed-NoneWaits device s h
  handle_action-NoneWaits remove evt device s h = handle_disk_removed-NoneWaits device s h
  handle_action-NoneWaits other evt device s h = (tt, h)

  pub block_event-NoneWaits :
      (evt : BlockEvent) (s : State)
      → NoneWaits s
      → OnState NoneWaits (handle_block_event host.machine evt s)
  unfolding handle_block_event
  block_event-NoneWaits evt s h =
      if-Gives Any NoneWaits (not (text_eq evt.dev_type (codes "disk"))) _ _ (tt, h)
        (elim (Option-cases evt.device) [
          | inl missing ↦ rw (missing, Gives) tt
          | inr (device, e) ↦ rw (e, Gives) (handle_action-NoneWaits evt.action evt device s h)
        ])

  pub on_user_stopped-NoneWaits :
      (user : ℕ) (s : State) → NoneWaits s → OnState NoneWaits (on_user_stopped host user s)
  unfolding on_user_stopped
  on_user_stopped-NoneWaits user s h =
      same_first s NoneWaits
        (if member user s.started_users
          then destroy_emulated_volumes_for_user host.machine user s
          else return s)
        _
        (if-Gives Any (SameWait s) (member user s.started_users) _ _
          (destroy_emulated-SameWait host.machine user s) (tt, (refl, refl, refl)))
        (λ s' e. (tt, without_user user s' (SameWait-NoneWaits s s' e h)))

  pub on_user_removed-NoneWaits :
      (user : ℕ) (s : State) → NoneWaits s → OnState NoneWaits (on_user_removed host user s)
  unfolding on_user_removed
  on_user_removed-NoneWaits user s h =
      bind-Gives Any NoneWaits NoneWaits (on_user_stopped host user s) _
        (on_user_stopped-NoneWaits user s h) (λ s' h'. (tt, unfold is_ready in h'))

  pub update_virtual_disk-NoneWaits :
      (s : State) → NoneWaits s → OnState NoneWaits (update_virtual_disk host s)
  unfolding update_virtual_disk
  update_virtual_disk-NoneWaits s h =
      if-Gives Any NoneWaits host.virtual_disk_enabled _ _
        (elim (Option-cases s.virtual_disk) [
          | inr (device, e) ↦ rw (e, Gives) (tt, h)
          | inl e ↦
              rw (e, Gives)
                (elim (Option-cases host.loop_device) [
                  | inl e' ↦ rw (e', Gives) (tt, h)
                  | inr (device, e') ↦
                      rw (e', Gives)
                        (handle_disk_added-NoneWaits _ (record s { virtual_disk = some device })
                          (unfold is_ready in h))
                ])
        ])
        (elim (Option-cases s.virtual_disk) [
          | inl e ↦ rw (e, Gives) (tt, h)
          | inr (device, e) ↦
              rw (e, Gives)
                (bind-Gives Any NoneWaits NoneWaits (handle_disk_removed host.machine device s)
                  (λ s'. return (record s' { virtual_disk = none }))
                  (handle_disk_removed-NoneWaits device s h) (λ s' h'. (tt, unfold is_ready in h')))
        ])

  pub unmount_all_volumes-SameWait : (s : State) → OnState (SameWait s) (unmount_all_volumes host s)
  unfolding unmount_all_volumes
  unmount_all_volumes-SameWait s =
      after-OnState (SameWait s) (unmount_volumes host.machine s.internal_emulated) _ (λ vs.
        after-OnState (SameWait s) (unmount_disks host.machine s.disks) _
          (λ ds. (tt, (refl, refl, refl))))
