-- ===== src/VolumeManager/Sessions.antt =====
-- The users, the start and the end, and the stubs: no CHECK fails.
use android_system_vold.Common.{
  ℕ, ◌≡◌, refl, some, List, [], Bool, true, false, ◌==◌, if◌then◌else◌, codes, Bool-cases,
  Option-cases, inl, inr, All,
}
use android_system_vold.Common.Aborts.{
  Run, return, check, ◌>>=◌, ◌>>◌, Ensures, bind-Ensures, weaken-Ensures, before-Ensures,
  if-Ensures,
}
use android_system_vold.VolumeBase.{
  Volume, Volumes, volume, nil, cons, Info, info, add_volume, append_volumes, set_mount_flags,
  set_mount_user_id, Methods,
}
use android_system_vold.VolumeBase
use android_system_vold.VolumeBase.Safety.{AllCreated}
use android_system_vold.Disk.{is_stub, new_disk, of_volume, destroy_volumes, unmount_volumes}
use android_system_vold.Disk.Outside.{Device, Event}
use android_system_vold.Disk.Checks.{IsLive, create-Ensures}
use android_system_vold.Disk.Safety.{IsDown, IsUp, AllCreated-add_volume, destroy_volumes-Ensures}
use android_system_vold.Disk.Life.{ReadsNumbers}
use android_system_vold.Disk.Life
use android_system_vold.VolumeManager.Data.{
  State, Host, member, insert_user, remove_stubs, user_unknown,
}
use android_system_vold.VolumeManager.Emulated.{
  emulated_volume, create_emulated_volumes_for_user, destroy_emulated_volumes_for_user,
}
use android_system_vold.VolumeManager.Disks.{
  recreate_disks, destroy_disks, unmount_disks, update_virtual_disk, handle_disk_removed,
}
use android_system_vold.VolumeManager.Requests.{
  on_user_added, on_user_stopped, on_user_removed, on_user_started,
  on_secure_keyguard_state_changed, unmount_all_volumes, start, reset, shutdown,
}
use android_system_vold.VolumeManager.Changes.{IsValid}
use android_system_vold.VolumeManager.Steady.{
  create_pending-Ensures, handle_disk_added-Ensures, handle_disk_removed-Ensures,
  recreate_disks-Ensures, destroy_disks-Ensures, unmount_disks-Ensures, remove_stubs-IsDown,
}
use android_system_vold.VolumeManager.Users.{
  create_emulated-Ensures, destroy_emulated-Ensures, emulated_volume-IsFresh,
}

-- What does not touch the disks, the volumes and the sources.
IsValid-users :
    (added shared : List (ℕ × ℕ)) (started : List ℕ) (showing : Bool) (s : State)
    → IsValid s
    → IsValid (record s {
      added_users = added;
      shared_storage_user = shared;
      started_users = started;
      keyguard_showing = showing;
    })
IsValid-users added shared started showing s v = record {
  up = v.up;
  down = v.down;
  emulated = v.emulated;
  obb = v.obb;
  sources = v.sources;
}

pub on_user_added-IsValid :
    (user serial shares : ℕ) (s : State) → IsValid s → IsValid (on_user_added user serial shares s)
unfolding on_user_added
on_user_added-IsValid user serial shares s v = elim (Bool-cases (shares == user_unknown)) [
  | inl alone ↦ rw alone (IsValid-users _ _ _ _ s v)
  | inr shared ↦ rw shared (IsValid-users _ _ _ _ s v)
]

module _ (host : Host) (reads : ReadsNumbers host.machine) where
  pub on_user_stopped-Ensures :
      (user : ℕ) (s : State) → IsValid s → Ensures IsValid (on_user_stopped host user s)
  unfolding on_user_stopped
  on_user_stopped-Ensures user s v =
      bind-Ensures IsValid IsValid
        (if member user s.started_users
          then destroy_emulated_volumes_for_user host.machine user s
          else return s)
        _
        (if-Ensures IsValid (member user s.started_users) _ _
          (destroy_emulated-Ensures host.machine user s v) v)
        (λ s' v'. IsValid-users _ _ _ _ s' v')

  pub on_user_removed-Ensures :
      (user : ℕ) (s : State) → IsValid s → Ensures IsValid (on_user_removed host user s)
  unfolding on_user_removed
  on_user_removed-Ensures user s v =
      bind-Ensures IsValid IsValid (on_user_stopped host user s) _
        (on_user_stopped-Ensures user s v) (λ s' v'. IsValid-users _ _ _ _ s' v')

  pub on_user_started-Ensures :
      (user : ℕ) (s : State) → IsValid s → Ensures IsValid (on_user_started host user s)
  unfolding on_user_started
  on_user_started-Ensures user s v =
      bind-Ensures IsValid IsValid
        (if member user s.started_users
          then return s
          else create_emulated_volumes_for_user host.machine user s)
        _
        (if-Ensures IsValid (member user s.started_users) _ _ v
          (create_emulated-Ensures host.machine user s v))
        (λ s' v'.
          create_pending-Ensures host.machine reads
            (record s' { started_users = insert_user user s'.started_users })
            (IsValid-users _ _ _ _ s' v'))

  pub keyguard-Ensures :
      (showing : Bool) (s : State)
      → IsValid s
      → Ensures IsValid (on_secure_keyguard_state_changed host showing s)
  unfolding on_secure_keyguard_state_changed
  keyguard-Ensures showing s v =
      create_pending-Ensures host.machine reads (record s { keyguard_showing = showing })
        (IsValid-users _ _ _ _ s v)

  unmounted_nil :
      (vs : Volumes)
      → AllCreated vs
      → Ensures (λ ws. AllCreated ws × (vs ≡ nil → ws ≡ nil)) (unmount_volumes host.machine vs)
  unmounted_nil nil h = unfold unmount_volumes in (tt, λ e. refl)
  unmounted_nil (cons v vs) h =
      weaken-Ensures AllCreated (λ ws. AllCreated ws × (cons v vs ≡ nil → ws ≡ nil))
        (unmount_volumes host.machine (cons v vs))
        (Life.unmount_volumes-Ensures host.machine (cons v vs) h) (λ ws l. (l, λ e. absurd cc))

  abbrev Unmounted : State → State → Type 0
  Unmounted s s' = IsValid s' × (s.internal_emulated ≡ nil → s'.internal_emulated ≡ nil)

  pub unmount_all_volumes-Ensures :
      (s : State) → IsValid s → Ensures (Unmounted s) (unmount_all_volumes host s)
  unfolding unmount_all_volumes
  unmount_all_volumes-Ensures s v =
      bind-Ensures (λ ws. AllCreated ws × (s.internal_emulated ≡ nil → ws ≡ nil)) (Unmounted s)
        (unmount_volumes host.machine s.internal_emulated) _
        (unmounted_nil s.internal_emulated v.emulated)
        (λ ws l.
          bind-Ensures (All IsUp) (Unmounted s) (unmount_disks host.machine s.disks) _
            (unmount_disks-Ensures host.machine reads s.disks v.up)
            (λ ds ups. (
              record { up = ups; down = v.down; emulated = l.0; obb = v.obb; sources = v.sources },
              l.1,
            )))

  virtual-IsDown :
      (device : Device) → IsDown (new_disk (codes "virtual") device (codes "virtual") 5)
  unfolding new_disk is_stub
  virtual-IsDown device = (refl, refl)

  pub update_virtual_disk-Ensures :
      (s : State) → IsValid s → Ensures IsValid (update_virtual_disk host s)
  unfolding update_virtual_disk
  update_virtual_disk-Ensures s v =
      if-Ensures IsValid host.virtual_disk_enabled _ _
        (elim (Option-cases s.virtual_disk) [
          | inr (device, e) ↦ rw (e, Ensures) v
          | inl e ↦
              rw (e, Ensures)
                (elim (Option-cases host.loop_device) [
                  | inl e' ↦ rw (e', Ensures) v
                  | inr (device, e') ↦
                      rw (e', Ensures)
                        (handle_disk_added-Ensures host.machine reads _
                          (record s { virtual_disk = some device }) (virtual-IsDown device)
                          (record {
                            up = v.up;
                            down = v.down;
                            emulated = v.emulated;
                            obb = v.obb;
                            sources = v.sources;
                          }))
                ])
        ])
        (elim (Option-cases s.virtual_disk) [
          | inl e ↦ rw (e, Ensures) v
          | inr (device, e) ↦
              rw (e, Ensures)
                (bind-Ensures IsValid IsValid (handle_disk_removed host.machine device s) _
                  (handle_disk_removed-Ensures host.machine reads device s v)
                  (λ s' v'. record {
                    up = v'.up;
                    down = v'.down;
                    emulated = v'.emulated;
                    obb = v'.obb;
                    sources = v'.sources;
                  }))
        ])

  starts :
      (s : State) (vs : Volumes)
      → vs ≡ nil
      → IsValid (record s { internal_emulated = vs })
      → Ensures IsValid (do
        check (elim vs [ nil ↦ true | cons v vs ↦ false ])
        v ← of_volume (VolumeBase.create host.machine.methods (emulated_volume 0))
        update_virtual_disk host (record s { internal_emulated = add_volume vs v }))
  starts s nil e v = before-Ensures IsValid [] _ (
      bind-Ensures IsLive IsValid
        (of_volume (VolumeBase.create host.machine.methods (emulated_volume 0))) _
        (create-Ensures host.machine.methods (emulated_volume 0) (emulated_volume-IsFresh 0))
        (λ v' l.
          update_virtual_disk-Ensures (record s { internal_emulated = add_volume nil v' })
            (record {
              up = v.up;
              down = v.down;
              emulated = AllCreated-add_volume nil v' tt l;
              obb = v.obb;
              sources = v.sources;
            })))
  starts s (cons w ws) e v = absurd cc

  pub start-Ensures :
      (s : State) → s.internal_emulated ≡ nil → IsValid s → Ensures IsValid (start host s)
  unfolding start
  start-Ensures s e v =
      bind-Ensures (Unmounted s) IsValid (unmount_all_volumes host s) _
        (unmount_all_volumes-Ensures s v) (λ s' l. starts s' s'.internal_emulated (l.1 e) l.0)

  pub reset-Ensures : (s : State) → IsValid s → Ensures IsValid (reset host s)
  unfolding reset
  reset-Ensures s v =
      bind-Ensures (λ _. Unit {0}) IsValid (destroy_volumes host.machine s.internal_emulated) _
        (destroy_volumes-Ensures host.machine s.internal_emulated v.emulated)
        (λ _ _.
          bind-Ensures (λ ds. All IsUp (remove_stubs ds)) IsValid
            (recreate_disks host.machine s.disks) _
            (recreate_disks-Ensures host.machine reads s.disks v.up)
            (λ ds ups.
              bind-Ensures IsValid IsValid
                (update_virtual_disk host (record s {
                  internal_emulated = nil;
                  disks = remove_stubs ds;
                  pending = remove_stubs s.pending;
                }))
                _
                (update_virtual_disk-Ensures _ (record {
                  up = ups;
                  down = remove_stubs-IsDown s.pending v.down;
                  emulated = tt;
                  obb = v.obb;
                  sources = v.sources;
                }))
                (λ s' v'. IsValid-users [] [] [] _ s' v')))

  pub shutdown-Ensures : (s : State) → IsValid s → Ensures IsValid (shutdown host s)
  unfolding shutdown
  shutdown-Ensures s v = by_volumes s.internal_emulated v.emulated
    where
      by_volumes :
          (vs : Volumes)
          → AllCreated vs
          → Ensures IsValid (elim vs as (λ _. Run Event State) [
            | nil ↦ return s
            | cons w ws ↦ do
              destroy_volumes host.machine (cons w ws)
              destroy_disks host.machine s.disks
              return (record s { internal_emulated = nil; disks = []; pending = [] })
          ])
      by_volumes nil h = v
      by_volumes (cons w ws) h =
          bind-Ensures (λ _. Unit {0}) IsValid (destroy_volumes host.machine (cons w ws)) _
            (destroy_volumes-Ensures host.machine (cons w ws) h)
            (λ _ _.
              bind-Ensures (λ _. Unit {0}) IsValid (destroy_disks host.machine s.disks) _
                (destroy_disks-Ensures host.machine reads s.disks v.up)
                (λ _ _. record {
                  up = tt;
                  down = tt;
                  emulated = tt;
                  obb = v.obb;
                  sources = v.sources;
                }))
