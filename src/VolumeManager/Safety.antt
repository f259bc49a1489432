-- ===== src/VolumeManager/Safety.antt =====
-- What the manager is asked: no CHECK fails, and its state stays valid.
use android_system_vold.Common.{◌≡◌, ◌≢◌, refl, none, some, List, [], ◌∷◌, All}
use android_system_vold.Common.Aborts.{
  Ensures, bind-Ensures, weaken-Ensures, Ensures-result, All-append,
}
use android_system_vold.VolumeBase.{nil, Info}
use android_system_vold.VolumeBase.Safety.{AllCreated}
use android_system_vold.Disk.Outside.{Machine, Event}
use android_system_vold.Disk.Life.{ReadsNumbers}
use android_system_vold.VolumeManager.Data.{State, Host, initial}
use android_system_vold.VolumeManager.Requests.{
  Request, disk_source, block, user_added, user_removed, user_started, user_stopped, keyguard,
  starting, resetting, shutting_down, unmounting_all, obb_created, obb_destroyed, stub_created,
  stub_destroyed, mounting, unmounting, formatting, apply, run, unmount_all_volumes, start,
  stub_flags, mount_change, unmount_change, format_change,
}
use android_system_vold.VolumeManager.Changes.{IsSource, IsValid}
use android_system_vold.VolumeManager.Blocks.{NamesDevice, handle_block_event-Ensures}
use android_system_vold.VolumeManager.Sessions.{
  on_user_added-IsValid, on_user_stopped-Ensures, on_user_removed-Ensures, on_user_started-Ensures,
  keyguard-Ensures, unmount_all_volumes-Ensures, start-Ensures, reset-Ensures, shutdown-Ensures,
}
use android_system_vold.VolumeManager.Owned.{
  HasStubFlag, create_obb-Ensures, destroy_obb-Ensures, create_stub_volume-Ensures,
  destroy_stub_volume-Ensures, on_volume-Ensures, mount-KeepsLive, unmount-KeepsLive,
  format-KeepsLive,
}

-- What is asked so that nothing aborts: a source has no other flags than its two, an event of a
-- disk has the numbers of its device, a stub volume is made with one of the two flags of stubs
-- and destroyed by an id with a number, and the manager is started before everything else.
abbrev pub IsAllowed : Host → Request → Type 0
IsAllowed host (disk_source source) = IsSource source
IsAllowed host (block evt) = NamesDevice evt
IsAllowed host starting = ⊥
IsAllowed host (stub_created flags) = HasStubFlag (stub_flags flags)
IsAllowed host (stub_destroyed id) = host.stub_number id ≢ none
IsAllowed host _ = Unit {0}

-- What `doPostMount` stacks on a volume is created.
abbrev pub StacksCreated : Machine → Type 0
StacksCreated machine = (i : Info) → AllCreated (machine.methods.do_post_mount i)

module _ (host : Host) (reads : ReadsNumbers host.machine)
    (posts : StacksCreated host.machine) where
  apply-Ensures :
      (r : Request) (s : State) → IsAllowed host r → IsValid s → Ensures IsValid (apply host r s)
  unfolding apply
  apply-Ensures (disk_source source) s h v = record {
    up = v.up;
    down = v.down;
    emulated = v.emulated;
    obb = v.obb;
    sources = All-append IsSource s.disk_sources (source ∷ []) v.sources (h, tt);
  }
  apply-Ensures (block evt) s h v = handle_block_event-Ensures host.machine reads evt s h v
  apply-Ensures (user_added user serial shares) s h v = on_user_added-IsValid user serial shares s v
  apply-Ensures (user_removed user) s h v = on_user_removed-Ensures host reads user s v
  apply-Ensures (user_started user) s h v = on_user_started-Ensures host reads user s v
  apply-Ensures (user_stopped user) s h v = on_user_stopped-Ensures host reads user s v
  apply-Ensures (keyguard showing) s h v = keyguard-Ensures host reads showing s v
  apply-Ensures starting s h v = absurd h
  apply-Ensures resetting s h v = reset-Ensures host reads s v
  apply-Ensures shutting_down s h v = shutdown-Ensures host reads s v
  apply-Ensures unmounting_all s h v =
      weaken-Ensures (λ s'. IsValid s' × (s.internal_emulated ≡ nil → s'.internal_emulated ≡ nil))
        IsValid (unmount_all_volumes host s) (unmount_all_volumes-Ensures host reads s v)
        (λ s' l. l.0)
  apply-Ensures (obb_created source) s h v = create_obb-Ensures host reads source s v
  apply-Ensures (obb_destroyed id) s h v = destroy_obb-Ensures host reads id s v
  apply-Ensures (stub_created flags) s h v = create_stub_volume-Ensures host reads flags s h v
  apply-Ensures (stub_destroyed id) s h v = destroy_stub_volume-Ensures host reads id s h v
  apply-Ensures (mounting id flags user) s h v =
      on_volume-Ensures host reads id (mount_change host flags user) s
        (mount-KeepsLive host reads posts flags user) v
  apply-Ensures (unmounting id) s h v =
      on_volume-Ensures host reads id (unmount_change host) s (unmount-KeepsLive host reads) v
  apply-Ensures (formatting id fs_type) s h v =
      on_volume-Ensures host reads id (format_change host fs_type) s
        (format-KeepsLive host reads fs_type) v

  run-Ensures :
      (rs : List Request) (s : State)
      → All (IsAllowed host) rs
      → IsValid s
      → Ensures IsValid (run host rs s)
  unfolding run
  run-Ensures [] s h v = v
  run-Ensures (r ∷ rs) s h v =
      bind-Ensures IsValid IsValid (apply host r s) _ (apply-Ensures r s h.0 v)
        (λ s' v'. run-Ensures rs s' h.1 v')

  start-first :
      (rs : List Request)
      → All (IsAllowed host) rs
      → Ensures IsValid (run host (starting ∷ rs) initial)
  unfolding run apply
  start-first rs h =
      bind-Ensures IsValid IsValid (start host initial) _
        (start-Ensures host reads initial refl
          (record { up = tt; down = tt; emulated = tt; obb = tt; sources = tt }))
        (λ s v. run-Ensures rs s h v)

pub run-IsValid :
    (host : Host) (rs : List Request)
    → ReadsNumbers host.machine
    → StacksCreated host.machine
    → All (IsAllowed host) rs
    → (s : State) × (events : List Event) × (run host (starting ∷ rs) initial ≡ some (s, events))
      × IsValid s
run-IsValid host rs reads posts h =
    Ensures-result IsValid (run host (starting ∷ rs) initial) (start-first host reads posts rs h)
