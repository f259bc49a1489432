-- ===== src/VolumeManager/Tests.antt =====
-- The theorems about VolumeManager.cpp at concrete requests.
use android_system_vold.Common.{
  ◌≡◌, ◌↔◌, refl, none, some, List, [], ◌∷◌, true, false, codes, pos, All, text_eq, arith,
}
use android_system_vold.VolumeBase.Tests.{classes}
use android_system_vold.Disk.Outside.{Machine, Event}
use android_system_vold.VolumeManager.Data.{State, Host, DiskSource, initial, is_ready}
use android_system_vold.VolumeManager.BlockEvents.{
  BlockEvent, add, handle_action, handle_block_event, add_from_sources, disk_flags,
}
use android_system_vold.VolumeManager.Requests.{
  Request, disk_source, block, user_started, stub_created, stub_flags, create_stub_volume, mounting,
  starting, keyguard, apply, run,
}
use android_system_vold.VolumeManager.Disks.{handle_disk_added}
use android_system_vold.Disk.{new_disk}
use android_system_vold.VolumeManager.Owned.{create_stub_volume-none_iff, has_stub_flag}
use android_system_vold.VolumeManager.Locked.{OfVolume}
use android_system_vold.VolumeManager.Pending.{NoneWaits}
use android_system_vold.VolumeManager.Waiting.{run_locked, apply-NoneWaits}

abbrev phone : Machine
phone = record {
  methods = classes;
  block_dev_size = λ path. some 4096;
  read_file = λ path. none;
  write_file = λ path content. true;
  failed_read = pos 0;
  trim = λ s. s;
  parse_int = λ s. none;
  parse_bounded = λ s low high. some low;
  split = λ s. s ∷ [];
  equals_ignore_case = λ s t. false;
  stoi = λ s. some (pos 0);
  words = λ s. s ∷ [];
  is_virtio = λ n. false;
  identifies = λ path. true;
  execute = λ command. (pos 0, []);
  random_uuid = none;
  volume_key = none;
}

abbrev host : Host
host = record {
  machine = phone;
  virtual_disk_enabled = true;
  loop_device = some (record { major = 7; minor = 8 });
  device_of = λ n. record { major = 0; minor = n };
  stub_number = λ id. some 1;
}

abbrev slot : DiskSource
slot = record { matches = λ path. true; nickname = codes "sd"; flags = 1 }

abbrev card : BlockEvent
card = record {
  action = add;
  event_path = codes "/devices/mmc";
  dev_type = codes "disk";
  device = some (record { major = 179; minor = 0 });
}

abbrev morning : List Request
morning =
    disk_source slot
    ∷ block card
    ∷ stub_created 36
    ∷ user_started 0
    ∷ keyguard false
    ∷ mounting (codes "emulated;0") 6 0
    ∷ []

abbrev night : List Request
night = disk_source slot ∷ block card ∷ user_started 0 ∷ mounting (codes "emulated;0") 6 0 ∷ []

run_locked_example :
    (s : State) × (events : List Event) × (run host (starting ∷ night) initial ≡ some (s, events))
    × All OfVolume events
    × (s.disks ≡ [])
run_locked_example =
    run_locked host night (λ content. λ e. cc) (λ i. (refl, (tt, tt), tt))
      (omega arith, (λ d e. cc, (tt, (tt, tt)))) (tt, (tt, (tt, (tt, tt))))

abbrev at_boot : State
at_boot = record initial { disk_sources = slot ∷ [] }

abbrev with_card : State
with_card = record at_boot {
  pending = new_disk (codes "/devices/mmc") (record { major = 179; minor = 0 }) (codes "sd") 5 ∷ [];
}

apply-NoneWaits_example : NoneWaits with_card
apply-NoneWaits_example =
    apply-NoneWaits host (block card) at_boot with_card [] (λ ready. refl)
      (unfold text_eq apply handle_block_event handle_action add_from_sources handle_disk_added
          disk_flags is_ready in
        refl)

create_stub_volume-none_iff_example :
    (create_stub_volume host 12 initial ≡ none) ↔ (has_stub_flag (stub_flags 12) ≡ false)
create_stub_volume-none_iff_example =
    create_stub_volume-none_iff host 12 initial (λ content. λ e. cc)
      (record { up = tt; down = tt; emulated = tt; obb = tt; sources = tt })
