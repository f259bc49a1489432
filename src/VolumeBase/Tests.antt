-- ===== src/VolumeBase/Tests.antt =====
-- The theorems about VolumeBase.cpp at a concrete volume.
use android_system_vold.Common.{
  ◌≡◌, ◌⊎◌, ◌↔◌, refl, none, some, List, [], ◌∷◌, true, false, codes, arith, ℤ,
}
use android_system_vold.VolumeBase.{
  private, emulated, mounted, unmounted, checking, Info, Volume, volume, nil, cons, info, stacked,
  Event, volume_created, state_changed, Methods, mount, unmount, creating, destroying, mounting,
  unmounting, apply, okay, append_volumes,
}
use android_system_vold.VolumeBase.Safety.{IsSound, apply-none_iff, apply-IsSound}
use android_system_vold.VolumeBase.Stacked.{destroyed, towers, unmount-towers}
use android_system_vold.VolumeBase.Guards.{told, mount_outcome}

abbrev base : Info
base = record {
  id = codes "private:7,1";
  disk_id = codes "disk:7,0";
  part_guid = [];
  kind = private;
  mount_flags = 0;
  mount_user_id = 0;
  created = true;
  state = mounted;
  path = codes "/mnt/expand/x";
  internal_path = [];
  silent = false;
}

abbrev child : Volume
child = volume (record base { id = codes "emulated"; kind = emulated; state = unmounted }) nil

abbrev pub classes : Methods
classes = record {
  do_create = λ i. okay;
  do_destroy = λ i. okay;
  do_mount = λ i. record { status = okay; path = some (codes "/mnt/y"); internal_path = none };
  do_post_mount = λ i. cons child nil;
  post_mount_events = λ i.
      volume_created (codes "emulated") emulated [] [] 0
      ∷ state_changed (codes "emulated") unmounted
      ∷ [];
  do_unmount = λ i. okay;
  do_format = λ fs_type i. okay;
  listening = true;
}

base-IsSound : IsSound (volume base (cons child nil))
base-IsSound = ground arith

apply-none_iff_example : (apply classes unmounting (volume base (cons child nil)) ≡ none) ↔ (
    ((unmounting ≡ creating) × (base.created ≡ true))
    ⊎ ((unmounting ≡ destroying) × (base.created ≡ false)))
apply-none_iff_example =
    apply-none_iff classes unmounting (volume base (cons child nil)) base-IsSound

abbrev idle : Info
idle = record base { state = unmounted }

apply-IsSound_example : IsSound (mount classes (volume idle nil)).0
apply-IsSound_example =
    apply-IsSound classes mounting (volume idle nil) (mount classes (volume idle nil))
      (λ i. ground arith) (λ e. refl) (ground arith) (unfold apply in refl)

unmount-towers_example :
    (r : Volume × ℤ × List Event) × (unmount classes (volume base (cons child nil)) ≡ some r)
    × ((info r.0).state ≡ unmounted)
    × (stacked r.0 ≡ nil)
    × (destroyed r.2 ≡ towers (cons child nil))
unmount-towers_example =
    unmount-towers classes base (cons child nil) refl (ground arith) base-IsSound refl

mount_outcome_example :
    ((mount classes (volume idle nil)).1 ≡ okay)
    × ((info (mount classes (volume idle nil)).0).state ≡ mounted)
    × (told (mount classes (volume idle nil)).2 ≡ checking ∷ mounted ∷ unmounted ∷ [])
    × ((info (mount classes (volume idle nil)).0).path ≡ codes "/mnt/y")
    × ((info (mount classes (volume idle nil)).0).internal_path ≡ [])
    × (stacked (mount classes (volume idle nil)).0 ≡ append_volumes nil (cons child nil))
mount_outcome_example = mount_outcome classes idle nil refl refl refl
