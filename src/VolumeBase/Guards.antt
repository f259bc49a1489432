-- ===== src/VolumeBase/Guards.antt =====
-- What `mount` does in each state, and what the listener hears of it.
use mathlib.Core.Path.{ap₂}
use mathlib.Core.List.{append-nil}
use android_system_vold.Common.{
  ◌≡◌, refl, Option, none, some, List, [], ◌∷◌, ◌++◌, true, false, if◌then◌else◌, Text, ℤ, ap, ◌∙◌,
  arith,
}
use android_system_vold.VolumeBase.{
  State, checking, mounted, unmountable, Info, volume, Volumes, Event, state_changed, Methods, info,
  stacked, is_idle, is_okay, busy, mount, mount_path, mount_internal_path, set_path,
  set_internal_path, append_volumes, tell_state,
}

-- The states that the listener is told.
abbrev pub told : List Event → List State
told [] = []
told (state_changed id state ∷ es) = state ∷ told es
told (e ∷ es) = told es

told-append : (xs ys : List Event) → told (xs ++ ys) ≡ told xs ++ told ys
told-append [] ys = refl
told-append (state_changed id state ∷ xs) ys = ap (λ t. state ∷ t) (told-append xs ys)
told-append (_ ∷ xs) ys = told-append xs ys

told_quiet :
    (xs ps qs ys zs : List Event)
    → told ps ≡ []
    → told qs ≡ []
    → told (xs ++ ps ++ qs ++ ys ++ zs) ≡ told xs ++ told ys ++ told zs
told_quiet xs ps qs ys zs p q = simp (told-append, p, q, append-nil)

told-tell_state :
    (methods : Methods) (state : State) (i : Info)
    → methods.listening ≡ true
    → i.silent ≡ false
    → told (tell_state methods state i) ≡ state ∷ []
told-tell_state methods state i heard loud = rw (loud, heard) refl

abbrev pub result_state : ℤ → State
result_state res = if is_okay res then mounted else unmountable

-- The subclass's paths are accepted while it mounts, and no state is told for them.
mount_path_checking :
    (methods : Methods) (path : Option Text) (i : Info)
    → i.state ≡ checking
    → (told (mount_path methods path i).1 ≡ [])
      × ((mount_path methods path i).0.path ≡ (elim path [ none ↦ i.path | some p ↦ p ]))
      × ((mount_path methods path i).0.internal_path ≡ i.internal_path)
      × ((mount_path methods path i).0.silent ≡ i.silent)
unfolding mount_path
mount_path_checking methods none i h = ground arith
mount_path_checking methods (some p) i h = unfold set_path in ground arith

mount_internal_path_checking :
    (methods : Methods) (path : Option Text) (i : Info)
    → i.state ≡ checking
    → ((mount_internal_path methods path i).0.state ≡ checking)
      × (told (mount_internal_path methods path i).1 ≡ [])
      × ((mount_internal_path methods path i).0.path ≡ i.path)
      × ((mount_internal_path methods path i).0.internal_path
          ≡ (elim path [ none ↦ i.internal_path | some p ↦ p ]))
      × ((mount_internal_path methods path i).0.silent ≡ i.silent)
unfolding mount_internal_path
mount_internal_path_checking methods none i h = ground arith
mount_internal_path_checking methods (some p) i h = unfold set_internal_path in ground arith

-- A volume that is neither unmounted nor unmountable refuses to mount, unchanged.
mount-busy :
    (methods : Methods) (i : Info) (vs : Volumes)
    → is_idle i.state ≡ false
    → mount methods (volume i vs) ≡ (volume i vs, busy, [])
unfolding mount
mount-busy methods i vs h = rw h refl

-- From an idle state a mount goes through `checking` to `mounted` or `unmountable`, as `doMount`
-- succeeds or fails. The listener is told exactly these two states and then, only if it succeeds,
-- those that `doPostMount` tells for what it stacks, which is stacked only then. The paths that
-- `doMount` sets are taken. The volume is not silent and a listener is registered.
pub mount_outcome :
    (methods : Methods) (i : Info) (vs : Volumes)
    → methods.listening ≡ true
    → i.silent ≡ false
    → is_idle i.state ≡ true
    → let m = methods.do_mount (record i { state = checking }) in
      let v = (mount methods (volume i vs)).0 in
      ((mount methods (volume i vs)).1 ≡ m.status)
      × ((info v).state ≡ result_state m.status)
      × (told (mount methods (volume i vs)).2
          ≡ checking
            ∷ result_state m.status
            ∷ told (if is_okay m.status then methods.post_mount_events (info v) else []))
      × ((info v).path ≡ (elim m.path [ none ↦ i.path | some p ↦ p ]))
      × ((info v).internal_path ≡ (elim m.internal_path [ none ↦ i.internal_path | some p ↦ p ]))
      × (stacked v
          ≡ (if is_okay m.status then append_volumes vs (methods.do_post_mount (info v)) else vs))
unfolding mount
mount_outcome methods i vs heard loud idle =
    let started : Info = record i { state = checking } in
    let m = methods.do_mount started in
    let (c, t', p', q', s') = mount_internal_path_checking methods m.internal_path started refl in
    let inside = (mount_internal_path methods m.internal_path started).0 in
    let (t, p, q, s) = mount_path_checking methods m.path inside c in
    let done : Info = record (mount_path methods m.path inside).0 {
      state = result_state m.status;
    } in
    let later : List Event = if is_okay m.status then methods.post_mount_events done else [] in
    rw idle (
      refl,
      refl,
      told_quiet (tell_state methods checking i)
            (mount_internal_path methods m.internal_path started).1
            (mount_path methods m.path inside).1 _ later t' t
          ∙ ap₂ (λ xs ys. xs ++ ys ++ told later) (told-tell_state methods checking i heard loud)
              (told-tell_state methods (result_state m.status) (mount_path methods m.path inside).0
                heard (s ∙ s' ∙ loud)),
      p ∙ ap (λ (d : Text). elim m.path as (λ _. Text) [ none ↦ d | some p ↦ p ]) p',
      q ∙ q',
      refl,
    )
