-- ===== src/VolumeBase/Stacked.antt =====
-- Which volumes an unmount tears down.
use mathlib.Core.List.{append-nil}
use android_system_vold.Common.{
  ◌≡◌, refl, ap, subst, ◌∙◌, inl, inr, Option, none, some, List, [], ◌∷◌, ◌++◌, true, false,
  if◌then◌else◌, Text, ℤ, arith, Bool-cases, Option-cases,
}
use android_system_vold.VolumeBase.{
  State, unmounted, ejecting, removed, bad_removal, Info, Volume, volume, Volumes, nil, cons, Event,
  volume_destroyed, Methods, info, stacked, is_mounted, both_destroyed, clear, may_clear, destroy,
  destroy_stacked, destroy_with, unmount, unmount_with, finish_destroy, tell_state,
}
use android_system_vold.VolumeBase.Safety.{IsSound, unmount-ne-none}

-- The volumes that the listener is told are destroyed, in order.
abbrev pub destroyed : List Event → List Text
destroyed [] = []
destroyed (volume_destroyed id ∷ es) = id ∷ destroyed es
destroyed (e ∷ es) = destroyed es

-- The volumes that stand on each other from here up, each behind what stands on it.
abbrev mutual
  pub tower : Volume → List Text
  tower (volume i vs) = (if is_mounted i.state then towers vs else []) ++ i.id ∷ []

  pub towers : Volumes → List Text
  towers nil = []
  towers (cons v vs) = tower v ++ towers vs

abbrev mutual
  pub IsLoud : Volume → Type 0
  IsLoud (volume i vs) = (i.silent ≡ false) × AllLoud vs

  pub AllLoud : Volumes → Type 0
  AllLoud nil = Unit {0}
  AllLoud (cons v vs) = IsLoud v × AllLoud vs

destroyed-append : (xs ys : List Event) → destroyed (xs ++ ys) ≡ destroyed xs ++ destroyed ys
destroyed-append [] ys = refl
destroyed-append (volume_destroyed id ∷ xs) ys = ap (λ t. id ∷ t) (destroyed-append xs ys)
destroyed-append (_ ∷ xs) ys = destroyed-append xs ys

module _ (methods : Methods) (heard : methods.listening ≡ true) where
  finish_destroy-destroyed :
      (state : State) (i : Info) (vs : Volumes) (events : List Event)
      → i.silent ≡ false
      → destroyed (finish_destroy methods state (volume i vs) events).2
        ≡ destroyed events ++ i.id ∷ []
  unfolding finish_destroy
  finish_destroy-destroyed state i vs events q = rw (q, heard) (simp (destroyed-append, append-nil))

  abbrev DestroysTo : List Text → Option (Volume × ℤ × List Event) → Type 0
  DestroysTo ids none = Unit {0}
  DestroysTo ids (some r) = destroyed r.2 ≡ ids

  abbrev EventsTo : List Text → Option (List Event) → Type 0
  EventsTo ids none = Unit {0}
  EventsTo ids (some es) = destroyed es ≡ ids

  abbrev StackedTo : List Text → Option (Volumes × List Event) → Type 0
  StackedTo ids none = Unit {0}
  StackedTo ids (some r) = destroyed r.1 ≡ ids

  clear-EventsTo :
      (ids : List Text) (o : Option (Volumes × List Event))
      → StackedTo ids o
      → EventsTo ids (clear o)
  unfolding clear
  clear-EventsTo ids none h = tt
  clear-EventsTo ids (some (vs, es)) h = elim (Bool-cases (may_clear vs)) [
    | inl free ↦ rw free h
    | inr held ↦ rw held tt
  ]

  -- What the listener hears of an unmount.
  abbrev ejected : Info → List Event → List Event
  ejected i es = tell_state methods ejecting i ++ es ++ tell_state methods unmounted i

  ejected-destroyed :
      (i : Info) (es : List Event) (ids : List Text)
      → i.silent ≡ false
      → destroyed es ≡ ids
      → destroyed (ejected i es) ≡ ids
  ejected-destroyed i es ids q e = rw (q, heard) (simp (destroyed-append, append-nil) e)

  unmount_with-destroyed :
      (i : Info) (vs : Volumes) (es : List Event) (ids : List Text)
      → i.silent ≡ false
      → is_mounted i.state ≡ true
      → destroyed es ≡ ids
      → DestroysTo ids (unmount_with methods (some es) i vs)
  unfolding unmount_with
  unmount_with-destroyed i vs es ids q up e = rw up (ejected-destroyed i es ids q e)

  destroy_with-destroyed :
      (i : Info) (vs : Volumes) (below : Option (List Event)) (ids : List Text)
      → i.silent ≡ false
      → EventsTo ids below
      → DestroysTo
          ((if is_mounted i.state then ids else []) ++ i.id ∷ [])
          (destroy_with methods below i vs)
  unfolding destroy_with
  destroy_with-destroyed i vs none ids q e = elim (Bool-cases i.created) [
    | inr unmade ↦ rw unmade tt
    | inl made ↦ elim (Bool-cases (is_mounted i.state)) [
      | inl up ↦ unfold unmount_with in rw (made, up) tt
      | inr down ↦ rw (made, down) (finish_destroy-destroyed removed i vs [] q)
    ]
  ]
  destroy_with-destroyed i vs (some es) ids q e = elim (Bool-cases i.created) [
    | inr unmade ↦ rw unmade tt
    | inl made ↦ elim (Bool-cases (is_mounted i.state)) [
      | inl up ↦
          unfold unmount_with in
          rw (made, up)
            (finish_destroy-destroyed bad_removal (record i { state = unmounted }) nil
                (ejected i es) q
              ∙ ap (λ (t : List Text). t ++ i.id ∷ []) (ejected-destroyed i es ids q e))
      | inr down ↦ rw (made, down) (finish_destroy-destroyed removed i vs [] q)
    ]
  ]

  both_destroyed-destroyed :
      (rs : Option (Volume × ℤ × List Event)) (bs : Option (Volumes × List Event))
      (ids jds : List Text)
      → DestroysTo ids rs
      → StackedTo jds bs
      → StackedTo (ids ++ jds) (both_destroyed rs bs)
  both_destroyed-destroyed none bs ids jds h g = tt
  both_destroyed-destroyed (some r) none ids jds h g = tt
  both_destroyed-destroyed (some r) (some (us, es)) ids jds h g =
      destroyed-append r.2 es ∙ ap (λ t. t ++ destroyed es) h ∙ ap (λ t. ids ++ t) g

  mutual
    unfolding destroy destroy_stacked

    destroy-destroyed : (v : Volume) → IsLoud v → DestroysTo (tower v) (destroy methods v)
    destroy-destroyed (volume i vs) l =
        destroy_with-destroyed i vs (clear (destroy_stacked methods vs)) (towers vs) l.0 (
          clear-EventsTo (towers vs) (destroy_stacked methods vs)
            (destroy_stacked-destroyed vs l.1))

    destroy_stacked-destroyed :
        (vs : Volumes) → AllLoud vs → StackedTo (towers vs) (destroy_stacked methods vs)
    destroy_stacked-destroyed nil l = refl
    destroy_stacked-destroyed (cons v vs) l =
        both_destroyed-destroyed (destroy methods v) (destroy_stacked methods vs) (tower v)
          (towers vs) (destroy-destroyed v l.0) (destroy_stacked-destroyed vs l.1)

  unmount-loud :
      (i : Info) (vs : Volumes)
      → IsLoud (volume i vs)
      → is_mounted i.state ≡ true
      → DestroysTo (towers vs) (unmount methods (volume i vs))
  unfolding unmount
  unmount-loud i vs l up = elim (Option-cases (clear (destroy_stacked methods vs))) [
    | inl failed ↦ unfold unmount_with in rw (failed, up) tt
    | inr (es, e) ↦ rw e (
        unmount_with-destroyed i vs es (towers vs) l.0 up (
          subst (EventsTo (towers vs)) e (
            clear-EventsTo (towers vs) (destroy_stacked methods vs)
              (destroy_stacked-destroyed vs l.1))))
  ]

unmount_state :
    (methods : Methods) (i : Info) (vs : Volumes) (r : Volume × ℤ × List Event)
    → is_mounted i.state ≡ true
    → unmount methods (volume i vs) ≡ some r
    → ((info r.0).state ≡ unmounted) × (stacked r.0 ≡ nil)
unfolding unmount unmount_with
unmount_state methods i vs r up e = ground arith

-- Unmounting a mounted volume never aborts: the volume ends up unmounted with nothing stacked on
-- it, and the listener is told that exactly the volumes of the towers above it are destroyed,
-- each after those that stand on it. A listener is registered and no volume is silent.
pub unmount-towers :
    (methods : Methods) (i : Info) (vs : Volumes)
    → methods.listening ≡ true
    → IsLoud (volume i vs)
    → IsSound (volume i vs)
    → is_mounted i.state ≡ true
    → (r : Volume × ℤ × List Event) × (unmount methods (volume i vs) ≡ some r)
      × ((info r.0).state ≡ unmounted)
      × (stacked r.0 ≡ nil)
      × (destroyed r.2 ≡ towers vs)
unmount-towers methods i vs heard l s up = elim (Option-cases (unmount methods (volume i vs))) [
  | inl failed ↦ absurd (unmount-ne-none methods (volume i vs) s failed)
  | inr (r, e) ↦
      let (down, bare) = unmount_state methods i vs r up e in
      (
        r,
        e,
        down,
        bare,
        subst (DestroysTo methods heard (towers vs)) e (unmount-loud methods heard i vs l up),
      )
]
