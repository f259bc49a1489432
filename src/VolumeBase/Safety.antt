-- ===== src/VolumeBase/Safety.antt =====
-- The CHECKs of `create`, of `destroy` and of the destructor, and what may be stacked on what.
use android_system_vold.Common.{
  ◌≡◌, ◌≢◌, ◌↔◌, refl, subst, ◌⊎◌, inl, inr, Option, none, some, List, [], true, false, Text, ℤ,
  arith, Bool-cases, Option-cases,
}
use android_system_vold.VolumeBase.{
  State, unmounted, mounted, checking, unmountable, busy, set_state, Info, Volume, volume, Volumes,
  nil, cons, Event, Methods, info, stacked, is_mounted, is_idle, is_okay, append_volumes,
  both_destroyed, may_drop, may_clear, clear, create, destroy, destroy_stacked, destroy_with,
  unmount, unmount_with, mount, format, format_idle, finish_destroy, Operation, creating,
  destroying, mounting, unmounting, formatting_as, apply,
}

-- Every stacked volume is created, and volumes are stacked on mounted ones only.
abbrev pub IsBare : State → Volumes → Type 0
IsBare state nil = Unit {0}
IsBare state (cons v vs) = is_mounted state ≡ true

abbrev mutual
  pub IsSound : Volume → Type 0
  IsSound (volume i vs) = IsBare i.state vs × AllCreated vs

  pub AllCreated : Volumes → Type 0
  AllCreated nil = Unit {0}
  AllCreated (cons v vs) = ((info v).created ≡ true) × IsSound v × AllCreated vs

AllCreated-append_volumes :
    (us vs : Volumes) → AllCreated us → AllCreated vs → AllCreated (append_volumes us vs)
unfolding append_volumes
AllCreated-append_volumes nil vs h g = g
AllCreated-append_volumes (cons u us) vs h g = (h.0, h.1, AllCreated-append_volumes us vs h.2 g)

pub IsBare-mounted : (state : State) (vs : Volumes) → is_mounted state ≡ true → IsBare state vs
IsBare-mounted state nil h = tt
IsBare-mounted state (cons v vs) h = h

bare_nil : (state : State) (vs : Volumes) → IsBare state vs → is_mounted state ≡ false → vs ≡ nil
bare_nil state nil b h = refl
bare_nil state (cons v vs) b h = cc

-- Without stacked volumes the state does not matter.
IsBare-any :
    (state state' : State) (vs : Volumes)
    → IsBare state vs
    → is_mounted state ≡ false
    → IsBare state' vs
IsBare-any state state' nil b h = tt
IsBare-any state state' (cons v vs) b h = absurd (ground (arith, b, h))

idle_not_mounted : (state : State) → is_idle state ≡ true → is_mounted state ≡ false
idle_not_mounted mounted h = cc
idle_not_mounted _ h = refl

IsSound-of_nil : (v : Volume) → stacked v ≡ nil → IsSound v
IsSound-of_nil (volume i nil) e = (tt, tt)
IsSound-of_nil (volume i (cons v vs)) e = absurd (cons≢nil e)
  where
    cons≢nil : cons v vs ≡ nil → ⊥
    cons≢nil q = cc

same_volume :
    (i : Info) (vs : Volumes) (r : Volume × ℤ × List Event)
    → some (volume i vs, busy, []) ≡ some r
    → volume i vs ≡ r.0
same_volume i vs r e = ground arith

-- The call is not aborted, and the destructors of what it leaves abort nothing.
abbrev DropsOne : Option (Volume × ℤ × List Event) → Type 0
DropsOne none = ⊥
DropsOne (some r) = may_drop r.0 ≡ true

abbrev DropsAll : Option (Volumes × List Event) → Type 0
DropsAll none = ⊥
DropsAll (some r) = may_clear r.0 ≡ true

both-DropsAll :
    (r : Option (Volume × ℤ × List Event)) (es : Option (Volumes × List Event))
    → DropsOne r
    → DropsAll es
    → DropsAll (both_destroyed r es)
unfolding may_clear
both-DropsAll none es h g = absurd h
both-DropsAll (some r) none h g = absurd g
both-DropsAll (some r) (some es) h g = rw (h, g) refl

clear-ne-none : (es : Option (Volumes × List Event)) → DropsAll es → clear es ≢ none
unfolding clear
clear-ne-none none h = absurd h
clear-ne-none (some es) h = ground (arith, h)

DropsOne-ne-none : (r : Option (Volume × ℤ × List Event)) → DropsOne r → r ≢ none
DropsOne-ne-none none h = absurd h
DropsOne-ne-none (some r) h = λ e. cc

-- A volume that is not created and not mounted may be dropped.
pub may_drop_idle :
    (v : Volume)
    → (info v).created ≡ false
    → is_mounted (info v).state ≡ false
    → IsSound v
    → may_drop v ≡ true
unfolding may_drop may_clear
may_drop_idle (volume i nil) c m s = rw c refl
may_drop_idle (volume i (cons v vs)) c m s = absurd (ground (arith, m, s.0))

module _ (methods : Methods) where
  destroy_with-DropsOne :
      (i : Info) (vs : Volumes) (below : Option (List Event))
      → below ≢ none
      → IsBare i.state vs
      → i.created ≡ true
      → DropsOne (destroy_with methods below i vs)
  unfolding destroy_with unmount_with finish_destroy may_drop may_clear
  destroy_with-DropsOne i vs none h b c = absurd (h refl)
  destroy_with-DropsOne i nil (some events) h b c = elim (Bool-cases (is_mounted i.state)) [
    | inl up ↦ rw (c, up) refl
    | inr down ↦ rw (c, down) refl
  ]
  destroy_with-DropsOne i (cons v vs) (some events) h b c = rw (c, b) refl

  mutual
    unfolding destroy destroy_stacked may_clear

    destroy_stacked-DropsAll :
        (vs : Volumes) → AllCreated vs → DropsAll (destroy_stacked methods vs)
    destroy_stacked-DropsAll nil h = refl
    destroy_stacked-DropsAll (cons v vs) h =
        both-DropsAll (destroy methods v) (destroy_stacked methods vs) (destroy-DropsOne v h.1 h.0)
          (destroy_stacked-DropsAll vs h.2)

    destroy-DropsOne :
        (v : Volume) → IsSound v → (info v).created ≡ true → DropsOne (destroy methods v)
    destroy-DropsOne (volume i vs) s c =
        destroy_with-DropsOne i vs (clear (destroy_stacked methods vs))
          (clear-ne-none (destroy_stacked methods vs) (destroy_stacked-DropsAll vs s.1)) s.0 c

  pub destroy-ne-none :
      (v : Volume) → IsSound v → (info v).created ≡ true → destroy methods v ≢ none
  destroy-ne-none v s c = DropsOne-ne-none (destroy methods v) (destroy-DropsOne v s c)

  pub unmount-ne-none : (v : Volume) → IsSound v → unmount methods v ≢ none
  unfolding unmount unmount_with
  unmount-ne-none (volume i vs) s =
      ground (arith, clear-ne-none (destroy_stacked methods vs) (destroy_stacked-DropsAll vs s.1))

  pub format-ne-none : (fs_type : Text) (v : Volume) → IsSound v → format methods fs_type v ≢ none
  unfolding format
  format-ne-none fs_type v s = ground (arith, unmount-ne-none v s)

  destroyed_twice :
      (i : Info) (vs : Volumes) (below : Option (List Event))
      → i.created ≡ false
      → destroy_with methods below i vs ≡ none
  unfolding destroy_with
  destroyed_twice i vs below h = ground arith

  -- The CHECKs abort the process exactly when a volume is created twice, or is destroyed without
  -- being created; the volumes stacked on it never make them fail, those of their destructors when
  -- the list of stacked volumes is cleared included.
  pub apply-none_iff :
      (op : Operation) (v : Volume)
      → IsSound v
      → (apply methods op v ≡ none) ↔ (
          ((op ≡ creating) × ((info v).created ≡ true))
          ⊎ ((op ≡ destroying) × ((info v).created ≡ false)))
  unfolding apply
  apply-none_iff creating (volume i vs) s = unfold create in ground arith
  apply-none_iff destroying (volume i vs) s =
      unfold destroy_with in
      ground (
        arith,
        destroy-ne-none (volume i vs) s,
        destroyed_twice i vs (clear (destroy_stacked methods vs)),
      )
  apply-none_iff mounting v s = ground arith
  apply-none_iff unmounting v s = ground (arith, unmount-ne-none v s)
  apply-none_iff (formatting_as fs_type) v s = ground (arith, format-ne-none fs_type v s)

  destroy_with-IsSound :
      (i : Info) (vs : Volumes) (below : Option (List Event)) (r : Volume × ℤ × List Event)
      → IsSound (volume i vs)
      → destroy_with methods below i vs ≡ some r
      → IsSound r.0
  unfolding destroy_with unmount_with finish_destroy
  destroy_with-IsSound i vs below r s e =
      IsSound-of_nil r.0 (ground (arith, bare_nil i.state vs s.0))

  unmount_with-IsSound :
      (i : Info) (vs : Volumes) (below : Option (List Event)) (r : Volume × ℤ × List Event)
      → IsSound (volume i vs)
      → unmount_with methods below i vs ≡ some r
      → IsSound r.0
  unfolding unmount_with
  unmount_with-IsSound i vs below r s e = elim (Bool-cases (is_mounted i.state)) [
    | inl up ↦ IsSound-of_nil r.0 (ground arith)
    | inr down ↦ subst (λ v. IsSound v) (same_volume i vs r (ground arith)) s
  ]

  pub mount-IsSound :
      (v : Volume)
      → ((i : Info) → AllCreated (methods.do_post_mount i))
      → IsSound v
      → IsSound (mount methods v).0
  unfolding mount
  mount-IsSound (volume i vs) h s = elim (Bool-cases (is_idle i.state)) [
    | inr held ↦ rw held s
    | inl idle ↦
        rw idle
          (elim (Bool-cases (is_okay (methods.do_mount (set_state methods checking i)).status)) [
            | inl fine ↦ rw fine (
              IsBare-mounted mounted (append_volumes vs (methods.do_post_mount _)) refl,
              AllCreated-append_volumes vs (methods.do_post_mount _) s.1 (h _),
            )
            | inr failed ↦
                rw failed
                  (IsBare-any i.state unmountable vs s.0 (idle_not_mounted i.state idle), s.1)
          ])
  ]

  pub unmount-IsSound :
      (v : Volume) (r : Volume × ℤ × List Event)
      → IsSound v
      → unmount methods v ≡ some r
      → IsSound r.0
  unfolding unmount
  unmount-IsSound (volume i vs) r s e =
      unmount_with-IsSound i vs (clear (destroy_stacked methods vs)) r s e

  format_idle-IsSound :
      (fs_type : Text) (v : Volume) (events : List Event)
      → IsSound v
      → IsSound (format_idle methods fs_type v events).0
  unfolding format_idle
  format_idle-IsSound fs_type (volume i vs) events s = elim (Bool-cases (is_idle i.state)) [
    | inr held ↦ rw held s
    | inl idle ↦ rw idle (IsBare-any i.state unmounted vs s.0 (idle_not_mounted i.state idle), s.1)
  ]

  pub create-IsSound :
      (v : Volume) (r : Volume × ℤ × List Event)
      → is_mounted (info v).state ≡ false
      → IsSound v
      → create methods v ≡ some r
      → IsSound r.0
  unfolding create
  create-IsSound (volume i vs) r h s e =
      subst (λ v. IsSound v) {x = volume (record i { created = true; state = unmounted }) vs}
        (ground arith)
        (let made : IsSound (volume (record i { created = true; state = unmounted }) vs) =
            (IsBare-any i.state unmounted vs s.0 h, s.1) in
          made)

  pub format-IsSound :
      (fs_type : Text) (v : Volume) (r : Volume × ℤ × List Event)
      → IsSound v
      → format methods fs_type v ≡ some r
      → IsSound r.0
  unfolding format
  format-IsSound fs_type v r s e = elim (Bool-cases (is_mounted (info v).state)) [
    | inr down ↦
        subst (λ v. IsSound v) {x = (format_idle methods fs_type v []).0} (ground arith)
          (format_idle-IsSound fs_type v [] s)
    | inl up ↦ elim (Option-cases (unmount methods v)) [
      | inl failed ↦ absurd (unmount-ne-none v s failed)
      | inr (q, f) ↦
          subst (λ v. IsSound v) {x = (format_idle methods fs_type q.0 q.2).0} (ground arith)
            (format_idle-IsSound fs_type q.0 q.2 (unmount-IsSound v q s f))
    ]
  ]

  pub destroy-IsSound :
      (v : Volume) (r : Volume × ℤ × List Event)
      → IsSound v
      → destroy methods v ≡ some r
      → IsSound r.0
  unfolding destroy
  destroy-IsSound (volume i vs) r s e =
      destroy_with-IsSound i vs (clear (destroy_stacked methods vs)) r s e

  -- Every operation keeps the tree of volumes sound: volumes are stacked on mounted volumes
  -- only, and every stacked volume is created. What is stacked by `doPostMount` is created, and
  -- `create` is called of a volume that is not mounted.
  pub apply-IsSound :
      (op : Operation) (v : Volume) (r : Volume × ℤ × List Event)
      → ((i : Info) → AllCreated (methods.do_post_mount i))
      → (op ≡ creating → is_mounted (info v).state ≡ false)
      → IsSound v
      → apply methods op v ≡ some r
      → IsSound r.0
  unfolding apply
  apply-IsSound creating v r h c s e = create-IsSound v r (c refl) s e
  apply-IsSound destroying v r h c s e = destroy-IsSound v r s e
  apply-IsSound mounting v r h c s e =
      subst (λ v. IsSound v) {x = (mount methods v).0} (ground arith) (mount-IsSound v h s)
  apply-IsSound unmounting v r h c s e = unmount-IsSound v r s e
  apply-IsSound (formatting_as fs_type) v r h c s e = format-IsSound fs_type v r s e
