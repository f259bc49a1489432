-- ===== src/VolumeManager/Pending.antt =====
-- The disks that wait, and what changes none of what they wait for.
use mathlib.Core.Option
use android_system_vold.Common.{ℕ, ◌≡◌, refl, Option, none, some, List, [], ◌∷◌, ◌∙◌, true, Text}
use android_system_vold.Common.Aborts.{Run, return, ◌>>=◌, Gives, bind-Gives, any-Gives}
use android_system_vold.VolumeBase.{Volume, Volumes, nil, cons, info, add_volume, append_volumes}
use android_system_vold.VolumeBase
use android_system_vold.Disk.{of_volume}
use android_system_vold.Disk.Outside.{Event}
use android_system_vold.Disk.Outside.{Machine}
use android_system_vold.VolumeManager.Data.{State, is_ready}
use android_system_vold.VolumeManager.Lookup.{
  Change, change_in_list, change_on_disks, change_volume, list_disk_volumes,
}
use android_system_vold.VolumeManager.Emulated.{
  emulated_volume, stack_for_user, unstack_for_user, change_each, destroy_of_user,
  create_emulated_volumes_for_user, destroy_emulated_volumes_for_user,
}
use android_system_vold.VolumeManager.Requests.{on_volume}

-- No disk waits while the keyguard is away and user 0 has started.
abbrev pub NoneWaits : State → Type 0
NoneWaits s = is_ready s ≡ true → s.pending ≡ []

abbrev Any : {A : Type 0} → A → Type 0
Any a = Unit {0}

-- A run that is not aborted gives a state that meets P.
abbrev pub OnState : (State → Type 0) → Run Event State → Type 0
OnState P m = Gives Any P m

-- The rest of a `do` block, whatever is done first.
pub after-OnState :
    {A : Type 0} (P : State → Type 0) (m : Run Event A) (f : A → Run Event State)
    → ((a : A) → OnState P (f a))
    → OnState P (m >>= f)
after-OnState P m f h = bind-Gives Any Any P m f (any-Gives m) (λ a u. h a)

-- The disks that wait are the same, and so is what they wait for.
abbrev pub SameWait : State → State → Type 0
SameWait s s' =
    (s'.pending ≡ s.pending)
    × (s'.keyguard_showing ≡ s.keyguard_showing)
    × (s'.started_users ≡ s.started_users)

pub SameWait-NoneWaits : (s s' : State) → SameWait s s' → NoneWaits s → NoneWaits s'
unfolding is_ready
SameWait-NoneWaits s s' e h ready = e.0 ∙ h (cc (ready, e.1, e.2))

trans : (s s' s'' : State) → SameWait s s' → SameWait s' s'' → SameWait s s''
trans s s' s'' e e' = (e'.0 ∙ e.0, e'.1 ∙ e.1, e'.2 ∙ e.2)

abbrev IfFound : (State → Type 0) → Option (Run Event State) → Type 0
IfFound P none = Unit {0}
IfFound P (some m) = OnState P m

map-IfFound :
    {A : Type 0} (P : State → Type 0) (o : Option (Run Event A)) (f : A → Run Event State)
    → ((a : A) → OnState P (f a))
    → IfFound P (Option.map (λ (m : Run Event A). m >>= f) o)
map-IfFound P none f h = tt
map-IfFound P (some m) f h = after-OnState P m f h

either-IfFound :
    {A : Type 0} (P : State → Type 0) (o : Option (Run Event A)) (f : A → Run Event State)
    (rest : Option (Run Event State))
    → ((a : A) → OnState P (f a))
    → IfFound P rest
    → IfFound P (elim o [ some m ↦ some (m >>= f) | none ↦ rest ])
either-IfFound P none f rest h g = g
either-IfFound P (some m) f rest h g = after-OnState P m f h

pub change_volume-SameWait :
    (id : Text) (f : Change) (s : State) → IfFound (SameWait s) (change_volume id f s)
unfolding change_volume
change_volume-SameWait id f s =
    either-IfFound (SameWait s) (change_in_list id f s.internal_emulated) _ _
      (λ vs. (tt, (refl, refl, refl)))
      (either-IfFound (SameWait s) (change_on_disks id f s.disks) _ _
        (λ ds. (tt, (refl, refl, refl)))
        (map-IfFound (SameWait s) (change_in_list id f s.obb_volumes) _
          (λ vs. (tt, (refl, refl, refl)))))

pub on_volume-SameWait :
    (id : Text) (f : Change) (s : State) → OnState (SameWait s) (on_volume id f s)
unfolding on_volume
on_volume-SameWait id f s = go (change_volume id f s) (change_volume-SameWait id f s)
  where
    go :
        (o : Option (Run Event State))
        → IfFound (SameWait s) o
        → OnState
            (SameWait s)
            (elim o as (λ _. Run Event State) [ none ↦ return s | some task ↦ task ])
    go none h = (tt, (refl, refl, refl))
    go (some task) h = h

module _ (machine : Machine) where
  bind-SameWait :
      (s : State) (m : Run Event State) (f : State → Run Event State)
      → OnState (SameWait s) m
      → ((s' : State) → OnState (SameWait s') (f s'))
      → OnState (SameWait s) (m >>= f)
  bind-SameWait s m f h g =
      bind-Gives Any (SameWait s) (SameWait s) m f h (λ s' e. onward s' e (f s') (g s'))
    where
      onward :
          (s' : State)
          → SameWait s s'
          → (m : Run Event State) → OnState (SameWait s') m
          → OnState (SameWait s) m
      onward s' e none h = tt
      onward s' e (some r) h = (h.0, trans s s' r.0 e h.1)

  change_each-SameWait :
      (ids : List Text) (f : Change) (s : State)
      → OnState (SameWait s) (change_each machine ids f s)
  unfolding change_each
  change_each-SameWait [] f s = (tt, (refl, refl, refl))
  change_each-SameWait (id ∷ ids) f s =
      go (change_volume id f s) (change_volume-SameWait id f s)
        (λ s'. change_each-SameWait ids f s')
    where
      go :
          (o : Option (Run Event State))
          → IfFound (SameWait s) o
          → ((s' : State) → OnState (SameWait s') (change_each machine ids f s'))
          → OnState (SameWait s) (elim o as (λ _. Run Event State) [
            | none ↦ none
            | some task ↦ do s' ← task; change_each machine ids f s'
          ])
      go none h later = tt
      go (some task) h later = bind-SameWait s task _ h later

  pub create_emulated-SameWait :
      (user : ℕ) (s : State)
      → OnState (SameWait s) (create_emulated_volumes_for_user machine user s)
  unfolding create_emulated_volumes_for_user
  create_emulated-SameWait user s =
      after-OnState (SameWait s)
        (of_volume (VolumeBase.create machine.methods (emulated_volume user))) _
        (λ v.
          change_each-SameWait (list_disk_volumes VolumeBase.private s.disks)
            (stack_for_user machine user)
            (record s { internal_emulated = add_volume s.internal_emulated v }))

  pub destroy_emulated-SameWait :
      (user : ℕ) (s : State)
      → OnState (SameWait s) (destroy_emulated_volumes_for_user machine user s)
  unfolding destroy_emulated_volumes_for_user
  destroy_emulated-SameWait user s =
      after-OnState (SameWait s) (destroy_of_user machine user s.internal_emulated) _ (λ vs.
        change_each-SameWait (list_disk_volumes VolumeBase.private s.disks)
          (unstack_for_user machine user) (record s { internal_emulated = vs }))
