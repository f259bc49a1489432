-- ===== src/VolumeBase.antt =====
-- model/VolumeBase.h and model/VolumeBase.cpp: the life of a volume and of the volumes stacked
-- on it. What the subclasses do is the parameter `Methods`; a call returns the volume after it,
-- its status and the events for the listener, or `none` where a CHECK aborts the process.
pub mod Guards
pub mod Stacked
pub mod Safety
pub mod Tests
use mathlib.Core.Option
use android_system_vold.Common.{
  ℕ, ◌-◌, ◌^◌, Option, none, some, List, [], ◌∷◌, ◌++◌, Bool, true, false, not, ◌&&◌, ◌||◌,
  if◌then◌else◌, Text, text_eq, ℤ, pos, negsuc,
}
use Prim.Native.Nat.{bit_and}
use android_system_vold.Common.{◌==◌}

pub data Kind : Type 0 where
  public private emulated asec obb stub : Kind

pub data State : Type 0 where
  unmounted checking mounted mounted_read_only formatting ejecting unmountable removed : State
  bad_removal : State

-- `status_t`: 0 or a negative errno.
abbrev pub okay : ℤ
okay = pos 0

abbrev pub busy : ℤ
busy = negsuc 15

abbrev pub is_okay : ℤ → Bool
is_okay (pos n) = n == 0
is_okay (negsuc n) = false

-- The fields of the object but for the stacked volumes.
pub record Info : Type 0 where
  pub id : Text
  pub disk_id : Text
  pub part_guid : Text
  pub kind : Kind
  pub mount_flags : ℕ
  pub mount_user_id : ℕ
  pub created : Bool
  pub state : State
  pub path : Text
  pub internal_path : Text
  pub silent : Bool

mutual
  pub data Volume : Type 0 where
    volume : Info → Volumes → Volume

  pub data Volumes : Type 0 where
    nil : Volumes
    cons : Volume → Volumes → Volumes

abbrev pub info : Volume → Info
info (volume i vs) = i

abbrev pub stacked : Volume → Volumes
stacked (volume i vs) = vs

pub data Event : Type 0 where
  state_changed : Text → State → Event
  volume_created : Text → Kind → Text → Text → ℕ → Event
  volume_destroyed : Text → Event
  path_changed internal_path_changed : Text → Text → Event

-- What `doMount` and `doPostMount` do through the protected setters and `addVolume`.
pub record Mounting : Type 0 where
  pub status : ℤ
  pub path : Option Text
  pub internal_path : Option Text

-- The virtual methods of a subclass, and whether a listener is registered. `doPostMount` gives the
-- volumes that it stacks and what the listener hears of their creation.
pub record Methods : Type 0 where
  pub do_create : Info → ℤ
  pub do_destroy : Info → ℤ
  pub do_mount : Info → Mounting
  pub do_post_mount : Info → Volumes
  pub post_mount_events : Info → List Event
  pub do_unmount : Info → ℤ
  pub do_format : Text → Info → ℤ
  pub listening : Bool

abbrev pub user_unknown : ℕ
user_unknown = 2 ^ 32 - 1

-- The constructor.
unfoldable pub new_volume : Kind → Volume
new_volume kind =
    volume
      (record {
        id = [];
        disk_id = [];
        part_guid = [];
        kind = kind;
        mount_flags = 0;
        mount_user_id = user_unknown;
        created = false;
        state = unmounted;
        path = [];
        internal_path = [];
        silent = false;
      })
      nil

abbrev pub is_mounted : State → Bool
is_mounted mounted = true
is_mounted _ = false

abbrev pub is_checking : State → Bool
is_checking checking = true
is_checking _ = false

-- The state in which a volume may be mounted, formatted or given other flags.
abbrev pub is_idle : State → Bool
is_idle unmounted = true
is_idle unmountable = true
is_idle _ = false

-- The setters that want the volume not to be created, and those that want it not to be in use.
unfoldable pub set_disk_id : Text → Volume → Volume × ℤ
set_disk_id disk_id (volume i vs) =
    if i.created then (volume i vs, busy) else (volume (record i { disk_id = disk_id }) vs, okay)

unfoldable pub set_part_guid : Text → Volume → Volume × ℤ
set_part_guid part_guid (volume i vs) =
    if i.created
    then (volume i vs, busy)
    else (volume (record i { part_guid = part_guid }) vs, okay)

unfoldable pub set_mount_flags : ℕ → Volume → Volume × ℤ
set_mount_flags mount_flags (volume i vs) =
    if not (is_idle i.state)
    then (volume i vs, busy)
    else (volume (record i { mount_flags = mount_flags }) vs, okay)

unfoldable pub set_mount_user_id : ℕ → Volume → Volume × ℤ
set_mount_user_id mount_user_id (volume i vs) =
    if not (is_idle i.state)
    then (volume i vs, busy)
    else (volume (record i { mount_user_id = mount_user_id }) vs, okay)

unfoldable pub set_silent : Bool → Volume → Volume × ℤ
set_silent silent (volume i vs) =
    if i.created then (volume i vs, busy) else (volume (record i { silent = silent }) vs, okay)

unfoldable pub set_id : Text → Volume → Volume × ℤ
set_id id (volume i vs) =
    if i.created then (volume i vs, busy) else (volume (record i { id = id }) vs, okay)

unfoldable pub is_visible_for_read : Info → Bool
is_visible_for_read i = not (bit_and i.mount_flags 2 == 0)

unfoldable pub is_visible_for_write : Info → Bool
is_visible_for_write i = not (bit_and i.mount_flags 4 == 0)

unfoldable pub is_visible : Info → Bool
unfolding is_visible_for_read is_visible_for_write
is_visible i = is_visible_for_read i || is_visible_for_write i

unfoldable pub add_volume : Volumes → Volume → Volumes
add_volume nil v = cons v nil
add_volume (cons u us) v = cons u (add_volume us v)

unfoldable pub find_volume : Volumes → Text → Option Volume
find_volume nil id = none
find_volume (cons v vs) id = if text_eq (info v).id id then some v else find_volume vs id

unfoldable pub append_volumes : Volumes → Volumes → Volumes
append_volumes nil vs = vs
append_volumes (cons u us) vs = cons u (append_volumes us vs)

-- `~VolumeBase`, of a volume and then of those that it holds: the CHECK that it is not created.
unfoldable mutual
  pub may_drop : Volume → Bool
  may_drop (volume i vs) = not i.created && may_clear vs

  pub may_clear : Volumes → Bool
  may_clear nil = true
  may_clear (cons v vs) = may_drop v && may_clear vs

-- A volume that was destroyed before the rest of the loop, with what the listener hears.
abbrev pub both_destroyed :
    Option (Volume × ℤ × List Event) → Option (Volumes × List Event) → Option (Volumes × List Event)
both_destroyed none later = none
both_destroyed (some r) none = none
both_destroyed (some r) (some (us, events)) = some (cons r.0 us, r.2 ++ events)

-- `mVolumes.clear()` after the loop.
unfoldable pub clear : Option (Volumes × List Event) → Option (List Event)
unfolding may_clear
clear none = none
clear (some (vs, events)) = if may_clear vs then some events else none

module _ (methods : Methods) where
  -- What the listener of `getListener` hears.
  abbrev pub notify : Info → Event → List Event
  notify i e = if i.silent then [] else (if methods.listening then e ∷ [] else [])

  abbrev pub set_state : State → Info → Info
  set_state state i = record i { state = state }

  abbrev pub tell_state : State → Info → List Event
  tell_state state i = notify i (state_changed i.id state)

  unfoldable pub set_path : Text → Info → Info × ℤ × List Event
  set_path path i =
      if not (is_checking i.state)
      then (i, busy, [])
      else (record i { path = path }, okay, notify i (path_changed i.id path))

  unfoldable pub set_internal_path : Text → Info → Info × ℤ × List Event
  set_internal_path internal_path i = if not (is_checking i.state) then (i, busy, []) else (
    record i { internal_path = internal_path },
    okay,
    notify i (internal_path_changed i.id internal_path),
  )

  unfoldable pub create : Volume → Option (Volume × ℤ × List Event)
  create (volume i vs) =
      if i.created
      then none
      else (let made = record i { created = true } in
          some (
            volume (set_state unmounted made) vs,
            methods.do_create made,
            notify made (volume_created i.id i.kind i.disk_id i.part_guid i.mount_user_id)
                ++ tell_state unmounted made,
          ))

  -- `doMount`, with the paths that it sets, the internal one first.
  unfoldable pub mount_path : Option Text → Info → Info × List Event
  unfolding set_path
  mount_path none i = (i, [])
  mount_path (some path) i = let (i', _, events) = set_path path i in (i', events)

  unfoldable pub mount_internal_path : Option Text → Info → Info × List Event
  unfolding set_internal_path
  mount_internal_path none i = (i, [])
  mount_internal_path (some path) i = let (i', _, events) = set_internal_path path i in (i', events)

  unfoldable pub mount : Volume → Volume × ℤ × List Event
  unfolding mount_path mount_internal_path
  mount (volume i vs) =
      if not (is_idle i.state)
      then (volume i vs, busy, [])
      else (let started = set_state checking i in
          let (inside, internal_events) =
            mount_internal_path (methods.do_mount started).internal_path started in
          let (ready, path_events) = mount_path (methods.do_mount started).path inside in
          let res = (methods.do_mount started).status in
          let state = if is_okay res then mounted else unmountable in
          let done = set_state state ready in
          (
            volume done
                (if is_okay res then append_volumes vs (methods.do_post_mount done) else vs),
            res,
            tell_state checking i
                ++ internal_events
                ++ path_events
                ++ tell_state state ready
                ++ (if is_okay res then methods.post_mount_events done else []),
          ))

  -- `unmount` and `destroy`, when the destruction of the stacked volumes, and the clearing of the
  -- list of them, gives these events.
  unfoldable pub unmount_with :
      Option (List Event) → Info → Volumes → Option (Volume × ℤ × List Event)
  unmount_with below i vs =
      if not (is_mounted i.state)
      then some (volume i vs, busy, [])
      else Option.map
          (λ events. (
            volume (set_state unmounted i) nil,
            methods.do_unmount (set_state ejecting i),
            tell_state ejecting i ++ events ++ tell_state unmounted i,
          ))
          below

  -- The state is set, the listener is told, and the object is no longer created.
  unfoldable pub finish_destroy : State → Volume → List Event → Volume × ℤ × List Event
  finish_destroy state (volume i vs) events = (
    volume (record (set_state state i) { created = false }) vs,
    methods.do_destroy (set_state state i),
    events ++ tell_state state i ++ notify i (volume_destroyed i.id),
  )

  unfoldable pub destroy_with :
      Option (List Event) → Info → Volumes → Option (Volume × ℤ × List Event)
  unfolding unmount_with finish_destroy
  destroy_with below i vs =
      if not i.created
      then none
      else (if is_mounted i.state
          then Option.map (λ r. finish_destroy bad_removal r.0 r.2) (unmount_with below i vs)
          else some (finish_destroy removed (volume i vs) []))

  unfoldable mutual
    unfolding destroy_with clear

    -- The loop of `unmount` over the stacked volumes, and `destroy`.
    pub destroy_stacked : Volumes → Option (Volumes × List Event)
    destroy_stacked nil = some (nil, [])
    destroy_stacked (cons v vs) = both_destroyed (destroy v) (destroy_stacked vs)

    pub destroy : Volume → Option (Volume × ℤ × List Event)
    destroy (volume i vs) = destroy_with (clear (destroy_stacked vs)) i vs

  unfoldable pub unmount : Volume → Option (Volume × ℤ × List Event)
  unfolding unmount_with destroy_stacked clear
  unmount (volume i vs) = unmount_with (clear (destroy_stacked vs)) i vs

  -- `format` after the volume is unmounted.
  unfoldable pub format_idle : Text → Volume → List Event → Volume × ℤ × List Event
  format_idle fs_type (volume i vs) events =
      if not (is_idle i.state) then (volume i vs, busy, events) else (
        volume (set_state unmounted i) vs,
        methods.do_format fs_type (set_state formatting i),
        events ++ tell_state formatting i ++ tell_state unmounted i,
      )

  unfoldable pub format : Text → Volume → Option (Volume × ℤ × List Event)
  unfolding unmount format_idle
  format fs_type v =
      if is_mounted (info v).state
      then Option.map (λ r. format_idle fs_type r.0 r.2) (unmount v)
      else some (format_idle fs_type v [])

-- The public operations that move a volume from state to state.
pub data Operation : Type 0 where
  creating destroying mounting unmounting : Operation
  formatting_as : Text → Operation

unfoldable pub apply : Methods → Operation → Volume → Option (Volume × ℤ × List Event)
unfolding create destroy mount unmount format
apply methods creating v = create methods v
apply methods destroying v = destroy methods v
apply methods mounting v = some (mount methods v)
apply methods unmounting v = unmount methods v
apply methods (formatting_as fs_type) v = format methods fs_type v
