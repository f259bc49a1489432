-- ===== src/FsCrypt/Keys.antt =====
-- FsCrypt.cpp: what is done to the keys in a user's directory, with the operations of
-- KeyStorage.cpp on a key's directory as a whole.
use android_system_vold.Common.{
  ℕ, Option, none, some, List, [], ◌∷◌, Bool, true, false, not, ◌&&◌, ◌||◌, if◌then◌else◌, Text,
  text_eq, is_empty,
}
use android_system_vold.FsCrypt.{
  Entry, Host, State, erase, find, remove, entries, tick, write_dir, newest_first, key_names,
  current, is_some,
}

abbrev pub left_over : Entry → Option Text → List Entry → List Entry
left_over e none d = d
left_over e (some content) d = record e { content = content } ∷ d

-- A directory that is not empty is in the way.
abbrev pub in_the_way : Option Entry → Bool
in_the_way none = false
in_the_way (some e) = not (e.is_dir && is_empty e.content)

abbrev pub some_key : Option (List Entry) → List Text → Bool
some_key none names = false
some_key (some d) [] = false
some_key (some d) (n ∷ names) = true

module _ (host : Host) where
  unfoldable pub get_ce_key_paths : ℕ → State → List Text × State
  unfolding newest_first key_names
  get_ce_key_paths user s = (
    if host.reads_dir s.calls then newest_first (key_names (entries (s.ce_dirs user))) else [],
    tick s,
  )

  abbrev pub unseal_entry : Text → Option Entry → Option Text
  unseal_entry auth none = none
  unseal_entry auth (some e) = if e.is_dir then host.unseal e.content auth else none

  -- `retrieveKey`.
  unfoldable pub retrieve_key : ℕ → Text → Text → State → Option Text × State
  unfolding find
  retrieve_key user name auth s = (
    if host.retrieves s.calls
        then unseal_entry auth (find name (entries (s.ce_dirs user)))
        else none,
    tick s,
  )

  -- `destroyKey`.
  unfoldable pub destroy_key : ℕ → Text → State → Bool × State
  unfolding find remove write_dir
  destroy_key user name s = elim (find name (entries (s.ce_dirs user))) [
    | none ↦ (false, tick s)
    | some e ↦
        let others = remove name (entries (s.ce_dirs user)) in
        if host.destroys s.calls
        then (true, write_dir user (some others) s)
        else (false, write_dir user (some (left_over e (host.remains s.calls e.content) others)) s)
  ]

  -- `RenameKeyDir`.
  unfoldable pub rename_key_dir : ℕ → Text → Text → State → Bool × State
  unfolding find remove write_dir
  rename_key_dir user old_name new_name s = elim (find old_name (entries (s.ce_dirs user))) [
    | none ↦ (false, tick s)
    | some e ↦
        if in_the_way (find new_name (entries (s.ce_dirs user))) || not (host.renames s.calls)
        then (false, tick s)
        else (
          true,
          write_dir user
              (some (
                record e { name = new_name }
                ∷ remove new_name (remove old_name (entries (s.ce_dirs user)))))
              s,
        )
  ]

  -- `storeKeyAtomically`: the key is stored aside, then moved to its place. The directory of the
  -- user must be there.
  abbrev pub placed : ℕ → Text → Text → Option (List Entry) → Option Entry → State → Bool × State
  placed user name content none e s = (false, tick s)
  placed user name content (some d) (some e) s = (false, tick s)
  placed user name content (some d) none s =
      if host.stores s.calls && host.renames s.calls
      then (
        host.syncs s.calls,
        write_dir user (some (record { name = name; is_dir = true; content = content } ∷ d)) s,
      )
      else (false, tick s)

  unfoldable pub store_key_atomically : ℕ → Text → Text → Text → State → Bool × State
  unfolding find write_dir
  store_key_atomically user name auth key s =
      placed user name (host.seal auth key) (s.ce_dirs user) (find name (entries (s.ce_dirs user)))
        s

  -- The loop that destroys the other keys, with `need_sync`.
  unfoldable pub destroy_others : ℕ → Text → List Text → State → Bool × State
  unfolding destroy_key
  destroy_others user to_fix [] s = (false, s)
  destroy_others user to_fix (other ∷ paths) s =
      let rest =
        destroy_others user to_fix paths
          (if text_eq other to_fix then s else (destroy_key user other s).1) in
      (not (text_eq other to_fix) || rest.0, rest.1)

  unfoldable pub sync_if : Bool → State → Bool × State
  sync_if need_sync s = if need_sync then (host.syncs s.calls, tick s) else (true, s)

  unfoldable pub fixate_user_ce_key : ℕ → Text → List Text → State → Bool × State
  unfolding destroy_others rename_key_dir sync_if
  fixate_user_ce_key user to_fix paths s =
      let destroyed = destroy_others user to_fix paths s in
      if text_eq to_fix current
      then sync_if destroyed.0 destroyed.1
      else (let renamed = rename_key_dir user to_fix current destroyed.1 in
          if renamed.0 then sync_if true renamed.1 else (false, renamed.1))

  -- The loop over the paths that are left.
  unfoldable pub try_keys : ℕ → Text → List Text → List Text → State → Option Text × State
  unfolding retrieve_key fixate_user_ce_key erase
  try_keys user auth paths [] s = (none, s)
  try_keys user auth paths (path ∷ later) s = elim ((retrieve_key user path auth s).0) [
    | none ↦ try_keys user auth paths later (retrieve_key user path auth s).1
    | some key ↦
        let s' = (retrieve_key user path auth s).1 in
        (
          some key,
          (fixate_user_ce_key user path paths
              (record s' { deferred_fixations = erase user s'.deferred_fixations })).1,
        )
  ]

  unfoldable pub read_and_fixate_user_ce_key : ℕ → Text → State → Option Text × State
  unfolding get_ce_key_paths try_keys
  read_and_fixate_user_ce_key user auth s =
      let listed = get_ce_key_paths user s in try_keys user auth listed.0 listed.0 listed.1

  -- `ce_key_exists`: the usual name is there, or the directory is and has some key in it.
  unfoldable pub ce_key_exists : ℕ → State → Bool × State
  unfolding find get_ce_key_paths
  ce_key_exists user s =
      if is_some (find current (entries (s.ce_dirs user)))
      then (true, s)
      else (let listed = get_ce_key_paths user s in (some_key (s.ce_dirs user) listed.0, listed.1))
