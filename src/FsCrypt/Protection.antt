-- ===== src/FsCrypt/Protection.antt =====
-- FsCrypt.cpp: the protection of a user's CE key, the fixation put off to the commit of a
-- checkpoint, and the end of a user's keys.
use android_system_vold.Common.{
  ℕ, ◌+◌, Option, none, some, List, [], ◌∷◌, Bool, true, false, not, ◌&&◌, if◌then◌else◌, Text,
  is_empty,
}
use android_system_vold.FsCrypt.{
  Entry, Host, State, put, erase, assign, tick, write_dir, get_ce_key_new_path, is_some,
}
use android_system_vold.FsCrypt.Keys.{
  get_ce_key_paths, destroy_key, store_key_atomically, fixate_user_ce_key,
  read_and_fixate_user_ce_key, ce_key_exists,
}
use android_system_vold.FsCrypt.Users.{
  M, ◌>>=◌, ◌>>◌, return, return_false, must, get, modify, with_auth, parse_hex, create_ce_key,
  evict_ce_key,
}

module _ (host : Host) where
  abbrev pub or_false : {A : Type 0} → Option A → M A
  or_false none = return_false
  or_false (some a) = return a

  -- What the key is, where the call goes on; the second is none where the call ends well.
  abbrev pub otherwise : M (Option Text) → Option Text × State → Option (Option Text) × State
  otherwise next (some key, s) = (some (some key), s)
  otherwise next (none, s) = next s

  abbrev pub already : Option Text × State → Option (Option Text) × State
  already (some key, s) = (some none, s)
  already (none, s) = (none, s)

  unfoldable pub key_to_protect : ℕ → Text → M (Option Text)
  unfolding ce_key_exists read_and_fixate_user_ce_key create_ce_key
  key_to_protect user auth = do
    new_key ← get (λ s. s.new_ce_keys user)
    if is_some new_key then return new_key else (do
      exists ← λ s. (some (ce_key_exists host user s).0, (ce_key_exists host user s).1)
      if exists
          then (λ s.
              otherwise (λ s'. already (read_and_fixate_user_ce_key host user auth s'))
                (read_and_fixate_user_ce_key host user [] s))
          else (do
            create_ce_key host user false
            made ← get (λ s. s.new_ce_keys user)
            return made))

  -- The deletion of the other keys, now or once the checkpoint is committed.
  unfoldable pub fixate_or_defer : ℕ → Text → List Text → State → Bool × State
  unfolding fixate_user_ce_key assign erase
  fixate_or_defer user name paths s =
      if host.checkpoint_pending s.calls
      then (
        true,
        record s {
          deferred_fixations = assign user name s.deferred_fixations;
          calls = s.calls + 1;
        },
      )
      else fixate_user_ce_key host user name paths
          (record s { deferred_fixations = erase user s.deferred_fixations; calls = s.calls + 1 })

  unfoldable pub store_protected : ℕ → Text → Text → M (Unit {0})
  unfolding get_ce_key_paths get_ce_key_new_path store_key_atomically fixate_or_defer
  store_protected user auth key = do
    paths ← λ s. (some (get_ce_key_paths host user s).0, (get_ce_key_paths host user s).1)
    name ← or_false (get_ce_key_new_path paths)
    must (λ s. store_key_atomically host user name auth key s)
    must (λ s. fixate_or_defer user name paths s)
    modify (λ s. record s { new_ce_keys = put s.new_ce_keys user none })

  abbrev pub protect_with : ℕ → Text → Option Text → M (Unit {0})
  protect_with user auth none = return tt
  protect_with user auth (some key) = store_protected user auth key

  unfoldable pub set_protection : ℕ → Text → M (Unit {0})
  unfolding key_to_protect store_protected
  set_protection user auth = do
    ephemeral ← get (λ s. s.ephemeral_users user)
    if ephemeral then return tt else (do key ← key_to_protect user auth; protect_with user auth key)

  unfoldable pub fscrypt_set_user_key_protection : ℕ → Text → M (Unit {0})
  unfolding parse_hex set_protection
  fscrypt_set_user_key_protection user secret_hex =
      if not host.fbe_enabled
      then return tt
      else with_auth (parse_hex secret_hex)
          (λ auth. if is_empty auth then return_false else set_protection user auth)

  -- The loop over the fixations, which goes on after an error.
  unfoldable pub fixate_each : List (ℕ × Text) → State → State
  unfolding fixate_user_ce_key get_ce_key_paths
  fixate_each [] s = s
  fixate_each ((user, to_fix) ∷ later) s =
      let listed = get_ce_key_paths host user s in
      fixate_each later (fixate_user_ce_key host user to_fix listed.0 listed.1).1

  unfoldable pub fscrypt_deferred_fixate_ce_keys : State → State
  unfolding fixate_each
  fscrypt_deferred_fixate_ce_keys s = record (fixate_each s.deferred_fixations s) {
    deferred_fixations = [];
  }

  unfoldable pub destroy_keys : ℕ → List Text → State → Bool × State
  unfolding destroy_key
  destroy_keys user [] s = (true, s)
  destroy_keys user (path ∷ paths) s =
      let rest = destroy_keys user paths (destroy_key host user path s).1 in
      ((destroy_key host user path s).0 && rest.0, rest.1)

  -- `destroy_dir`: only an empty directory is removed, and one that is not there is fine.
  abbrev pub removed : ℕ → Option (List Entry) → State → Bool × State
  removed user none s = (true, tick s)
  removed user (some []) s =
      if host.removes_dir s.calls then (true, write_dir user none s) else (false, tick s)
  removed user (some (e ∷ d)) s = (false, tick s)

  -- The keys of a user that are on disk.
  abbrev pub destroy_de : ℕ → Option Text → State → Bool × State
  destroy_de user none s = (true, s)
  destroy_de user (some content) s = (
    host.destroys s.calls,
    record s {
      de_keys =
          put s.de_keys user (if host.destroys s.calls then none else host.remains s.calls content);
      calls = s.calls + 1;
    },
  )

  abbrev pub erase_deferred : ℕ → State → State
  erase_deferred user s = record s { deferred_fixations = erase user s.deferred_fixations }

  -- The CE keys are looked for whatever `s_new_ce_keys` had, since `evict_ce_key` has erased it.
  unfoldable pub destroy_on_disk : ℕ → State → Bool × State
  unfolding get_ce_key_paths destroy_keys write_dir
  destroy_on_disk user s =
      let listed = get_ce_key_paths host user s in
      let keys =
        if is_some (s.new_ce_keys user) then (true, s) else destroy_keys user listed.0 listed.1 in
      let dir =
        removed user ((erase_deferred user keys.1).ce_dirs user) (erase_deferred user keys.1) in
      let de = destroy_de user (dir.1.de_keys user) dir.1 in (keys.0 && dir.0 && de.0, de.1)

  -- The DE policy is evicted if there is one, and missing it is a failure.
  abbrev pub de_evicted : Option Text → ℕ → Bool
  de_evicted none call = false
  de_evicted (some policy) call = host.evicts call policy

  unfoldable pub fscrypt_destroy_user_key : ℕ → State → Bool × State
  unfolding evict_ce_key destroy_on_disk
  fscrypt_destroy_user_key user s =
      let ce = evict_ce_key host user s in
      let de = de_evicted (ce.1.de_policies user) ce.1.calls in
      let kept = record ce.1 {
        de_policies = put ce.1.de_policies user none;
        calls = ce.1.calls + 1;
      } in
      if not host.fbe_enabled
      then (true, s)
      else (if kept.ephemeral_users user
          then (ce.0 && de, record kept { ephemeral_users = put kept.ephemeral_users user false })
          else (let disk = destroy_on_disk user kept in (ce.0 && de && disk.0, disk.1)))
