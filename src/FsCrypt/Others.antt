-- ===== src/FsCrypt/Others.antt =====
-- Making and destroying the keys of another user.
use android_system_vold.Common.{
  ℕ, ◌+◌, ◌≢◌, inl, inr, Option, none, some, List, [], ◌∷◌, Bool, true, false, not, ◌&&◌, ◌||◌,
  if◌then◌else◌, Text, Bool-cases, Option-cases,
}
use android_system_vold.FsCrypt.{Entry, Host, State, put, find, entries, write_dir, is_some}
use android_system_vold.FsCrypt.Keys.{get_ce_key_paths, destroy_key}
use android_system_vold.FsCrypt.Users.{
  return, must, must_result, create_de_key, create_ce_key, stored_de, generate_storage_key,
  install_storage_key, fscrypt_vold_create_user_key, evict_ce_key,
}
use android_system_vold.FsCrypt.Protection.{
  destroy_keys, removed, destroy_de, erase_deferred, destroy_on_disk, fscrypt_destroy_user_key,
}
use android_system_vold.FsCrypt.Kept.{IsVault}
use android_system_vold.FsCrypt.Fixed.{dir_of, write_dir-Keeps}
use android_system_vold.FsCrypt.Pending.{Safe, tick-Safe, Keeps-Safe, erase-Pending}
use android_system_vold.FsCrypt.Stored.{Good, Anything, any-Good, bind-Good}
use android_system_vold.FsCrypt.KeyToProtect.{create_ce_key-Good}
use android_system_vold.FsCrypt.Safety.{evict_ce_key-Safe}

module _ (host : Host) (vault : IsVault host) (key : Text) (u v : ℕ) (other : v ≢ u) where
  write_dir-Safe :
      (d : Option (List Entry)) (s : State)
      → Safe host vault key u s
      → Safe host vault key u (write_dir v d s)
  write_dir-Safe d s safe =
      Keeps-Safe host vault key u v s (write_dir v d s)
        (write_dir-Keeps host vault key u v d s safe.core (λ eq. absurd (other eq))) safe.pending
        (λ eq. absurd (other eq))

  -- Tables that the user's key does not depend on.
  tables-Safe :
      (de : ℕ → Option Text) (keys : ℕ → Option Text) (ephemeral : ℕ → Bool) (calls : ℕ) (s : State)
      → Safe host vault key u s
      → Safe host vault key u (record s {
        de_policies = de;
        de_keys = keys;
        ephemeral_users = ephemeral;
        calls = calls;
      })
  tables-Safe de keys ephemeral calls s safe = record {
    core = record {
      one = safe.core.one;
      has = safe.core.has;
      new_key = safe.core.new_key;
      past = safe.core.past;
    };
    pending = safe.pending;
  }

  destroy_key-Safe :
      (name : Text) (s : State)
      → Safe host vault key u s
      → Safe host vault key u (destroy_key host v name s).1
  unfolding destroy_key
  destroy_key-Safe name s safe = elim (Option-cases (find name (entries (s.ce_dirs v)))) [
    | inl free ↦ rw (free, destroy_key) (tick-Safe host vault key u s safe)
    | inr (e, there) ↦ elim (Bool-cases (host.destroys s.calls)) [
      | inl done ↦ rw (there, destroy_key, done) (write_dir-Safe _ s safe)
      | inr left ↦ rw (there, destroy_key, left) (write_dir-Safe _ s safe)
    ]
  ]

  destroy_keys-Safe :
      (names : List Text) (s : State)
      → Safe host vault key u s
      → Safe host vault key u (destroy_keys host v names s).1
  unfolding destroy_keys
  destroy_keys-Safe [] s safe = safe
  destroy_keys-Safe (name ∷ names) s safe =
      destroy_keys-Safe names (destroy_key host v name s).1 (destroy_key-Safe name s safe)

  erase_deferred-Safe :
      (s : State) → Safe host vault key u s → Safe host vault key u (erase_deferred host v s)
  erase_deferred-Safe s safe = record {
    core = record {
      one = safe.core.one;
      has = safe.core.has;
      new_key = safe.core.new_key;
      past = safe.core.past;
    };
    pending = erase-Pending host vault key u v (dir_of u s) s.deferred_fixations safe.pending;
  }

  removed-Safe :
      (dir : Option (List Entry)) (s : State)
      → Safe host vault key u s
      → Safe host vault key u (removed host v dir s).1
  removed-Safe none s safe = tick-Safe host vault key u s safe
  removed-Safe (some []) s safe = elim (Bool-cases (host.removes_dir s.calls)) [
    | inl done ↦ rw done (write_dir-Safe none s safe)
    | inr failed ↦ rw failed (tick-Safe host vault key u s safe)
  ]
  removed-Safe (some (e ∷ d)) s safe = tick-Safe host vault key u s safe

  destroy_de-Safe :
      (content : Option Text) (s : State)
      → Safe host vault key u s
      → Safe host vault key u (destroy_de host v content s).1
  destroy_de-Safe none s safe = safe
  destroy_de-Safe (some content) s safe =
      tables-Safe s.de_policies _ s.ephemeral_users (s.calls + 1) s safe

  destroy_on_disk-Safe :
      (s : State) → Safe host vault key u s → Safe host vault key u (destroy_on_disk host v s).1
  unfolding destroy_on_disk
  destroy_on_disk-Safe s safe = destroy_de-Safe _ _ (removed-Safe _ _ (erase_deferred-Safe _ keys))
    where
      keys :
          Safe host vault key u
            (if is_some (s.new_ce_keys v)
              then (true, s)
              else destroy_keys host v
                  (get_ce_key_paths host v s).0
                  (get_ce_key_paths host v s).1).1
      keys = elim (Bool-cases (is_some (s.new_ce_keys v))) [
        | inl new ↦ rw new safe
        | inr old ↦ rw old (
            destroy_keys-Safe (get_ce_key_paths host v s).0 (get_ce_key_paths host v s).1
              (unfold get_ce_key_paths in tick-Safe host vault key u s safe))
      ]

  if-Safe :
      (b : Bool) (x y : Bool × State)
      → Safe host vault key u x.1
      → Safe host vault key u y.1
      → Safe host vault key u (if b then x else y).1
  if-Safe true x y h g = h
  if-Safe false x y h g = g

  pub fscrypt_destroy_user_key-Safe :
      (s : State)
      → Safe host vault key u s
      → Safe host vault key u (fscrypt_destroy_user_key host v s).1
  unfolding fscrypt_destroy_user_key
  fscrypt_destroy_user_key-Safe s safe = if-Safe (not host.fbe_enabled) _ _ safe (
      if-Safe (kept.ephemeral_users v) _ _
        (tables-Safe kept.de_policies kept.de_keys (put kept.ephemeral_users v false) kept.calls
          kept kept-Safe)
        (destroy_on_disk-Safe kept kept-Safe))
    where
      t : State
      t = (evict_ce_key host v s).1

      kept : State
      kept = record t { de_policies = put t.de_policies v none; calls = t.calls + 1 }

      kept-Safe : Safe host vault key u kept
      kept-Safe =
          tables-Safe (put t.de_policies v none) t.de_keys t.ephemeral_users (t.calls + 1) t
            (evict_ce_key-Safe host vault key u v s safe)

  must_Safe :
      (r : Bool × State) → Safe host vault key u r.1 → Safe host vault key u (must_result r).1
  must_Safe (true, s) safe = safe
  must_Safe (false, s) safe = safe

  create_de_key-Good :
      (ephemeral : Bool) (s : State)
      → Safe host vault key u s
      → Good host vault key u Anything (create_de_key host v ephemeral s)
  unfolding create_de_key
  create_de_key-Good ephemeral s safe =
      bind-Good host vault key u Anything Anything _ (generate_storage_key host s)
        (any-Good host vault key u (generate_storage_key host s)
          (unfold generate_storage_key in tick-Safe host vault key u s safe))
        (λ new t safe _.
          bind-Good host vault key u Anything Anything _
            ((if ephemeral then return tt else must (stored_de host v new)) t)
            (stored ephemeral new t safe)
            (λ _ t safe _.
              bind-Good host vault key u Anything Anything _ (install_storage_key host new t)
                (any-Good host vault key u (install_storage_key host new t)
                  (unfold install_storage_key in tick-Safe host vault key u t safe))
                (λ policy t safe _. (
                  tables-Safe (put t.de_policies v (some policy)) t.de_keys t.ephemeral_users
                      t.calls t safe,
                  tt,
                ))))
    where
      stored :
          (ephemeral : Bool) (new : Text) (t : State)
          → Safe host vault key u t
          → Good host vault key u Anything
              ((if ephemeral then return tt else must (stored_de host v new)) t)
      stored true new t safe = (safe, tt)
      stored false new t safe = any-Good host vault key u (must_result (stored_de host v new t)) (
          must_Safe (stored_de host v new t)
            (elim (Bool-cases (not (is_some (t.de_keys v)) && host.stores t.calls)) [
              | inl done ↦ rw done (
                  tables-Safe t.de_policies (put t.de_keys v (some (host.seal [] new)))
                    t.ephemeral_users (t.calls + 1) t safe)
              | inr failed ↦ rw failed (tick-Safe host vault key u t safe)
            ]))

  pub fscrypt_vold_create_user_key-Safe :
      (ephemeral : Bool) (s : State)
      → Safe host vault key u s
      → Safe host vault key u (fscrypt_vold_create_user_key host v ephemeral s).1
  unfolding fscrypt_vold_create_user_key
  fscrypt_vold_create_user_key-Safe ephemeral s safe =
      elim (Bool-cases (not host.fbe_enabled || is_some (s.ce_policies v))) [
        | inl skipped ↦ rw skipped safe
        | inr made ↦
            rw made
              (bind-Good host vault key u Anything Anything _ (create_de_key host v ephemeral s)
                (create_de_key-Good ephemeral s safe)
                (λ _ t safe _.
                  bind-Good host vault key u Anything Anything _ (create_ce_key host v ephemeral t)
                    (create_ce_key-Good host vault key u v ephemeral t safe other)
                    (λ _ t safe _. (marked ephemeral t safe, tt)))).0
      ]
    where
      marked :
          (ephemeral : Bool) (t : State)
          → Safe host vault key u t
          → Safe host vault key u
              (if ephemeral then record t { ephemeral_users = put t.ephemeral_users v true } else t)
      marked true t safe =
          tables-Safe t.de_policies t.de_keys (put t.ephemeral_users v true) t.calls t safe
      marked false t safe = safe
