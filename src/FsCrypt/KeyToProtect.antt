-- ===== src/FsCrypt/KeyToProtect.antt =====
-- Which key a protection is for, and the keys that are made for another user.
use android_system_vold.Common.{
  ℕ, ◌≡◌, ◌≢◌, inl, inr, refl, sym, ap, subst, ◌∙◌, Option, none, some, List, [], ◌∷◌, Bool, true,
  false, ◌==◌, if◌then◌else◌, Text, arith, Bool-cases,
}
use android_system_vold.FsCrypt.{
  Entry, Host, State, put, find, entries, write_dir, is_some, current,
}
use android_system_vold.FsCrypt.Keys.{
  unseal_entry, get_ce_key_paths, ce_key_exists, read_and_fixate_user_ce_key, some_key,
}
use android_system_vold.FsCrypt.Users.{
  M, bind_result, must_result, modify, create_ce_key, prepared, insert_new_key,
  generate_storage_key, install_storage_key,
}
use android_system_vold.FsCrypt.Protection.{key_to_protect, otherwise, already}
use android_system_vold.FsCrypt.Kept.{IsVault}
use android_system_vold.FsCrypt.Fixed.{write_dir-Keeps}
use android_system_vold.FsCrypt.Pending.{
  Safe, tick-Safe, Keeps-Safe, Right, read_and_fixate_user_ce_key-Safe,
}
use android_system_vold.FsCrypt.Names.{get_ce_key_paths-IsListed, IsListed}
use android_system_vold.FsCrypt.Stored.{Good, Anything, any-Good, bind-Good, must-Good}

module _ (host : Host) (vault : IsVault host) (key : Text) (u : ℕ) where
  some_key_listed :
      (dir : Option (List Entry)) (names : List Text) (name auth : Text)
      → IsListed names
      → unseal_entry host auth (find name (entries dir)) ≡ some key
      → some_key dir names ≡ true
  unfolding find
  some_key_listed none names name auth l h = cc h
  some_key_listed (some d) [] name auth l h = absurd l
  some_key_listed (some d) (n ∷ names) name auth l h = refl

  -- The user's key is found to exist.
  ce_key_exists-true :
      (v : ℕ) (s : State)
      → Safe host vault key u s
      → host.reads_dir s.calls ≡ true
      → v ≡ u
      → (ce_key_exists host v s).0 ≡ true
  unfolding ce_key_exists
  ce_key_exists-true v s safe read eq =
      elim (Bool-cases (is_some (find current (entries (s.ce_dirs v))))) [
        | inl there ↦ rw there refl
        | inr other ↦ rw other (
            some_key_listed (s.ce_dirs v) (get_ce_key_paths host v s).0 name auth
              (get_ce_key_paths-IsListed host name auth key v s read safe.core.has.1.0 opens) opens)
      ]
    where
      name : Text
      name = safe.core.has.0

      auth : Text
      auth = safe.core.has.1.1.0

      opens : unseal_entry host auth (find name (entries (s.ce_dirs v))) ≡ some key
      opens =
          subst (λ w. unseal_entry host auth (find name (entries (s.ce_dirs w))) ≡ some key)
            (sym eq) safe.core.has.1.1.1

  ce_key_exists-Safe :
      (v : ℕ) (s : State)
      → Safe host vault key u s
      → Safe host vault key u (ce_key_exists host v s).1
  unfolding ce_key_exists get_ce_key_paths
  ce_key_exists-Safe v s safe = elim (Bool-cases (is_some (find current (entries (s.ce_dirs v))))) [
    | inl there ↦ rw there safe
    | inr other ↦ rw other (tick-Safe host vault key u s safe)
  ]

  -- What is to be protected is the user's key, if it is one.
  abbrev pub RightKey : ℕ → Option Text → State → Type 0
  RightKey v r s = Right host vault key u v r

  otherwise-Good :
      (v : ℕ) (next : M (Option Text)) (r : Option Text × State)
      → Safe host vault key u r.1 × Right host vault key u v r.0
      → ((t : State) → Safe host vault key u t → Good host vault key u (RightKey v) (next t))
      → Good host vault key u (RightKey v) (otherwise host next r)
  otherwise-Good v next (some found, s) g h = (g.0, g.1)
  otherwise-Good v next (none, s) g h = h s g.0

  already-Good :
      (v : ℕ) (r : Option Text × State)
      → Safe host vault key u r.1
      → Good host vault key u (RightKey v) (already host r)
  already-Good v (some found, s) g = (g, λ _ other h. cc h)
  already-Good v (none, s) g = (g, tt)

  pub policy-Safe :
      (v : ℕ) (policy : Option Text) (s : State)
      → Safe host vault key u s
      → Safe host vault key u (record s { ce_policies = put s.ce_policies v policy })
  policy-Safe v policy s safe = record {
    core = record {
      one = safe.core.one;
      has = safe.core.has;
      new_key = safe.core.new_key;
      past = safe.core.past;
    };
    pending = safe.pending;
  }

  prepared-Safe :
      (v : ℕ) (dir : Option (List Entry)) (s : State)
      → Safe host vault key u s
      → v ≢ u
      → Safe host vault key u (prepared host v dir s).1
  prepared-Safe v (some d) s safe other = tick-Safe host vault key u s safe
  prepared-Safe v none s safe other = elim (Bool-cases (host.prepares s.calls)) [
    | inl made ↦ rw made (
        Keeps-Safe host vault key u v s (write_dir v (some []) s)
          (write_dir-Keeps host vault key u v (some []) s safe.core (λ eq. absurd (other eq)))
          safe.pending (λ eq. absurd (other eq)))
    | inr failed ↦ rw failed (tick-Safe host vault key u s safe)
  ]

  insert_new_key-Safe :
      (v : ℕ) (new : Text) (s : State)
      → Safe host vault key u s
      → v ≢ u
      → Safe host vault key u (insert_new_key host v new s)
  insert_new_key-Safe v new s safe other = elim (Bool-cases (is_some (s.new_ce_keys v))) [
    | inl there ↦ rw there safe
    | inr free ↦ rw free (record {
      core = record {
        one = safe.core.one;
        has = safe.core.has;
        new_key = λ found h.
            safe.core.new_key found
              (sym (ap (λ b. if b then some new else s.new_ce_keys u) apart) ∙ h);
        past = safe.core.past;
      };
      pending = safe.pending;
    })
  ]
    where
      apart : (u == v) ≡ false
      apart = ground (arith, other)

  -- The key's policy is put in the table.
  pub installed-Good :
      (v : ℕ) (new : Text) (s : State)
      → Safe host vault key u s
      → Good host vault key u Anything (
          bind_result
            (λ policy. modify (λ t. record t { ce_policies = put t.ce_policies v (some policy) }))
            (install_storage_key host new s))
  installed-Good v new s safe =
      bind-Good host vault key u Anything Anything _ (install_storage_key host new s)
        (any-Good host vault key u (install_storage_key host new s)
          (unfold install_storage_key in tick-Safe host vault key u s safe))
        (λ policy t safe _. (policy-Safe v (some policy) t safe, tt))

  pub create_ce_key-Good :
      (v : ℕ) (ephemeral : Bool) (s : State)
      → Safe host vault key u s
      → v ≢ u
      → Good host vault key u Anything (create_ce_key host v ephemeral s)
  unfolding create_ce_key
  create_ce_key-Good v true s safe other =
      bind-Good host vault key u Anything Anything _ (generate_storage_key host s)
        (any-Good host vault key u (generate_storage_key host s)
          (unfold generate_storage_key in tick-Safe host vault key u s safe))
        (λ new t safe _. installed-Good v new t safe)
  create_ce_key-Good v false s safe other =
      bind-Good host vault key u Anything Anything _ (generate_storage_key host s)
        (any-Good host vault key u (generate_storage_key host s)
          (unfold generate_storage_key in tick-Safe host vault key u s safe))
        (λ new t safe _.
          bind-Good host vault key u Anything Anything _
            (bind_result (λ _. modify (insert_new_key host v new))
              (must_result (prepared host v (t.ce_dirs v) t)))
            (bind-Good host vault key u Anything Anything _
              (must_result (prepared host v (t.ce_dirs v) t))
              (must-Good host vault key u (λ _. Unit {0}) (prepared host v (t.ce_dirs v) t)
                (prepared-Safe v (t.ce_dirs v) t safe other, λ _. tt))
              (λ _ t safe _. (insert_new_key-Safe v new t safe other, tt)))
            (λ _ t safe _. installed-Good v new t safe))

  pub key_to_protect-Good :
      (v : ℕ) (auth : Text) (s : State)
      → Safe host vault key u s
      → ((call : ℕ) → host.reads_dir call ≡ true)
      → Good host vault key u (RightKey v) (key_to_protect host v auth s)
  unfolding key_to_protect
  key_to_protect-Good v auth s safe reads = elim (Bool-cases (is_some (s.new_ce_keys v))) [
    | inl there ↦ rw there (
      safe,
      λ eq found h. safe.core.new_key found (subst (λ w. s.new_ce_keys w ≡ some found) eq h),
    )
    | inr not_new ↦ elim (Bool-cases ((ce_key_exists host v s).0)) [
      | inl exists ↦
          rw (not_new, exists)
            (otherwise-Good v _ (read_and_fixate_user_ce_key host v [] t)
              (read_and_fixate_user_ce_key-Safe host vault key u v [] t safe')
              (λ t' safe''.
                already-Good v (read_and_fixate_user_ce_key host v auth t')
                  (read_and_fixate_user_ce_key-Safe host vault key u v auth t' safe'').0))
      | inr missing ↦
          let other : v ≢ u =
            λ eq. cc (sym missing ∙ ce_key_exists-true v s safe (reads s.calls) eq) in
          rw (not_new, missing)
            (bind-Good host vault key u Anything (RightKey v) _ (create_ce_key host v false t)
              (create_ce_key-Good v false t safe' other)
              (λ _ t' safe'' _. (safe'', λ eq. absurd (other eq))))
    ]
  ]
    where
      t : State
      t = (ce_key_exists host v s).1

      safe' : Safe host vault key u t
      safe' = ce_key_exists-Safe v s safe
