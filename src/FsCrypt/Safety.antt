-- ===== src/FsCrypt/Safety.antt =====
-- That a user's CE key is never lost, whatever is asked for whichever user and wherever it is cut
-- off.
use android_system_vold.Common.{
  ℕ, ◌≡◌, inl, inr, refl, sym, subst, Option, none, some, List, [], ◌∷◌, true, not, ◌||◌, ◌==◌,
  Text, arith, Bool-cases, Option-cases, ==_iff, is_empty,
}
use android_system_vold.FsCrypt.{Host, State, entries, tick, is_some}
use android_system_vold.FsCrypt.Keys.{
  get_ce_key_paths, fixate_user_ce_key, read_and_fixate_user_ce_key,
}
use android_system_vold.FsCrypt.Users.{
  parse_hex, read_and_install_user_ce_key, fscrypt_unlock_user_key, evict_ce_key,
  fscrypt_lock_user_key,
}
use android_system_vold.FsCrypt.Protection.{
  key_to_protect, protect_with, set_protection, fscrypt_set_user_key_protection, fixate_each,
  fscrypt_deferred_fixate_ce_keys,
}
use android_system_vold.FsCrypt.Kept.{IsVault}
use android_system_vold.FsCrypt.Fixed.{dir_of, Core, Keeps, tick-Keeps, fixate_user_ce_key-Keeps}
use android_system_vold.FsCrypt.Pending.{
  Safe, Pending, tick-Safe, Absent-Pending, Right, read_and_fixate_user_ce_key-Safe,
}
use android_system_vold.FsCrypt.Stored.{
  Good, Anything, any-Good, bind-Good, store_protected-Safe, forget-Safe,
}
use android_system_vold.FsCrypt.KeyToProtect.{
  policy-Safe, installed-Good, key_to_protect-Good, RightKey,
}

module _ (host : Host) (vault : IsVault host) (key : Text) (u : ℕ) where
  protect_with-Good :
      (v : ℕ) (auth : Text) (r : Option Text) (s : State)
      → Safe host vault key u s
      → Right host vault key u v r
      → Good host vault key u Anything (protect_with host v auth r s)
  protect_with-Good v auth none s safe right = (safe, tt)
  protect_with-Good v auth (some found) s safe right =
      store_protected-Safe host vault key u v auth found s safe (λ eq. right eq found refl)

  set_protection-Good :
      (v : ℕ) (auth : Text) (s : State)
      → Safe host vault key u s
      → ((call : ℕ) → host.reads_dir call ≡ true)
      → Good host vault key u Anything (set_protection host v auth s)
  unfolding set_protection
  set_protection-Good v auth s safe reads = elim (Bool-cases (s.ephemeral_users v)) [
    | inl ephemeral ↦ rw ephemeral (safe, tt)
    | inr stored ↦ rw stored (
        bind-Good host vault key u (RightKey host vault key u v) Anything _
          (key_to_protect host v auth s) (key_to_protect-Good host vault key u v auth s safe reads)
          (λ r t safe' right. protect_with-Good v auth r t safe' right))
  ]

  pub fscrypt_set_user_key_protection-Safe :
      (v : ℕ) (secret_hex : Text) (s : State)
      → Safe host vault key u s
      → ((call : ℕ) → host.reads_dir call ≡ true)
      → Safe host vault key u (fscrypt_set_user_key_protection host v secret_hex s).1
  unfolding fscrypt_set_user_key_protection
  fscrypt_set_user_key_protection-Safe v secret_hex s safe reads =
      elim (Bool-cases (not host.fbe_enabled)) [
        | inl off ↦ rw off safe
        | inr on ↦ elim (Option-cases (parse_hex secret_hex)) [
          | inl refused ↦ rw (on, refused) safe
          | inr (auth, parsed) ↦ elim (Bool-cases (is_empty auth)) [
            | inl empty ↦ rw (on, parsed, empty) safe
            | inr secret ↦ rw (on, parsed, secret) (set_protection-Good v auth s safe reads).0
          ]
        ]
      ]

  read_and_install_user_ce_key-Good :
      (v : ℕ) (auth : Text) (s : State)
      → Safe host vault key u s
      → Good host vault key u Anything (read_and_install_user_ce_key host v auth s)
  unfolding read_and_install_user_ce_key
  read_and_install_user_ce_key-Good v auth s safe = elim (Bool-cases (is_some (s.ce_policies v))) [
    | inl there ↦ rw there (safe, tt)
    | inr locked ↦ rw locked (
        bind-Good host vault key u Anything Anything _ (read_and_fixate_user_ce_key host v auth s)
          (any-Good host vault key u (read_and_fixate_user_ce_key host v auth s)
            (read_and_fixate_user_ce_key-Safe host vault key u v auth s safe).0)
          (λ found t safe' _. installed-Good host vault key u v found t safe'))
  ]

  pub fscrypt_unlock_user_key-Safe :
      (v : ℕ) (secret_hex : Text) (s : State)
      → Safe host vault key u s
      → Safe host vault key u (fscrypt_unlock_user_key host v secret_hex s).1
  unfolding fscrypt_unlock_user_key
  fscrypt_unlock_user_key-Safe v secret_hex s safe =
      elim (Bool-cases (not host.fbe_enabled || is_some (s.ce_policies v))) [
        | inl off ↦ rw off safe
        | inr on ↦ elim (Option-cases (parse_hex secret_hex)) [
          | inl refused ↦ rw (on, refused) safe
          | inr (auth, parsed) ↦ rw (on, parsed) (read_and_install_user_ce_key-Good v auth s safe).0
        ]
      ]

  pub evict_ce_key-Safe :
      (v : ℕ) (s : State)
      → Safe host vault key u s
      → Safe host vault key u (evict_ce_key host v s).1
  unfolding evict_ce_key
  evict_ce_key-Safe v s safe =
      tick-Safe host vault key u _
        (forget-Safe host vault key u v _ (policy-Safe host vault key u v none s safe))

  pub fscrypt_lock_user_key-Safe :
      (v : ℕ) (s : State)
      → Safe host vault key u s
      → Safe host vault key u (fscrypt_lock_user_key host v s).1
  unfolding fscrypt_lock_user_key
  fscrypt_lock_user_key-Safe v s safe = elim (Bool-cases host.fbe_enabled) [
    | inl on ↦ rw on (evict_ce_key-Safe v s safe)
    | inr off ↦ rw off safe
  ]

  fixate_each-Core :
      (m : List (ℕ × Text)) (s : State)
      → Core host vault key u s
      → Pending host vault key u (dir_of u s) m
      → Core host vault key u (fixate_each host m s)
  unfolding fixate_each
  fixate_each-Core [] s c p = c
  fixate_each-Core ((v, name) ∷ m) s c p =
      fixate_each-Core m t kept.core (elim (Bool-cases (v == u)) [
        | inl same ↦ Absent-Pending host vault key u (dir_of u t) m (p.0 ((==_iff v u).0 same)).1
        | inr other ↦
            subst (λ d. Pending host vault key u (entries d) m)
              (sym (kept.frame (ground (arith, other)))) p.1
      ])
    where
      paths : List Text
      paths = (get_ce_key_paths host v s).0

      t : State
      t = (fixate_user_ce_key host v name paths (tick s)).1

      kept : Keeps host vault key u v (tick s) t
      kept =
          fixate_user_ce_key-Keeps host vault key u v name paths (tick s)
            (tick-Keeps host vault key u v s c).core (λ eq. (p.0 eq).0)

  pub fscrypt_deferred_fixate_ce_keys-Safe :
      (s : State)
      → Safe host vault key u s
      → Safe host vault key u (fscrypt_deferred_fixate_ce_keys host s)
  unfolding fscrypt_deferred_fixate_ce_keys
  fscrypt_deferred_fixate_ce_keys-Safe s safe =
      let c = fixate_each-Core s.deferred_fixations s safe.core safe.pending in
      record {
        core = record { one = c.one; has = c.has; new_key = c.new_key; past = c.past };
        pending = tt;
      }
