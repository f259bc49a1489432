-- ===== src/FsCrypt/Kept.antt =====
-- That a user's CE key can be had from the user's directory, now and before each change of it, and
-- what a single change does to this.
use android_system_vold.Common.{
  ℕ, ◌≡◌, inl, inr, refl, sym, ap, subst, ◌∙◌, Option, none, some, List, ◌∷◌, Bool, true, false,
  if◌then◌else◌, Text, text_eq, text_eq→eq, text_eq_refl, Bool-cases,
}
use android_system_vold.FsCrypt.{Entry, Host, find, remove, begins_with_c}
use android_system_vold.FsCrypt.Keys.{unseal_entry, left_over}
use android_system_vold.FsCrypt.Entries.{find-remove_other, find-remove_self, find-name}

-- What KeyStorage promises: a stored key is had again with the authentication that it was stored
-- with and no other key ever is, and what is left of a key that was not destroyed gives no other
-- key than it did.
pub record IsVault (host : Host) : Type 0 where
  pub unseals : (auth key : Text) → host.unseal (host.seal auth key) auth ≡ some key
  pub only_sealed :
      (auth key other found : Text)
      → host.unseal (host.seal auth key) other ≡ some found
      → found ≡ key
  pub damage :
      (call : ℕ) (content left auth found : Text)
      → host.remains call content ≡ some left
      → host.unseal left auth ≡ some found
      → host.unseal content auth ≡ some found

module _ (host : Host) (vault : IsVault host) (key : Text) where
  -- No other key is found, and a name gives the key.
  abbrev pub OneKey : List Entry → Type 0
  OneKey d =
      (name auth found : Text) → unseal_entry host auth (find name d) ≡ some found → found ≡ key

  abbrev pub GivesKey : Text → List Entry → Type 0
  GivesKey name d =
      (begins_with_c name ≡ true)
      × ((auth : Text) × (unseal_entry host auth (find name d) ≡ some key))

  abbrev pub HasKey : List Entry → Type 0
  HasKey d = (name : Text) × GivesKey name d

  find-left_over_other :
      (name other : Text) (e : Entry) (left : Option Text) (d : List Entry)
      → find other d ≡ some e
      → text_eq other name ≡ false
      → find name (left_over e left (remove other d)) ≡ find name d
  unfolding find
  find-left_over_other name other e none d there h = find-remove_other name other d h
  find-left_over_other name other e (some content) d there h =
      rw (ap (λ t. text_eq t name) (text_eq→eq e.name other (find-name other d e there)) ∙ h)
        (find-remove_other name other d h)

  unseal_left :
      (auth found : Text) (call : ℕ) (e : Entry) (other : Text) (d : List Entry)
      (left : Option Text)
      → host.remains call e.content ≡ left
      → find other d ≡ some e
      → unseal_entry host auth (find other (left_over e left (remove other d))) ≡ some found
      → unseal_entry host auth (find other d) ≡ some found
  unseal_left auth found call e other d none r there h =
      cc (ap (unseal_entry host auth) (sym (find-remove_self other d)) ∙ h)
  unseal_left auth found call e other d (some content) r there h =
      rw there (in_dir e.is_dir (ap (unseal_entry host auth) (sym front) ∙ h))
    where
      front :
          find other (record e { content = content } ∷ remove other d)
          ≡ some (record e { content = content })
      front = unfold find in rw (find-name other d e there) refl

      in_dir :
          (b : Bool)
          → (if b then host.unseal content auth else none) ≡ some found
          → (if b then host.unseal e.content auth else none) ≡ some found
      in_dir true g = vault.damage call e.content content auth found r g
      in_dir false g = g

  -- A key that is destroyed, or damaged, is not another one.
  pub destroyed-OneKey :
      (call : ℕ) (e : Entry) (other : Text) (d : List Entry) (left : Option Text)
      → host.remains call e.content ≡ left
      → find other d ≡ some e
      → OneKey d
      → OneKey (left_over e left (remove other d))
  destroyed-OneKey call e other d left r there one name auth found h =
      elim (Bool-cases (text_eq other name)) [
        | inl same ↦
            let eq : other ≡ name = text_eq→eq other name same in
            one other auth found (
              unseal_left auth found call e other d left r there (
                subst
                  (λ n.
                    unseal_entry host auth (find n (left_over e left (remove other d)))
                    ≡ some found)
                  (sym eq) h))
        | inr apart ↦ one name auth found (
            ap (unseal_entry host auth) (sym (find-left_over_other name other e left d there apart))
            ∙ h)
      ]

  pub removed-OneKey : (other : Text) (d : List Entry) → OneKey d → OneKey (remove other d)
  removed-OneKey other d one name auth found h = elim (Bool-cases (text_eq other name)) [
    | inl same ↦ cc (
      ap (λ n. unseal_entry host auth (find n (remove other d))) (sym (text_eq→eq other name same))
          ∙ ap (unseal_entry host auth) (find-remove_self other d),
      h,
    )
    | inr apart ↦
        one name auth found
          (ap (unseal_entry host auth) (sym (find-remove_other name other d apart)) ∙ h)
  ]

  pub destroyed-GivesKey :
      (e : Entry) (other name : Text) (d : List Entry) (left : Option Text)
      → find other d ≡ some e
      → text_eq other name ≡ false
      → GivesKey name d
      → GivesKey name (left_over e left (remove other d))
  destroyed-GivesKey e other name d left there apart gives = (
    gives.0,
    (
      gives.1.0,
      ap (unseal_entry host gives.1.0) (find-left_over_other name other e left d there apart)
          ∙ gives.1.1,
    ),
  )

  find_first :
      (name : Text) (e : Entry) (d : List Entry)
      → text_eq e.name name ≡ true
      → find name (e ∷ d) ≡ some e
  unfolding find
  find_first name e d h = rw h refl

  find_later :
      (name : Text) (e : Entry) (d : List Entry)
      → text_eq e.name name ≡ false
      → find name (e ∷ d) ≡ find name d
  unfolding find
  find_later name e d h = rw h refl

  -- One more entry, which gives the key or nothing.
  cons-OneKey :
      (e : Entry) (d : List Entry)
      → ((auth found : Text) → unseal_entry host auth (some e) ≡ some found → found ≡ key)
      → OneKey d
      → OneKey (e ∷ d)
  cons-OneKey e d good one name auth found h = elim (Bool-cases (text_eq e.name name)) [
    | inl same ↦ good auth found (ap (unseal_entry host auth) (sym (find_first name e d same)) ∙ h)
    | inr other ↦
        one name auth found (ap (unseal_entry host auth) (sym (find_later name e d other)) ∙ h)
  ]

  pub renamed-OneKey :
      (old new : Text) (e : Entry) (d : List Entry)
      → find old d ≡ some e
      → OneKey d
      → OneKey (record e { name = new } ∷ remove new (remove old d))
  renamed-OneKey old new e d there one =
      cons-OneKey (record e { name = new }) (remove new (remove old d))
        (λ auth found h. one old auth found (ap (unseal_entry host auth) there ∙ h))
        (removed-OneKey new (remove old d) (removed-OneKey old d one))

  pub renamed-GivesKey :
      (old new : Text) (e : Entry) (d d' : List Entry)
      → begins_with_c new ≡ true
      → find old d ≡ some e
      → GivesKey old d
      → GivesKey new (record e { name = new } ∷ d')
  renamed-GivesKey old new e d d' begins there gives = (
    begins,
    (
      gives.1.0,
      ap (unseal_entry host gives.1.0)
            (find_first new (record e { name = new }) d' (text_eq_refl new))
          ∙ ap (unseal_entry host gives.1.0) (sym there)
          ∙ gives.1.1,
    ),
  )

  abbrev pub sealed_entry : Text → Text → Entry
  sealed_entry name auth = record { name = name; is_dir = true; content = host.seal auth key }

  pub stored-OneKey :
      (name auth : Text) (d : List Entry) → OneKey d → OneKey (sealed_entry name auth ∷ d)
  stored-OneKey name auth d one =
      cons-OneKey (sealed_entry name auth) d
        (λ other found h. vault.only_sealed auth key other found h) one

  pub stored-GivesKey :
      (name auth : Text) (d : List Entry)
      → begins_with_c name ≡ true
      → GivesKey name (sealed_entry name auth ∷ d)
  stored-GivesKey name auth d begins = (
    begins,
    (
      auth,
      ap (unseal_entry host auth) (find_first name (sealed_entry name auth) d (text_eq_refl name))
          ∙ vault.unseals auth key,
    ),
  )

  -- An entry of a free name hides no other.
  pub beside-GivesKey :
      (name other : Text) (e : Entry) (d : List Entry)
      → e.name ≡ other
      → find other d ≡ none
      → GivesKey name d
      → GivesKey name (e ∷ d)
  beside-GivesKey name other e d named free gives = elim (Bool-cases (text_eq e.name name)) [
    | inl same ↦ cc (
        sym gives.1.1
        ∙ ap (λ n. unseal_entry host gives.1.0 (find n d))
            (sym (text_eq→eq e.name name same) ∙ named)
        ∙ ap (unseal_entry host gives.1.0) free)
    | inr apart ↦ (
      gives.0,
      (gives.1.0, ap (unseal_entry host gives.1.0) (find_later name e d apart) ∙ gives.1.1),
    )
  ]
