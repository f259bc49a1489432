-- ===== src/FsCrypt/Newest.antt =====
-- The name of a new key beside those that are there.
use android_system_vold.Common.{
  ℕ, zero, suc, ◌≡◌, ◌≢◌, inl, inr, refl, sym, ap, subst, ◌∙◌, Option, none, some, List, [], ◌∷◌,
  true, false, Text, arith, Bool-cases, All,
}
use android_system_vold.FsCrypt.{
  text_lt, insert_name, newest_first, new_name_from, candidate, get_ce_key_new_path, uint_max,
}

text_lt_asym : (s t : Text) → text_lt s t ≡ true → text_lt t s ≡ false
unfolding text_lt
text_lt_asym [] [] h = refl
text_lt_asym [] (d ∷ t) h = refl
text_lt_asym (c ∷ s) [] h = cc h
text_lt_asym (c ∷ s) (d ∷ t) h = ground (arith, text_lt_asym s t)

-- What is at most a text that is below another is below it.
ge_lt_trans : (s t r : Text) → text_lt s t ≡ false → text_lt s r ≡ true → text_lt t r ≡ true
unfolding text_lt
ge_lt_trans [] [] [] h g = g
ge_lt_trans [] [] (e ∷ r) h g = refl
ge_lt_trans [] (d ∷ t) r h g = cc h
ge_lt_trans (c ∷ s) [] [] h g = cc g
ge_lt_trans (c ∷ s) [] (e ∷ r) h g = refl
ge_lt_trans (c ∷ s) (d ∷ t) [] h g = cc g
ge_lt_trans (c ∷ s) (d ∷ t) (e ∷ r) h g = ground (arith, ge_lt_trans s t r)

ge_trans : (s t r : Text) → text_lt s t ≡ false → text_lt t r ≡ false → text_lt s r ≡ false
ge_trans s t r h g = elim (Bool-cases (text_lt s r)) [
  | inl below ↦ cc (sym g ∙ ge_lt_trans s t r h below)
  | inr above ↦ above
]

text_lt_irrefl : (s : Text) → text_lt s s ≡ false
unfolding text_lt
text_lt_irrefl [] = refl
text_lt_irrefl (c ∷ s) = ground (arith, text_lt_irrefl s)

-- The first name is below none.
abbrev FirstIsNewest : List Text → List Text → Type 0
FirstIsNewest [] names = Unit {0}
FirstIsNewest (first ∷ later) names = All (λ name. text_lt first name ≡ false) names

All-map :
    (P Q : Text → Type 0) (names : List Text)
    → ((name : Text) → P name → Q name)
    → All P names
    → All Q names
All-map P Q [] f h = tt
All-map P Q (n ∷ names) f h = (f n h.0, All-map P Q names f h.1)

insert_name-FirstIsNewest :
    (name : Text) (sorted names : List Text)
    → (sorted ≡ [] → names ≡ [])
    → FirstIsNewest sorted names
    → FirstIsNewest (insert_name name sorted) (name ∷ names)
unfolding insert_name
insert_name-FirstIsNewest name [] names all h =
    (text_lt_irrefl name, subst (All _) (sym (all refl)) tt)
insert_name-FirstIsNewest name (first ∷ sorted) names all h =
    elim (Bool-cases (text_lt name first)) [
      | inl older ↦ rw older ((text_lt_asym name first older, h))
      | inr newer ↦
          rw newer
            ((text_lt_irrefl name, All-map _ _ names (λ n g. ge_trans name first n newer g) h))
    ]

insert_name_nonempty : (name : Text) (sorted : List Text) → insert_name name sorted ≢ []
unfolding insert_name
insert_name_nonempty name [] = λ h. cc h
insert_name_nonempty name (first ∷ sorted) = elim (Bool-cases (text_lt name first)) [
  | inl older ↦ rw older (λ h. cc h)
  | inr newer ↦ rw newer (λ h. cc h)
]

newest_first_empty : (names : List Text) → newest_first names ≡ [] → names ≡ []
unfolding newest_first
newest_first_empty [] h = refl
newest_first_empty (n ∷ names) h = absurd (insert_name_nonempty n (newest_first names) h)

newest_first-FirstIsNewest : (names : List Text) → FirstIsNewest (newest_first names) names
unfolding newest_first
newest_first-FirstIsNewest [] = tt
newest_first-FirstIsNewest (n ∷ names) =
    insert_name-FirstIsNewest n (newest_first names) names (newest_first_empty names)
      (newest_first-FirstIsNewest names)

abbrev Above : Text → Option Text → Type 0
Above newest none = Unit {0}
Above newest (some name) = text_lt newest name ≡ true

new_name_from-Above : (left i : ℕ) (newest : Text) → Above newest (new_name_from left i newest)
unfolding new_name_from
new_name_from-Above zero i newest = tt
new_name_from-Above (suc left) i newest = elim (Bool-cases (text_lt newest (candidate i))) [
  | inl found ↦ rw (found, new_name_from) found
  | inr more ↦ rw (more, new_name_from) (new_name_from-Above left (suc i) newest)
]

-- The path of a new key, if one is found, is newer than every key that is listed: `ce_key_paths`
-- puts it first, and no key has it already.
pub get_ce_key_new_path_newest :
    (names : List Text) (path : Text)
    → get_ce_key_new_path (newest_first names) ≡ some path
    → All (λ name. (text_lt name path ≡ true) × (name ≢ path)) names
unfolding get_ce_key_new_path
get_ce_key_new_path_newest names path =
    go (newest_first names) (newest_first-FirstIsNewest names) (newest_first_empty names)
  where
    go :
        (sorted : List Text)
        → FirstIsNewest sorted names
        → (sorted ≡ [] → names ≡ [])
        → get_ce_key_new_path sorted ≡ some path
        → All (λ name. (text_lt name path ≡ true) × (name ≢ path)) names
    go [] first all h = subst (All _) (sym (all refl)) tt
    go (newest ∷ sorted) first all h =
        All-map _ _ names
          (λ name g.
            let below = ge_lt_trans newest name path g above in
            (below, λ same. cc (sym (ap (λ t. text_lt t path) same ∙ text_lt_irrefl path) ∙ below)))
          first
      where
        above : text_lt newest path ≡ true
        above = subst (Above newest) h (new_name_from-Above uint_max 0 newest)
