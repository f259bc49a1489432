-- ===== src/FsCrypt/Entries.antt =====
-- Lookups in a directory of keys after a change, and the names that are listed.
use android_system_vold.Common.{
  ◌≡◌, inl, inr, refl, sym, ap, subst, ◌∙◌, none, some, List, [], ◌∷◌, true, false, if◌then◌else◌,
  Text, text_eq, text_eq→eq, Bool-cases,
}
use android_system_vold.FsCrypt.{Entry, find, remove}

pub find-remove_other :
    (n m : Text) (d : List Entry) → text_eq m n ≡ false → find n (remove m d) ≡ find n d
unfolding find remove
find-remove_other n m [] h = refl
find-remove_other n m (e ∷ d) h = elim (Bool-cases (text_eq e.name m)) [
  | inl same ↦
      rw (same, ap (λ t. text_eq t n) (text_eq→eq e.name m same) ∙ h) (find-remove_other n m d h)
  | inr other ↦
      rw (other, find)
        (ap (λ t. if text_eq e.name n then some e else t) (find-remove_other n m d h))
]

pub find-remove_self : (n : Text) (d : List Entry) → find n (remove n d) ≡ none
unfolding find remove
find-remove_self n [] = refl
find-remove_self n (e ∷ d) = elim (Bool-cases (text_eq e.name n)) [
  | inl same ↦ rw same (find-remove_self n d)
  | inr other ↦ rw (other, find) (rw other (find-remove_self n d))
]

pub find-name :
    (n : Text) (d : List Entry) (e : Entry) → find n d ≡ some e → text_eq e.name n ≡ true
unfolding find
find-name n [] e h = cc
find-name n (f ∷ d) e h = elim (Bool-cases (text_eq f.name n)) [
  | inl same ↦
      let first : f ≡ e = cc (ap (λ t. if t then some f else find n d) (sym same) ∙ h) in
      subst (λ g. text_eq g.name n ≡ true) first same
  | inr other ↦ find-name n d e (ap (λ t. if t then some f else find n d) (sym other) ∙ h)
]
