-- ===== src/Hosts/Once.antt =====
-- Sets that are filled one by one against `unique`.
use jumpway.Prelude.{
  Bool, ◌||◌, List, [], ◌∷◌, ◌++◌, append_assoc, append-nil, Text, text_eq, any, unique,
  unique_from, ◌==◌, Bool-cases, ◌≡◌, inl, inr, refl, sym, ap, ◌∙◌, arith,
}
use jumpway.Hosts.{add_text}

abbrev sees : List Text → Text → Bool
sees seen x = any (λ y. y == x) seen

-- The texts of a list, added to a set one after the other.
abbrev pub add_texts : List Text → List Text → List Text
add_texts seen [] = seen
add_texts seen (x ∷ xs) = add_texts (add_text x seen) xs

unique_from-same :
    (s t xs : List Text) → ((x : Text) → sees s x ≡ sees t x) → unique_from s xs ≡ unique_from t xs
unfolding unique_from
unique_from-same s t [] h = refl
unique_from-same s t (x ∷ xs) h = elim (Bool-cases (sees s x)) [
  | inl old ↦ rw (old, sym (h x) ∙ old) (unique_from-same s t xs h)
  | inr new ↦
      rw (new, sym (h x) ∙ new)
        (ap (x ∷◌) (unique_from-same (x ∷ s) (x ∷ t) xs (λ y. ap (λ b. (x == y) || b) (h y))))
]

sees-append : (seen : List Text) (x y : Text) → sees (seen ++ x ∷ []) y ≡ sees (x ∷ seen) y
sees-append [] x y = refl
sees-append (z ∷ seen) x y = ground (arith, sees-append seen x y)

add_texts-unique_from : (seen xs : List Text) → add_texts seen xs ≡ seen ++ unique_from seen xs
unfolding unique_from
add_texts-unique_from seen [] = sym (append-nil seen)
add_texts-unique_from seen (x ∷ xs) = elim (Bool-cases (sees seen x)) [
  | inl old ↦ rw old (add_texts-unique_from seen xs)
  | inr new ↦ rw new (
      add_texts-unique_from (seen ++ x ∷ []) xs
      ∙ append_assoc seen (x ∷ []) (unique_from (seen ++ x ∷ []) xs)
      ∙ ap (λ us. seen ++ x ∷ us)
          (unique_from-same (seen ++ x ∷ []) (x ∷ seen) xs (sees-append seen x)))
]

pub add_texts-unique : (xs : List Text) → add_texts [] xs ≡ unique xs
unfolding unique
add_texts-unique xs = add_texts-unique_from [] xs
