-- ===== src/Search/Subsequence.antt =====
-- The greedy search finds a subsequence wherever there is one.
use jumpway.Prelude.{
  ℕ, zero, suc, Bool, true, false, List, [], ◌∷◌, Option, get_or, Text, trim, any, is_empty, drop,
  In, if◌then◌else◌, Bool-cases, ◌≡◌, ◌↔◌, ◌⊎◌, inl, inr, refl, sym, ap, ◌∙◌, arith,
}
use jumpway.Search.{characters, begins, after_first, matches, fuzzy_match}

-- The characters stand in the haystack one after the other, with anything between them.
abbrev pub IsWithin : List Text → Text → Type 0
IsWithin [] haystack = Unit
IsWithin (character ∷ needle) haystack =
    (n : ℕ) × (begins character (drop n haystack) ≡ true) × IsWithin needle (drop (suc n) haystack)

matches-later :
    (character : Text) (needle : List Text) (c : ℕ) (s : Text)
    → begins character (c ∷ s) ≡ false
    → matches (character ∷ needle) (c ∷ s) ≡ matches (character ∷ needle) s
unfolding matches after_first
matches-later character needle c s e = rw (matches, after_first, e)

matches-here :
    (character : Text) (needle : List Text) (c : ℕ) (s : Text)
    → begins character (c ∷ s) ≡ true
    → matches (character ∷ needle) (c ∷ s) ≡ matches needle s
unfolding matches after_first
matches-here character needle c s e = rw (matches, after_first, e)

-- What is found behind a first character is found from further left.
matches-rest :
    (character : Text) (needle : List Text) (s : Text)
    → ((c : ℕ) (t : Text) → matches needle t ≡ true → matches needle (c ∷ t) ≡ true)
    → matches (character ∷ needle) s ≡ true
    → matches needle s ≡ true
unfolding matches after_first
matches-rest character needle [] w h = absurd (cc h)
matches-rest character needle (c ∷ s) w h = elim (Bool-cases (begins character (c ∷ s))) [
  | inl here ↦ w c s (sym (matches-here character needle c s here) ∙ h)
  | inr later ↦
      w c s (matches-rest character needle s w (sym (matches-later character needle c s later) ∙ h))
]

matches-weaken :
    (needle : List Text) (c : ℕ) (s : Text)
    → matches needle s ≡ true
    → matches needle (c ∷ s) ≡ true
unfolding matches
matches-weaken [] c s h = refl
matches-weaken (character ∷ needle) c s h = elim (Bool-cases (begins character (c ∷ s))) [
  | inl here ↦
      matches-here character needle c s here
      ∙ matches-rest character needle s (matches-weaken needle) h
  | inr later ↦ matches-later character needle c s later ∙ h
]

from_place :
    (character : Text) (needle : List Text) (n : ℕ) (s : Text)
    → ((t : Text) → IsWithin needle t → matches needle t ≡ true)
    → begins character (drop n s) ≡ true
    → IsWithin needle (drop (suc n) s)
    → matches (character ∷ needle) s ≡ true
from_place character needle zero [] f b w = absurd (cc b)
from_place character needle zero (c ∷ s) f b w = matches-here character needle c s b ∙ f s w
from_place character needle (suc n) [] f b w = absurd (cc b)
from_place character needle (suc n) (c ∷ s) f b w =
    matches-weaken (character ∷ needle) c s (from_place character needle n s f b w)

to_place :
    (character : Text) (needle : List Text) (s : Text)
    → ((t : Text) → matches needle t ≡ true → IsWithin needle t)
    → matches (character ∷ needle) s ≡ true
    → IsWithin (character ∷ needle) s
unfolding matches after_first
to_place character needle [] f h = absurd (cc h)
to_place character needle (c ∷ s) f h = elim (Bool-cases (begins character (c ∷ s))) [
  | inl here ↦ (0, here, f s (sym (matches-here character needle c s here) ∙ h))
  | inr later ↦
      let (n, b, w) =
        to_place character needle s f (sym (matches-later character needle c s later) ∙ h) in
      (suc n, b, w)
]

matches_iff : (needle : List Text) (s : Text) → (matches needle s ≡ true) ↔ IsWithin needle s
unfolding matches
matches_iff [] s = (λ h. tt, λ w. refl)
matches_iff (character ∷ needle) s = (
  λ h. to_place character needle s (λ t. (matches_iff needle t).0) h,
  λ (n, b, w). from_place character needle n s (λ t. (matches_iff needle t).1) b w,
)

any_iff :
    {A : Type 0} (p : A → Bool) (xs : List A)
    → (any p xs ≡ true) ↔ ((x : A) × In x xs × (p x ≡ true))
any_iff p [] = (λ h. absurd (cc h), λ (x, m, e). absurd m)
any_iff p (x ∷ xs) = (
  λ h. elim (Bool-cases (p x)) [
    | inl here ↦ (x, inl refl, here)
    | inr later ↦ let (y, m, e) = (any_iff p xs).0 (ground arith) in (y, inr m, e)
  ],
  λ (y, m, e). elim m [
    | inl same ↦ let here : p x ≡ true = ap p same ∙ e in ground arith
    | inr there ↦ let rest : any p xs ≡ true = (any_iff p xs).1 (y, there, e) in ground arith
  ],
)

-- A search succeeds exactly when its trimmed, lowered query is empty, or the characters of the query
-- stand in the lowered text of one of the values, in their order, with anything between them.
pub fuzzy_match_iff :
    (lower : Text → Text) (query : Text) (values : List (Option Text))
    → (fuzzy_match lower query values ≡ true) ↔ (
        (lower (trim query) ≡ [])
        ⊎ ((v : Option Text) × In v values
            × IsWithin (characters (lower (trim query))) (lower (get_or v []))))
unfolding fuzzy_match
fuzzy_match_iff lower query values = by_needle (lower (trim query))
  where
    by_needle :
        (needle : Text)
        → ((if is_empty needle
              then true
              else any (λ v. matches (characters needle) (lower (get_or v []))) values)
            ≡ true)
          ↔ ((needle ≡ [])
              ⊎ ((v : Option Text) × In v values
                  × IsWithin (characters needle) (lower (get_or v []))))
    by_needle [] = (λ h. inl refl, λ s. refl)
    by_needle (c ∷ s) =
        let (to, from) = any_iff (λ v. matches (characters (c ∷ s)) (lower (get_or v []))) values in
        (
          λ h.
              let (v, m, e) = to h in
              inr (v, m, (matches_iff (characters (c ∷ s)) (lower (get_or v []))).0 e),
          λ o. elim o [
            | inl q ↦ absurd (cc q)
            | inr (v, m, w) ↦
                from (v, m, (matches_iff (characters (c ∷ s)) (lower (get_or v []))).1 w)
          ],
        )
