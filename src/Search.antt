-- ===== src/Search.antt =====
-- app/web/ui/src/lib/search.ts: the search of the lists. `toLocaleLowerCase` is a parameter.
pub mod Subsequence
use jumpway.Prelude.{
  ℕ, Bool, true, false, ◌&&◌, List, [], ◌∷◌, Option, none, some, get_or, Text, trim, any, is_empty,
  leb, nat_beq, if◌then◌else◌,
}
use jumpway.Api.{starts_with}

pub data SortDirection : Type 0 where
  ascending descending : SortDirection

pub record ListSort (K : Type 0) : Type 0 where
  pub key : K
  pub direction : SortDirection

abbrev pub is_high : ℕ → Bool
is_high c = leb 0xd800 c && leb c 0xdbff

abbrev pub is_low : ℕ → Bool
is_low c = leb 0xdc00 c && leb c 0xdfff

-- What `for (const character of s)` runs through: code points, of one or two units each.
unfoldable pub characters : Text → List Text
characters [] = []
characters (c ∷ []) = (c ∷ []) ∷ []
characters (c ∷ d ∷ s) =
    let after = characters s in
    let rest = characters (d ∷ s) in
    if is_high c && is_low d then (c ∷ d ∷ []) ∷ after else (c ∷ []) ∷ rest

abbrev pub begins : Text → Text → Bool
begins character [] = false
begins character (c ∷ s) = starts_with character (c ∷ s)

-- `haystack.indexOf(character, position)`, and the step of `position` behind it: what of the haystack
-- is left then.
unfoldable pub after_first : Text → Text → Option Text
after_first character [] = none
after_first character (c ∷ s) =
    let rest = after_first character s in if begins character (c ∷ s) then some s else rest

unfoldable pub matches : List Text → Text → Bool
unfolding after_first
matches [] haystack = true
matches (character ∷ needle) haystack = elim (after_first character haystack) [
  | none ↦ false
  | some rest ↦ matches needle rest
]

-- `lower` is `toLocaleLowerCase` in the language of the page; a value that is absent counts as ''.
unfoldable pub fuzzy_match : (Text → Text) → Text → List (Option Text) → Bool
unfolding characters matches
fuzzy_match lower query values =
    let needle = lower (trim query) in
    if is_empty needle
    then true
    else any (λ v. matches (characters needle) (lower (get_or v []))) values
