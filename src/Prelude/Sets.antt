-- ===== src/Prelude/Sets.antt =====
-- `Set` of JavaScript over texts: the texts in the order in which they first occur.
use mathlib.Core.Path.{◌≡◌, refl}
use mathlib.Core.Logic.{◌↔◌, ◌≢◌, inl, inr}
use mathlib.Core.Bool.{true, false}
use mathlib.Core.List.{List, [], ◌∷◌}
use native.Mathlib.Omega.{arith}
use jumpway.Prelude.Tests.{if◌then◌else◌, ◌==◌, ==_iff, Bool-cases}
use jumpway.Prelude.Lists.{any, In, NotIn, Distinct}
use jumpway.Prelude.Texts.{Text, text_eq}

-- The texts that are not in `seen`, each once.
unfoldable pub unique_from : List Text → List Text → List Text
unique_from seen [] = []
unique_from seen (x ∷ xs) =
    let fresh = x ∷ unique_from (x ∷ seen) xs in
    let rest = unique_from seen xs in if any (λ y. y == x) seen then rest else fresh

-- `[...new Set(xs)]`
unfoldable pub unique : List Text → List Text
unfolding unique_from
unique xs = unique_from [] xs

pub any-In : (x : Text) (seen : List Text) → (any (λ y. y == x) seen ≡ true) ↔ In x seen
any-In x [] = (λ e. cc, λ m. absurd m)
any-In x (y ∷ seen) = grind (arith, any-In x seen, ==_iff y x)

differs : (x a : Text) → (x == a) ≡ false → x ≢ a
differs x a e q = ground (arith, ==_iff x a)

not_seen : (x : Text) (seen : List Text) → any (λ y. y == x) seen ≡ false → NotIn x seen
not_seen x seen new m = ground (arith, any-In x seen)

-- What is kept is what is listed and not seen before.
pub In-unique_from_iff :
    (a : Text) (seen xs : List Text) → In a (unique_from seen xs) ↔ (In a xs × NotIn a seen)
unfolding unique_from
In-unique_from_iff a seen [] = (λ m. absurd m, λ m. absurd m.0)
In-unique_from_iff a seen (x ∷ xs) =
    let (to, from) = In-unique_from_iff a (x ∷ seen) xs in
    elim (Bool-cases (any (λ y. y == x) seen)) [
      | inl old ↦
          let m = (any-In x seen).0 old in rw old (ground (arith, In-unique_from_iff a seen xs))
      | inr new ↦ rw new (
        λ m. elim m [
          | inl e ↦ (inl e, rw (← e) (not_seen x seen new))
          | inr k ↦ let (k', n) = to k in (inr k', λ l. n (inr l))
        ],
        λ (m, n). elim (Bool-cases (x == a)) [
          | inl e ↦ inl ((==_iff x a).0 e)
          | inr e ↦ elim m [
            | inl q ↦ inl q
            | inr r ↦ inr (from (r, λ l. elim l [ inl q ↦ differs x a e q | inr s ↦ n s ]))
          ]
        ],
      )
    ]

pub unique_from-Distinct : (seen xs : List Text) → Distinct (unique_from seen xs)
unfolding unique_from
unique_from-Distinct seen [] = tt
unique_from-Distinct seen (x ∷ xs) = elim (Bool-cases (any (λ y. y == x) seen)) [
  | inl old ↦ rw old (unique_from-Distinct seen xs)
  | inr new ↦ rw new (
    λ m. ((In-unique_from_iff x (x ∷ seen) xs).0 m).1 (inl refl),
    unique_from-Distinct (x ∷ seen) xs,
  )
]

pub unique-Distinct : (xs : List Text) → Distinct (unique xs)
unfolding unique
unique-Distinct xs = unique_from-Distinct [] xs

pub In-unique_iff : (a : Text) (xs : List Text) → In a (unique xs) ↔ In a xs
unfolding unique
In-unique_iff a xs =
    let (to, from) = In-unique_from_iff a [] xs in (λ m. (to m).0, λ m. from (m, λ k. k))
