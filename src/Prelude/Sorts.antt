-- ===== src/Prelude/Sorts.antt =====
-- `Array.prototype.sort` with a comparison of numbers: it is stable.
use Prim.Native.Nat.{ℕ, ◌≤◌}
use mathlib.Core.Path.{◌≡◌, refl, ap, ◌∙◌}
use mathlib.Core.Logic.{inl, inr}
use mathlib.Core.List.{List, [], ◌∷◌}
use native.Mathlib.Omega.{arith}
use jumpway.Prelude.Tests.{ltb, nat_beq, if◌then◌else◌, Bool-cases}
use jumpway.Prelude.Lists.{All, All-mono, filter, length}

module _ {A : Type 0} (key : A → ℕ) where
  -- Before the first value that does not come strictly earlier.
  place : A → List A → List A
  place x [] = x ∷ []
  place x (y ∷ ys) = let later = y ∷ place x ys in if ltb (key x) (key y) then later else x ∷ y ∷ ys

  -- Largest keys first, equal ones in the order in which they come.
  unfoldable pub sort_descending : List A → List A
  unfolding place
  sort_descending [] = []
  sort_descending (x ∷ xs) = place x (sort_descending xs)

  abbrev pub IsDescending : List A → Type 0
  IsDescending [] = Unit
  IsDescending (x ∷ xs) = All (λ y. key y ≤ key x) xs × IsDescending xs

  place-All :
      (n : ℕ) (x : A) (ys : List A)
      → key x ≤ n
      → All (λ y. key y ≤ n) ys
      → All (λ y. key y ≤ n) (place x ys)
  unfolding place
  place-All n x [] l h = (l, tt)
  place-All n x (y ∷ ys) l (k, h) = elim (Bool-cases (ltb (key x) (key y))) [
    | inl after ↦ rw after (k, place-All n x ys l h)
    | inr before ↦ rw before (l, (k, h))
  ]

  place-IsDescending : (x : A) (ys : List A) → IsDescending ys → IsDescending (place x ys)
  unfolding place
  place-IsDescending x [] d = (tt, tt)
  place-IsDescending x (y ∷ ys) (h, d) = elim (Bool-cases (ltb (key x) (key y))) [
    | inl after ↦ rw after (place-All (key y) x ys (ground arith) h, place-IsDescending x ys d)
    | inr before ↦
        let low : key y ≤ key x = ground arith in
        rw before ((low, All-mono (λ z l. omega (arith, l, low)) ys h), (h, d))
  ]

  place-filter :
      (n : ℕ) (x : A) (ys : List A)
      → filter (λ y. nat_beq (key y) n) (place x ys) ≡ filter (λ y. nat_beq (key y) n) (x ∷ ys)
  unfolding place
  place-filter n x [] = refl
  place-filter n x (y ∷ ys) = ground (arith, place-filter n x ys)

  pub sort_descending-IsDescending : (xs : List A) → IsDescending (sort_descending xs)
  unfolding sort_descending
  sort_descending-IsDescending [] = tt
  sort_descending-IsDescending (x ∷ xs) =
      place-IsDescending x (sort_descending xs) (sort_descending-IsDescending xs)

  -- The values of each key are those that were there, in their order.
  pub filter-sort_descending :
      (n : ℕ) (xs : List A)
      → filter (λ y. nat_beq (key y) n) (sort_descending xs) ≡ filter (λ y. nat_beq (key y) n) xs
  unfolding sort_descending
  filter-sort_descending n [] = refl
  filter-sort_descending n (x ∷ xs) =
      place-filter n x (sort_descending xs)
      ∙ ap (λ ys. if nat_beq (key x) n then x ∷ ys else ys) (filter-sort_descending n xs)

  place-length : (x : A) (ys : List A) → length (place x ys) ≡ length (x ∷ ys)
  unfolding place
  place-length x [] = refl
  place-length x (y ∷ ys) = ground (arith, place-length x ys)

  pub length-sort_descending : (xs : List A) → length (sort_descending xs) ≡ length xs
  unfolding sort_descending
  length-sort_descending [] = refl
  length-sort_descending (x ∷ xs) =
      omega (arith, place-length x (sort_descending xs), length-sort_descending xs)
