-- ===== src/Prelude/Lists.antt =====
-- Array methods of the program's arrays, over Boolean tests and native lengths.
use Prim.Native.Nat.{ℕ, zero, suc, ◌+◌, ◌-◌}
use mathlib.Core.Path.{◌≡◌, refl}
use mathlib.Core.Logic.{◌↔◌, ◌⊎◌, inl, inr}
use mathlib.Core.Bool.{Bool, true, false, ◌||◌}
use mathlib.Core.List.{List, [], ◌∷◌, ◌++◌}
use mathlib.Core.Option.{Option, none, some}
use native.Mathlib.Omega.{arith}
use jumpway.Prelude.Tests.{if◌then◌else◌, Bool-cases}

module _ {ℓ} {A : Type ℓ} where
  abbrev pub length : List A → ℕ
  length [] = 0
  length (x ∷ xs) = suc (length xs)

  abbrev pub drop : ℕ → List A → List A
  drop zero xs = xs
  drop (suc n) [] = []
  drop (suc n) (x ∷ xs) = drop n xs

  abbrev pub take : ℕ → List A → List A
  take zero xs = []
  take (suc n) [] = []
  take (suc n) (x ∷ xs) = x ∷ take n xs

  -- `xs.some(p)`
  abbrev pub any : (A → Bool) → List A → Bool
  any p [] = false
  any p (x ∷ xs) = p x || any p xs

  abbrev pub filter : (A → Bool) → List A → List A
  filter p [] = []
  filter p (x ∷ xs) = if p x then x ∷ filter p xs else filter p xs

  -- `xs.find(p)`
  abbrev pub find? : (A → Bool) → List A → Option A
  find? p [] = none
  find? p (x ∷ xs) = if p x then some x else find? p xs

  -- `xs.length === 0`
  abbrev pub is_empty : List A → Bool
  is_empty [] = true
  is_empty (x ∷ xs) = false

  -- `list(value)` of types.ts: a missing array is an empty one.
  abbrev pub list : Option (List A) → List A
  list none = []
  list (some xs) = xs

  pub length-append : (xs ys : List A) → length (xs ++ ys) ≡ length xs + length ys
  length-append [] ys = omega arith
  length-append (x ∷ xs) ys = omega (arith, length-append xs ys)

  pub length-drop : (n : ℕ) (xs : List A) → length (drop n xs) ≡ length xs - n
  length-drop zero xs = omega arith
  length-drop (suc n) [] = omega arith
  length-drop (suc n) (x ∷ xs) = omega (arith, length-drop n xs)

module _ {ℓ κ} {A : Type ℓ} (P : A → Type κ) where
  abbrev pub All : List A → Type κ
  All [] = Unit
  All (x ∷ xs) = P x × All xs

  pub All-append : (xs ys : List A) → All xs → All ys → All (xs ++ ys)
  All-append [] ys h k = k
  All-append (x ∷ xs) ys (p, h) k = (p, All-append xs ys h k)

module _ {ℓ κ ι} {A : Type ℓ} {P : A → Type κ} {Q : A → Type ι} where
  pub All-mono : ((x : A) → P x → Q x) → (xs : List A) → All P xs → All Q xs
  All-mono f [] h = tt
  All-mono f (x ∷ xs) (p, h) = (f x p, All-mono f xs h)

module _ {ℓ} {A : Type ℓ} (p : A → Bool) where
  pub any-eq-false_iff : (xs : List A) → (any p xs ≡ false) ↔ All (λ x. p x ≡ false) xs
  any-eq-false_iff [] = (λ e. tt, λ h. refl)
  any-eq-false_iff (x ∷ xs) = ground (arith, any-eq-false_iff xs)

  pub find?-eq-none_iff : (xs : List A) → (find? p xs ≡ none) ↔ All (λ x. p x ≡ false) xs
  find?-eq-none_iff [] = (λ e. tt, λ h. refl)
  find?-eq-none_iff (x ∷ xs) = ground (arith, find?-eq-none_iff xs)

  pub filter-All : (xs : List A) → All (λ x. p x ≡ true) (filter p xs)
  filter-All [] = tt
  filter-All (x ∷ xs) = elim (Bool-cases (p x)) [
    | inl e ↦ rw e (e, filter-All xs)
    | inr e ↦ rw e (filter-All xs)
  ]

  pub filter-eq_of_All : (xs : List A) → All (λ x. p x ≡ true) xs → filter p xs ≡ xs
  filter-eq_of_All [] h = refl
  filter-eq_of_All (x ∷ xs) (e, h) = rw (e, filter-eq_of_All xs h)

-- Membership as a computed type: at which place the value stands.
abbrev pub In : {A : Type 0} → A → List A → Type 0
In a [] = ⊥
In a (x ∷ xs) = (x ≡ a) ⊎ In a xs

abbrev pub NotIn : {A : Type 0} → A → List A → Type 0
NotIn a xs = ¬ In a xs

abbrev pub Distinct : {A : Type 0} → List A → Type 0
Distinct [] = Unit
Distinct (x ∷ xs) = NotIn x xs × Distinct xs

module _ {A : Type 0} where
  pub In-append_iff : (a : A) (xs ys : List A) → In a (xs ++ ys) ↔ (In a xs ⊎ In a ys)
  In-append_iff a [] ys = (inr, λ s. elim s [ inl e ↦ absurd e | inr m ↦ m ])
  In-append_iff a (x ∷ xs) ys =
      let (to, from) = In-append_iff a xs ys in
      (
        λ s. elim s [
          | inl e ↦ inl (inl e)
          | inr m ↦ elim (to m) [ inl l ↦ inl (inr l) | inr r ↦ inr r ]
        ],
        λ s. elim s [
          | inl (inl e) ↦ inl e
          | inl (inr l) ↦ inr (from (inl l))
          | inr r ↦ inr (from (inr r))
        ],
      )

  pub In-filter_iff :
      (p : A → Bool) (a : A) (xs : List A) → In a (filter p xs) ↔ (In a xs × (p a ≡ true))
  In-filter_iff p a [] = (λ m. absurd m, λ m. absurd m.0)
  In-filter_iff p a (x ∷ xs) =
      let (to, from) = In-filter_iff p a xs in
      elim (Bool-cases (p x)) [
        | inl e ↦ rw e (
          λ s. elim s [
            | inl here ↦ (inl here, rw (← here) e)
            | inr there ↦ (inr (to there).0, (to there).1)
          ],
          λ m. elim m.0 [ inl here ↦ inl here | inr there ↦ inr (from (there, m.1)) ],
        )
        | inr e ↦ rw e (
          λ s. (inr (to s).0, (to s).1),
          λ m. elim m.0 [ inl here ↦ absurd (cc (here, m.1, e)) | inr there ↦ from (there, m.1) ],
        )
      ]

  pub All-In : (P : A → Type 0) (a : A) (xs : List A) → All P xs → In a xs → P a
  All-In P a [] h m = absurd m
  All-In P a (x ∷ xs) (p, h) m = elim m [ inl e ↦ rw (← e) p | inr there ↦ All-In P a xs h there ]
