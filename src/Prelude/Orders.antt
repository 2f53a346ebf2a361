-- ===== src/Prelude/Orders.antt =====
-- `Array.prototype.sort` with a comparison: of two values it says whether the first belongs behind the
-- second, which is that `compare(left, right)` is positive. The sort is stable.
use Prim.Native.Nat.{ℕ}
use mathlib.Core.Path.{◌≡◌, refl, ap, ◌∙◌}
use mathlib.Core.Logic.{◌↔◌, inl, inr}
use mathlib.Core.Bool.{Bool, true, false, not, ◌&&◌, ◌||◌}
use mathlib.Core.List.{List, [], ◌∷◌}
use native.Mathlib.Omega.{arith}
use jumpway.Prelude.Tests.{ltb, if◌then◌else◌, Bool-cases}
use jumpway.Prelude.Lists.{All, All-mono, filter, In}

-- Behind is a strict order in which not being ordered is an equivalence.
pub record IsOrder {A : Type 0} (behind : A → A → Bool) : Type 0 where
  pub asymmetric : (x y : A) → behind x y ≡ true → behind y x ≡ false
  pub connected : (x y z : A) → behind x y ≡ false → behind y z ≡ false → behind x z ≡ false

-- `compare(left, right) || tie(left, right)`
abbrev pub or_else : {A : Type 0} → (A → A → Bool) → (A → A → Bool) → A → A → Bool
or_else behind tie x y = behind x y || (not (behind y x) && tie x y)

-- Two values that the comparison does not tell apart.
abbrev pub ties : {A : Type 0} → (A → A → Bool) → A → A → Bool
ties behind x y = not (behind x y) && not (behind y x)

module _ {A : Type 0} where
  pub on-IsOrder :
      {B : Type 0} (key : A → B) (behind : B → B → Bool)
      → IsOrder behind
      → IsOrder (λ x y. behind (key x) (key y))
  on-IsOrder key behind o = record {
    asymmetric = λ x y. o.asymmetric (key x) (key y);
    connected = λ x y z. o.connected (key x) (key y) (key z);
  }

  pub or_else-IsOrder :
      (behind tie : A → A → Bool) → IsOrder behind → IsOrder tie → IsOrder (or_else behind tie)
  or_else-IsOrder behind tie o t = record {
    asymmetric = λ x y h.
        ground (arith, o.asymmetric x y, o.asymmetric y x, t.asymmetric x y, t.asymmetric y x);
    connected = λ x y z h k. ground (
      arith,
      o.connected x y z,
      o.connected z y x,
      o.connected y z x,
      o.connected z x y,
      o.connected x z y,
      o.connected y x z,
      t.connected x y z,
    );
  }

module _ {A : Type 0} (behind : A → A → Bool) where
  -- Behind the values that it belongs behind, and before all others.
  place_by : A → List A → List A
  place_by x [] = x ∷ []
  place_by x (y ∷ ys) = let later = y ∷ place_by x ys in if behind x y then later else x ∷ y ∷ ys

  unfoldable pub sort_by : List A → List A
  unfolding place_by
  sort_by [] = []
  sort_by (x ∷ xs) = place_by x (sort_by xs)

  In-place_by_iff : (a x : A) (ys : List A) → In a (place_by x ys) ↔ In a (x ∷ ys)
  unfolding place_by
  In-place_by_iff a x [] = (λ m. m, λ m. m)
  In-place_by_iff a x (y ∷ ys) = elim (Bool-cases (behind x y)) [
    | inr before ↦ rw before (λ m. m, λ m. m)
    | inl later ↦
        let (to, from) = In-place_by_iff a x ys in
        rw later (
          λ m. elim m [
            | inl e ↦ inr (inl e)
            | inr k ↦ elim (to k) [ inl e ↦ inl e | inr l ↦ inr (inr l) ]
          ],
          λ m. elim m [
            | inl e ↦ inr (from (inl e))
            | inr (inl e) ↦ inl e
            | inr (inr l) ↦ inr (from (inr l))
          ],
        )
  ]

  pub In-sort_by_iff : (a : A) (xs : List A) → In a (sort_by xs) ↔ In a xs
  unfolding sort_by
  In-sort_by_iff a [] = (λ m. m, λ m. m)
  In-sort_by_iff a (x ∷ xs) =
      let (to, from) = In-place_by_iff a x (sort_by xs) in
      let (kept, back) = In-sort_by_iff a xs in
      (
        λ m. elim (to m) [ inl e ↦ inl e | inr k ↦ inr (kept k) ],
        λ m. from (elim m [ inl e ↦ inl e | inr k ↦ inr (back k) ]),
      )

  -- No value belongs behind one that follows it.
  abbrev pub IsSortedBy : List A → Type 0
  IsSortedBy [] = Unit
  IsSortedBy (x ∷ xs) = All (λ y. behind x y ≡ false) xs × IsSortedBy xs

  module _ (o : IsOrder behind) where
    place_by-All :
        (z x : A) (ys : List A)
        → behind z x ≡ false
        → All (λ y. behind z y ≡ false) ys
        → All (λ y. behind z y ≡ false) (place_by x ys)
    unfolding place_by
    place_by-All z x [] l h = (l, tt)
    place_by-All z x (y ∷ ys) l (k, h) = elim (Bool-cases (behind x y)) [
      | inl after ↦ rw after (k, place_by-All z x ys l h)
      | inr before ↦ rw before (l, (k, h))
    ]

    place_by-IsSortedBy : (x : A) (ys : List A) → IsSortedBy ys → IsSortedBy (place_by x ys)
    unfolding place_by
    place_by-IsSortedBy x [] d = (tt, tt)
    place_by-IsSortedBy x (y ∷ ys) (h, d) = elim (Bool-cases (behind x y)) [
      | inl after ↦
          rw after (place_by-All y x ys (o.asymmetric x y after) h, place_by-IsSortedBy x ys d)
      | inr before ↦ rw before ((before, All-mono (λ z l. o.connected x y z before l) ys h), (h, d))
    ]

    place_by-filter :
        (a x : A) (ys : List A)
        → filter (ties behind a) (place_by x ys) ≡ filter (ties behind a) (x ∷ ys)
    unfolding place_by
    place_by-filter a x [] = refl
    place_by-filter a x (y ∷ ys) = ground (arith, place_by-filter a x ys, o.connected x a y)

    pub sort_by-IsSortedBy : (xs : List A) → IsSortedBy (sort_by xs)
    unfolding sort_by
    sort_by-IsSortedBy [] = tt
    sort_by-IsSortedBy (x ∷ xs) = place_by-IsSortedBy x (sort_by xs) (sort_by-IsSortedBy xs)

    -- Values that are not told apart are those that were there, in their order.
    pub filter-sort_by :
        (a : A) (xs : List A) → filter (ties behind a) (sort_by xs) ≡ filter (ties behind a) xs
    unfolding sort_by
    filter-sort_by a [] = refl
    filter-sort_by a (x ∷ xs) =
        place_by-filter a x (sort_by xs)
        ∙ ap (λ ys. if ties behind a x then x ∷ ys else ys) (filter-sort_by a xs)

-- Numbers from small to large.
abbrev pub above : ℕ → ℕ → Bool
above m n = ltb n m

pub above-IsOrder : IsOrder above
above-IsOrder = record { asymmetric = λ x y h. ground arith; connected = λ x y z h k. ground arith }
