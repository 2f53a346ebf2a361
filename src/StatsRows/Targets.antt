-- ===== src/StatsRows/Targets.antt =====
-- Which targets of a rule are shown.
use jumpway.Prelude.{
  ℕ, zero, suc, ◌≤◌, All, All-mono, Bool, true, false, none, some, get_or, sym, min, List, [], ◌∷◌,
  ◌++◌, Option, list, Text, take, drop, length, filter, nat_beq, sort_descending, IsDescending,
  sort_descending-IsDescending, filter-sort_descending, length-sort_descending, ◌≡◌, refl, ap, ◌∙◌,
  arith,
}
use jumpway.Stats.{Target}
use jumpway.StatsRows.{active_at, visible_targets}

-- A target was active no later than another: never, or at an instant that is not after the other's.
abbrev pub IsNoLater : Option ℕ → Option ℕ → Type 0
IsNoLater none b = Unit
IsNoLater (some n) none = ⊥
IsNoLater (some n) (some m) = n ≤ m

-- Whether two are of the same instant, or both of none.
abbrev pub same_instant : Option ℕ → Option ℕ → Bool
same_instant none none = true
same_instant (some n) (some m) = nat_beq n m
same_instant _ _ = false

-- What the order is sorted by.
abbrev key_of : Option ℕ → ℕ
key_of none = zero
key_of (some at) = suc at

key_of-IsNoLater : (a b : Option ℕ) → key_of a ≤ key_of b → IsNoLater a b
key_of-IsNoLater none b h = tt
key_of-IsNoLater (some n) none h = absurd (omega (arith, h))
key_of-IsNoLater (some n) (some m) h = omega (arith, h)

same_instant-key_of : (a b : Option ℕ) → same_instant a b ≡ nat_beq (key_of a) (key_of b)
same_instant-key_of none none = ground arith
same_instant-key_of none (some m) = ground arith
same_instant-key_of (some n) none = ground arith
same_instant-key_of (some n) (some m) = ground arith

module _ {N : Type 0} (parse : Text → Option ℕ) where
  -- When a target was last active, if its text names an instant.
  abbrev pub last_active : Target N → Option ℕ
  last_active t = parse (get_or t.stats.last_active [])

  abbrev pub LatestFirst : List (Target N) → Type 0
  LatestFirst [] = Unit
  LatestFirst (t ∷ ts) = All (λ u. IsNoLater (last_active u) (last_active t)) ts × LatestFirst ts

  -- All targets in an order, and those that are shown of them.
  pub record IsVisible (all shown : List (Target N)) (limit : ℕ) : Type 0 where
    pub hidden : List (Target N)
    pub latest_first : LatestFirst (shown ++ hidden)
    pub same :
        (at : Option ℕ)
        → filter (λ t. same_instant (last_active t) at) (shown ++ hidden)
          ≡ filter (λ t. same_instant (last_active t) at) all
    pub count : length shown ≡ min limit (length all)

  active_at-key_of : (t : Target N) → active_at parse t ≡ key_of (last_active t)
  active_at-key_of t = ground arith

  IsDescending-LatestFirst :
      (ts : List (Target N)) → IsDescending (active_at parse) ts → LatestFirst ts
  IsDescending-LatestFirst [] h = tt
  IsDescending-LatestFirst (t ∷ ts) (h, hs) = (
    All-mono
        (λ u l.
          key_of-IsNoLater (last_active u) (last_active t)
            (omega (arith, l, active_at-key_of u, active_at-key_of t)))
        ts h,
    IsDescending-LatestFirst ts hs,
  )

  filter-same_instant :
      (at : Option ℕ) (ts : List (Target N))
      → filter (λ t. same_instant (last_active t) at) ts
        ≡ filter (λ t. nat_beq (active_at parse t) (key_of at)) ts
  filter-same_instant at [] = refl
  filter-same_instant at (t ∷ ts) =
      rw (same_instant-key_of (last_active t) at, active_at-key_of t, filter-same_instant at ts)
        refl

take-drop : {A : Type 0} (n : ℕ) (xs : List A) → take n xs ++ drop n xs ≡ xs
take-drop zero xs = refl
take-drop (suc n) [] = refl
take-drop (suc n) (x ∷ xs) = ap (x ∷◌) (take-drop n xs)

length-take : {A : Type 0} (n : ℕ) (xs : List A) → length (take n xs) ≡ min n (length xs)
length-take zero xs = omega arith
length-take (suc n) [] = omega arith
length-take (suc n) (x ∷ xs) = omega (arith, length-take n xs)

-- The shown targets are the first of all targets in an order in which the latest active stand first,
-- those that were never active last, and those of the same instant as they were given; as many are shown
-- as the limit lets, and the number beside them is that of all.
pub visible_targets-IsVisible :
    {N : Type 0} (parse : Text → Option ℕ) (targets : Option (List (Target N))) (limit : ℕ)
    → IsVisible parse (list targets) (visible_targets parse targets limit).0 limit
      × ((visible_targets parse targets limit).1 ≡ length (list targets))
unfolding visible_targets
visible_targets-IsVisible parse targets limit =
    let all = list targets in
    let sorted = sort_descending (active_at parse) all in
    (
      record {
        hidden = drop limit sorted;
        latest_first = rw (take-drop limit sorted) (
            IsDescending-LatestFirst parse sorted
              (sort_descending-IsDescending (active_at parse) all));
        same = λ at. rw (take-drop limit sorted) (
            filter-same_instant parse at sorted
            ∙ filter-sort_descending (active_at parse) (key_of at) all
            ∙ sym (filter-same_instant parse at all));
        count =
            length-take limit sorted
            ∙ ap (min limit) (length-sort_descending (active_at parse) all);
      },
      refl,
    )
