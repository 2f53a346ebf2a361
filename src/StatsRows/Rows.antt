-- ===== src/StatsRows/Rows.antt =====
-- Which rows there are, and what each holds.
use jumpway.Prelude.{
  List, [], ◌∷◌, ◌++◌, map, Option, none, some, Text, text_eq, lookup, insert, lookup-insert, list,
  find?, unique_from, list, In-unique_from_iff, unique_from-Distinct, In-append_iff, ◌==◌, ==_iff,
  ◌≡◌, ◌⊎◌, inl, inr, ◌↔◌, refl, arith, All, In, NotIn, Distinct,
}
use jumpway.Wire.{Rule}
use jumpway.Stats.{RuleStats}
use jumpway.Status.{RuleStatus}
use jumpway.StatsRows.{StatsRow, by_name_from, by_name, row_names, row_of, build_rows}

or_else : {T : Type 0} → Option T → Option T → Option T
or_else none o = o
or_else (some x) o = some x

or_else-none : {T : Type 0} (o : Option T) → o ≡ or_else o none
unfolding or_else
or_else-none none = refl
or_else-none (some x) = refl

module _ {T : Type 0} (name : T → Text) where
  lookup-by_name_from :
      (n : Text) (m : List (Text × T)) (xs : List T)
      → lookup n (by_name_from name m xs) ≡ or_else (lookup n m) (find? (λ x. name x == n) xs)
  unfolding by_name_from or_else
  lookup-by_name_from n m [] = or_else-none (lookup n m)
  lookup-by_name_from n m (x ∷ xs) = ground (
    arith,
    lookup-by_name_from n m xs,
    lookup-by_name_from n (insert (name x) x m) xs,
    lookup-insert (name x) n x m,
    ==_iff (name x) n,
  )

  -- The map of an array finds for each name its first entry.
  lookup-by_name :
      (n : Text) (xs : List T) → lookup n (by_name name xs) ≡ find? (λ x. name x == n) xs
  unfolding by_name or_else lookup
  lookup-by_name n xs = lookup-by_name_from n [] xs

In-NotIn : (a : Text) (xs : List Text) → In a xs ⊎ NotIn a xs
In-NotIn a [] = inr (λ m. m)
In-NotIn a (x ∷ xs) = grind (arith, In-NotIn a xs, ==_iff x a)

Distinct-append :
    (xs ys : List Text)
    → Distinct xs
    → Distinct ys
    → ((a : Text) → In a ys → NotIn a xs)
    → Distinct (xs ++ ys)
Distinct-append [] ys d e apart = e
Distinct-append (x ∷ xs) ys (n, d) e apart = (
  λ m. elim ((In-append_iff x xs ys).0 m) [ inl l ↦ n l | inr r ↦ apart x r (inl refl) ],
  Distinct-append xs ys d e (λ a m k. apart a m (inr k)),
)

abbrev pub rule_names : Option (List Rule) → List Text
rule_names rules = map (λ (r : Rule). r.name) (list rules)

module _ {A B : Type 0} (f : A → B) where
  map-inverse : (g : B → A) → ((a : A) → g (f a) ≡ a) → (xs : List A) → map g (map f xs) ≡ xs
  map-inverse g h [] = refl
  map-inverse g h (x ∷ xs) = cc (h x, map-inverse g h xs)

  All-map : (P : B → Type 0) → ((a : A) → P (f a)) → (xs : List A) → All P (map f xs)
  All-map P h [] = tt
  All-map P h (x ∷ xs) = (h x, All-map P h xs)

module _ {N : Type 0} where
  abbrev pub entry_names : List (RuleStats N) → List Text
  entry_names snapshot = map (λ (e : RuleStats N). e.name) snapshot

  abbrev pub names : List (StatsRow N) → List Text
  names rows = map (λ (row : StatsRow N). row.name) rows

  -- What a row holds: the first rule, runtime entry and statistics of its name.
  abbrev pub IsRowOf :
      Option (List Rule) → List RuleStatus → List (RuleStats N) → StatsRow N → Type 0
  IsRowOf rules runtime snapshot row =
      (row.rule ≡ find? (λ (r : Rule). r.name == row.name) (list rules))
      × (row.runtime ≡ find? (λ (s : RuleStatus). s.name == row.name) runtime)
      × (row.entry ≡ find? (λ (e : RuleStats N). e.name == row.name) snapshot)

  names-build_rows :
      (rules : Option (List Rule)) (runtime : List RuleStatus) (snapshot : List (RuleStats N))
      → names (build_rows rules runtime snapshot) ≡ row_names rules snapshot
  unfolding build_rows row_of
  names-build_rows rules runtime snapshot =
      map-inverse (row_of rules runtime snapshot) (λ (row : StatsRow N). row.name) (λ n. refl)
        (row_names rules snapshot)

  row_of-IsRowOf :
      (rules : Option (List Rule)) (runtime : List RuleStatus) (snapshot : List (RuleStats N))
      → (n : Text) → IsRowOf rules runtime snapshot (row_of rules runtime snapshot n)
  unfolding row_of
  row_of-IsRowOf rules runtime snapshot n = (
    lookup-by_name (λ (r : Rule). r.name) n (list rules),
    lookup-by_name (λ (s : RuleStatus). s.name) n runtime,
    lookup-by_name (λ (e : RuleStats N). e.name) n snapshot,
  )

  In-row_names_iff :
      (rules : Option (List Rule)) (snapshot : List (RuleStats N)) (a : Text)
      → In a (row_names rules snapshot) ↔ (In a (rule_names rules) ⊎ In a (entry_names snapshot))
  In-row_names_iff rules snapshot a =
      let (split, join) =
        In-append_iff a (rule_names rules)
          (unique_from (rule_names rules) (entry_names snapshot)) in
      let (to, from) = In-unique_from_iff a (rule_names rules) (entry_names snapshot) in
      (
        λ m. elim (split m) [ inl l ↦ inl l | inr r ↦ inr ((to r).0) ],
        λ s. elim s [
          | inl l ↦ join (inl l)
          | inr r ↦ elim (In-NotIn a (rule_names rules)) [
            | inl old ↦ join (inl old)
            | inr new ↦ join (inr (from (r, new)))
          ]
        ],
      )

  -- Every row of the page holds the first rule, the first runtime entry and the first statistics of
  -- its name, and a name has a row exactly when it is a rule's or in the snapshot.
  pub build_rows-IsRowOf :
      (rules : Option (List Rule)) (runtime : List RuleStatus) (snapshot : List (RuleStats N))
      (a : Text)
      → All (IsRowOf rules runtime snapshot) (build_rows rules runtime snapshot)
        × (In a (names (build_rows rules runtime snapshot))
            ↔ (In a (rule_names rules) ⊎ In a (entry_names snapshot)))
  unfolding build_rows
  build_rows-IsRowOf rules runtime snapshot a = (
    All-map (row_of rules runtime snapshot) (IsRowOf rules runtime snapshot)
        (row_of-IsRowOf rules runtime snapshot) (row_names rules snapshot),
    rw (names-build_rows rules runtime snapshot) (In-row_names_iff rules snapshot a),
  )

  -- While no two rules share a name, no two rows do, though the snapshot may repeat a name or hold
  -- one that is configured.
  names-build_rows-Distinct :
      (rules : Option (List Rule)) (runtime : List RuleStatus) (snapshot : List (RuleStats N))
      → Distinct (rule_names rules)
      → Distinct (names (build_rows rules runtime snapshot))
  names-build_rows-Distinct rules runtime snapshot d =
      rw (names-build_rows rules runtime snapshot) (
        Distinct-append (rule_names rules) (unique_from (rule_names rules) (entry_names snapshot)) d
          (unique_from-Distinct (rule_names rules) (entry_names snapshot))
          (λ a m. ((In-unique_from_iff a (rule_names rules) (entry_names snapshot)).0 m).1))
