-- ===== src/StatsRows.antt =====
-- app/web/ui/src/lib/statsRows.ts: the rows of the statistics page.
-- `Date.parse` is a parameter: it counts milliseconds from the first instant that a `Date` can hold,
-- since only the order of instants is used.
pub mod Ordered
pub mod Rows
pub mod Targets
pub mod Sorting
use jumpway.Prelude.{
  ℕ, zero, suc, Bool, filter, take, length, get_or, sort_descending, List, [], ◌∷◌, ◌++◌, map,
  Option, none, some, Text, text_eq, lookup, insert, is_some, list, unique_from, if◌then◌else◌,
}
use jumpway.Wire.{Rule}
use jumpway.Search.{fuzzy_match}
use jumpway.Stats.{Stats, Target, RuleStats}
use jumpway.Status.{RuleStatus}

pub record StatsRow (N : Type 0) : Type 0 where
  pub name : Text
  pub rule : Option Rule
  pub runtime : Option RuleStatus
  pub entry : Option (RuleStats N)

-- The loop of `byName`, over anything with a name: the first entry of a name stays.
module _ {T : Type 0} (name : T → Text) where
  by_name_from : List (Text × T) → List T → List (Text × T)
  by_name_from m [] = m
  by_name_from m (x ∷ xs) =
      by_name_from (if is_some (lookup (name x) m) then m else insert (name x) x m) xs

  unfoldable pub by_name : List T → List (Text × T)
  unfolding by_name_from
  by_name xs = by_name_from [] xs

module _ {N : Type 0} where
  -- The names of the rows: the loop over the snapshot adds those that are not seen yet.
  abbrev pub row_names : Option (List Rule) → List (RuleStats N) → List Text
  row_names rules snapshot =
      let names = map (λ (r : Rule). r.name) (list rules) in
      names ++ unique_from names (map (λ (e : RuleStats N). e.name) snapshot)

  unfoldable pub row_of :
      Option (List Rule) → List RuleStatus → List (RuleStats N) → Text → StatsRow N
  unfolding by_name
  row_of rules runtime snapshot name = record {
    name = name;
    rule = lookup name (by_name (λ (r : Rule). r.name) (list rules));
    runtime = lookup name (by_name (λ (s : RuleStatus). s.name) runtime);
    entry = lookup name (by_name (λ (e : RuleStats N). e.name) snapshot);
  }

  unfoldable pub build_rows :
      Option (List Rule) → List RuleStatus → List (RuleStats N) → List (StatsRow N)
  unfolding row_of
  build_rows rules runtime snapshot = map (row_of rules runtime snapshot) (row_names rules snapshot)

  -- `activeAt`, with zero for minus infinity
  abbrev pub active_at : (Text → Option ℕ) → Target N → ℕ
  active_at parse target = elim (parse (get_or target.stats.last_active [])) [
    | none ↦ zero
    | some at ↦ suc at
  ]

  -- The targets that are shown, and how many there are.
  unfoldable pub visible_targets :
      (Text → Option ℕ) → Option (List (Target N)) → ℕ → List (Target N) × ℕ
  unfolding sort_descending
  visible_targets parse targets limit =
      let all = list targets in (take limit (sort_descending (active_at parse) all), length all)

  unfoldable pub filter_rows :
      (Text → Text)
      → List (StatsRow N)
      → Text
      → (StatsRow N → Text)
      → (StatsRow N → Text)
      → List (StatsRow N)
  unfolding fuzzy_match
  filter_rows lower rows query address_of target_of =
      filter
        (λ (row : StatsRow N).
          fuzzy_match lower query
            (some row.name ∷ some (address_of row) ∷ some (target_of row) ∷ []))
        rows
