-- ===== src/Pages/Statistics/Shown.antt =====
-- Which rows the page of the rules' traffic shows, and how a rule that its address names gets the focus.
use jumpway.Prelude.{
  true, List, [], ◌∷◌, Option, some, Text, text_eq, ◌≡◌, ◌↔◌, ◌⊎◌, inl, inr, In, In-filter_iff,
  In-sort_by_iff,
}
use jumpway.Stats.{RuleStats}
use jumpway.Status.{RuleStatus}
use jumpway.Search.{fuzzy_match, SortDirection, ascending, descending}
use jumpway.Sorting.{Comparisons}
use jumpway.StatsRows.{StatsRow, filter_rows}
use jumpway.StatsRows.Sorting.{
  RuleSortKey, configured, name, active, dial_failures, traffic, sort_rows, reverse_onto, reverse,
}
use jumpway.Pages.Statistics.{Statistics}
use jumpway.Pages.Statistics.Rows.{rows, address_of, target_of, filtered, shown}

module _ {A : Type 0} where
  In-reverse_onto_iff :
      (a : A) (acc xs : List A) → In a (reverse_onto acc xs) ↔ (In a acc ⊎ In a xs)
  In-reverse_onto_iff a acc [] = (inl, λ m. elim m [ inl k ↦ k | inr k ↦ absurd k ])
  In-reverse_onto_iff a acc (x ∷ xs) =
      let (to, from) = In-reverse_onto_iff a (x ∷ acc) xs in
      (
        λ m. elim (to m) [ inl (inl e) ↦ inr (inl e) | inl (inr k) ↦ inl k | inr k ↦ inr (inr k) ],
        λ m.
            from (elim m [ inl k ↦ inl (inr k) | inr (inl e) ↦ inl (inl e) | inr (inr k) ↦ inr k ]),
      )

module _ {N : Type 0} (c : Comparisons N) where
  In-sort_rows_iff :
      (row : StatsRow N) (rows : List (StatsRow N)) (key : RuleSortKey) (direction : SortDirection)
      → In row (sort_rows c rows (record { key = key; direction = direction })) ↔ In row rows
  unfolding sort_rows reverse
  In-sort_rows_iff row rows configured ascending = (λ m. m, λ m. m)
  In-sort_rows_iff row rows configured descending =
      let (to, from) = In-reverse_onto_iff row [] rows in
      (λ m. elim (to m) [ inl k ↦ absurd k | inr k ↦ k ], λ m. from (inr m))
  In-sort_rows_iff row rows name direction = In-sort_by_iff _ row rows
  In-sort_rows_iff row rows active direction = In-sort_by_iff _ row rows
  In-sort_rows_iff row rows dial_failures direction = In-sort_by_iff _ row rows
  In-sort_rows_iff row rows (traffic key) direction = In-sort_by_iff _ row rows

  -- A row is shown exactly when it is one of the rows of the rules, the runtime and the snapshot, and the
  -- search finds its name, its address or its target, however the rows are sorted.
  pub shown_iff :
      (lower : Text → Text) (runtime : Option (List RuleStatus))
      (snapshot : Option (List (RuleStats N))) (s : Statistics) (row : StatsRow N)
      → In row (shown c lower runtime snapshot s) ↔ (
          In row (rows runtime snapshot s)
          × (fuzzy_match lower s.query
                (some row.name ∷ some (address_of row) ∷ some (target_of row) ∷ [])
              ≡ true))
  unfolding shown filtered filter_rows
  shown_iff lower runtime snapshot s row =
      let (to, from) =
        In-sort_rows_iff row (filtered c lower runtime snapshot s) s.sort.key s.sort.direction in
      let (in_rows, found) = In-filter_iff _ row (rows runtime snapshot s) in
      (λ m. in_rows (to m), λ m. from (found m))
