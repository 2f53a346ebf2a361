-- ===== src/Pages/Overview/Summary.antt =====
-- app/web/ui/src/routes/OverviewPage.svelte: the counts that the page shows above its list.
use jumpway.Prelude.{
  ℕ, ◌+◌, List, [], ◌∷◌, map, Option, none, some, list, Text, text_eq, find?, length, ltb, ◌==◌,
  if◌then◌else◌, ◌≡◌, arith,
}
use jumpway.Wire.{Rule}
use jumpway.Stats.{Stats, RuleStats}
use jumpway.Status.{
  RuleStatus, RuleCardState, running, stopped, retrying, unknown, disabled, RuleStateCounts,
  count_rule_states,
}
use jumpway.Status.Counts.{tally, count_rule_states-total}
use jumpway.Hosts.Sums.{sum_stats}
use jumpway.Sorting.{Comparisons}

-- `counts[state]`
abbrev pub count_of : RuleStateCounts → RuleCardState → ℕ
count_of counts running = counts.running
count_of counts stopped = counts.stopped
count_of counts retrying = counts.retrying
count_of counts unknown = counts.unknown
count_of counts disabled = counts.disabled

abbrev pub state_segments : List RuleCardState
state_segments = stopped ∷ retrying ∷ unknown ∷ disabled ∷ []

-- The states beside `running` that some rule is in, with how many are.
abbrev segments_of : RuleStateCounts → List RuleCardState → List (RuleCardState × ℕ)
segments_of counts [] = []
segments_of counts (state ∷ states) =
    let rest = segments_of counts states in
    if ltb 0 (count_of counts state) then (state, count_of counts state) ∷ rest else rest

unfoldable pub segments : Option (List Rule) → Option (List RuleStatus) → List (RuleCardState × ℕ)
unfolding count_rule_states
segments rules runtime = segments_of (count_rule_states rules runtime) state_segments

unfoldable pub runtime_of : Option (List RuleStatus) → Text → Option RuleStatus
runtime_of runtime name = find? (λ (s : RuleStatus). s.name == name) (list runtime)

module _ {N : Type 0} (c : Comparisons N) where
  -- The sum of all rules of a snapshot, if there is one.
  unfoldable pub totals : Option (Option (List (RuleStats N))) → Option (Stats N)
  unfolding sum_stats
  totals none = none
  totals (some rules) = some (sum_stats c (map (λ (r : RuleStats N). r.stats) (list rules)))

module _ {N : Type 0} where
  unfoldable pub stats_of : Option (List (RuleStats N)) → Text → Option (Stats N)
  stats_of rules name = elim (find? (λ (r : RuleStats N). r.name == name) (list rules)) [
    | none ↦ none
    | some r ↦ some r.stats
  ]

abbrev pub sum_of : List (RuleCardState × ℕ) → ℕ
sum_of [] = 0
sum_of (segment ∷ segments) = segment.1 + sum_of segments

segments-tally :
    (counts : RuleStateCounts)
    → counts.running + sum_of (segments_of counts state_segments) ≡ tally counts
segments-tally counts = ground arith

-- The running rules and the counts of the segments that are shown make up all configured rules.
segments-total :
    (rules : List Rule) (runtime : Option (List RuleStatus))
    → (count_rule_states (some rules) runtime).running + sum_of (segments (some rules) runtime)
      ≡ length rules
unfolding segments
segments-total rules runtime = omega (
  arith,
  segments-tally (count_rule_states (some rules) runtime),
  (count_rule_states-total rules runtime).2,
)
