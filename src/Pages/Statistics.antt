-- ===== src/Pages/Statistics.antt =====
-- app/web/ui/src/routes/StatsRulesPage.svelte, the script: the rules with their traffic. A load has the number
-- of its AbortController; an element is a number, and the document's focus is one.
pub mod Rows
pub mod Loading
pub mod Shown
use jumpway.Prelude.{
  ℕ, suc, ◌+◌, Bool, true, false, not, ◌&&◌, List, [], ◌∷◌, ◌++◌, map, Option, none, some, is_some,
  get_or, list, Text, text_eq, trim, any, filter, find?, is_empty, length, ltb, nat_beq, sort_by,
  above, lookup, insert, if◌then◌else◌, ◌==◌,
}
use jumpway.Wire.{Rule, WayNode, WayHop, is_disabled}
use jumpway.Way.{normalize_way}
use jumpway.Endpoint.{listen_address, forward_target}
use jumpway.Stats.{Hop, UrlStats, RuleStats}
use jumpway.Status.{RuleStatus, RuleCardState, disabled, unknown, rule_state}
use jumpway.Search.{ListSort}
use jumpway.Sorting.{Comparisons}
use jumpway.StatsRows.{StatsRow, build_rows, filter_rows}
use jumpway.StatsRows.Sorting.{RuleSortKey, default_rule_sort, sort_rows}
use jumpway.Api.{ApiError, is_aborted, Result, ok, failed}
use jumpway.Pages.{owns}

-- The variables of the script. `loads` is the number of loads so far, and `mounted` whether the page is there.
pub record Statistics : Type 0 where
  pub rules : Option (List Rule)
  pub error : Option ApiError
  pub loading : Bool
  pub controller : Option ℕ
  pub loads : ℕ
  pub mounted : Bool
  pub query : Text
  pub sort : ListSort RuleSortKey
  pub expanded : List Text
  pub toggles : List (Text × ℕ)
  pub focus_pending : Option Text
  pub focus : Option ℕ

unfoldable pub load : Statistics → Statistics
load s = record s { controller = some s.loads; loads = suc s.loads; loading = true; error = none }

abbrev pub unopened : Option ℕ → Statistics
unopened focus = record {
  rules = none;
  error = none;
  loading = false;
  controller = none;
  loads = 0;
  mounted = true;
  query = [];
  sort = default_rule_sort;
  expanded = [];
  toggles = [];
  focus_pending = none;
  focus = focus;
}

-- `onMount`
unfoldable pub open_page : Option ℕ → Statistics
unfolding load
open_page focus = load (unopened focus)

abbrev pub adopt : Result (Option (List Rule)) → Statistics → Statistics
adopt (ok value) s = record s { rules = some (list value) }
adopt (failed reason) s = if is_aborted reason then s else record s { error = some reason }

-- What follows the answer to a load.
unfoldable pub answered : ℕ → Result (Option (List Rule)) → Statistics → Statistics
answered own result s = if owns s.controller own then adopt result s else s

-- `finally`
unfoldable pub ended : ℕ → Statistics → Statistics
ended own s = if owns s.controller own then record s { controller = none; loading = false } else s

unfoldable pub leave : Statistics → Statistics
leave s = record s { controller = none; mounted = false }

-- `set.add` and `set.delete`
abbrev pub with_name : Text → List Text → List Text
with_name name names = if any (λ n. n == name) names then names else names ++ name ∷ []

abbrev pub without_name : Text → List Text → List Text
without_name name names = filter (λ n. not (n == name)) names

unfoldable pub toggle_row : Text → Statistics → Statistics
toggle_row name s = record s {
  expanded =
      if any (λ n. n == name) s.expanded
      then without_name name s.expanded
      else with_name name s.expanded;
}

-- The effect on `?rule=`.
unfoldable pub route_rule : Text → Statistics → Statistics
route_rule name s =
    if is_empty name
    then s
    else record s { expanded = with_name name s.expanded; focus_pending = some name }

abbrev pub focused : Option ℕ → Statistics → Statistics
focused none s = s
focused (some toggle) s = record s { focus_pending = none; focus = some toggle }

abbrev pub pending_toggle : Option Text → List (Text × ℕ) → Option ℕ
pending_toggle none toggles = none
pending_toggle (some name) toggles = lookup name toggles

-- The effect on `focusPending`.
unfoldable pub focus_row : Statistics → Statistics
unfolding lookup
focus_row s = focused (pending_toggle s.focus_pending s.toggles) s

-- `bind:toggle` of a row that appears or goes.
unfoldable pub bind_toggle : Text → Option ℕ → Statistics → Statistics
unfolding insert
bind_toggle name none s = record s {
  toggles = filter (λ (t : Text × ℕ). not (t.0 == name)) s.toggles;
}
bind_toggle name (some node) s = record s { toggles = insert name node s.toggles }

pub data StatisticsEvent : Type 0 where
  retries leaves effects : StatisticsEvent
  answers : ℕ → Result (Option (List Rule)) → StatisticsEvent
  ends : ℕ → StatisticsEvent
  routes toggles_row types : Text → StatisticsEvent
  sorts : ListSort RuleSortKey → StatisticsEvent
  binds : Text → Option ℕ → StatisticsEvent

abbrev pub act : Bool → (Statistics → Statistics) → Statistics → Statistics
act false f s = s
act true f s = f s

-- What a page that is gone shows cannot be used; only answers still come.
abbrev pub step : StatisticsEvent → Statistics → Statistics
step retries s = act s.mounted load s
step leaves s = act s.mounted leave s
step effects s = act s.mounted focus_row s
step (answers own result) s = answered own result s
step (ends own) s = ended own s
step (routes name) s = act s.mounted (route_rule name) s
step (toggles_row name) s = act s.mounted (toggle_row name) s
step (types text) s = act s.mounted (λ t. record t { query = text }) s
step (sorts sort) s = act s.mounted (λ t. record t { sort = sort }) s
step (binds name node) s = act s.mounted (bind_toggle name node) s

abbrev pub run : List StatisticsEvent → Statistics → Statistics
run [] s = s
run (e ∷ es) s = run es (step e s)
