-- ===== src/Pages/Statistics/Rows.antt =====
-- app/web/ui/src/routes/StatsRulesPage.svelte, the script: what the page shows of the rules.
use jumpway.Prelude.{
  ℕ, Bool, true, false, not, List, [], ◌∷◌, map, Option, none, some, is_some, get_or, list, Text,
  text_eq, trim, find?, is_empty, length, ltb, nat_beq, sort_by, above, if◌then◌else◌,
}
use jumpway.Wire.{Rule, WayNode, WayHop, is_disabled}
use jumpway.Way.{normalize_way}
use jumpway.Endpoint.{listen_address, forward_target}
use jumpway.Stats.{Hop, UrlStats, RuleStats}
use jumpway.Status.{RuleStatus, RuleCardState, disabled, unknown, rule_state}
use jumpway.Sorting.{Comparisons}
use jumpway.StatsRows.{StatsRow, build_rows, filter_rows}
use jumpway.StatsRows.Sorting.{sort_rows}
use jumpway.Pages.Statistics.{Statistics}

abbrev pub ready : Bool → Statistics → Bool
ready has_stats s = if is_some s.rules then true else has_stats

abbrev pub filtering : Statistics → Bool
filtering s = not (is_empty (trim s.query))

abbrev configured_target : Option Rule → Text
configured_target none = []
configured_target (some rule) = forward_target rule

abbrev runtime_chip : Option RuleStatus → RuleCardState
runtime_chip none = unknown
runtime_chip (some runtime) = rule_state runtime

abbrev is_disabled_row : Option Rule → Bool
is_disabled_row none = false
is_disabled_row (some rule) = is_disabled rule

module _ {N : Type 0} where
  abbrev pub rows :
      Option (List RuleStatus) → Option (List (RuleStats N)) → Statistics → List (StatsRow N)
  rows runtime snapshot s = build_rows s.rules (list runtime) (list snapshot)

  -- `row.runtime?.address ?? (row.rule ? listenAddress(row.rule) : '')`
  unfoldable pub address_of : StatsRow N → Text
  address_of row = elim row.runtime [
    | some runtime ↦ runtime.address
    | none ↦ elim row.rule [ none ↦ [] | some rule ↦ listen_address rule ]
  ]

  unfoldable pub target_of : StatsRow N → Text
  target_of row = elim row.runtime [
    | some runtime ↦ get_or runtime.target (configured_target row.rule)
    | none ↦ configured_target row.rule
  ]

  unfoldable pub remote_of : StatsRow N → Bool
  remote_of row = elim row.runtime [
    | some runtime ↦ runtime.remote
    | none ↦ elim row.rule [
      | none ↦ false
      | some rule ↦ ltb 0 (length (normalize_way rule.listen.way))
    ]
  ]

  -- The state that the chip of a row shows.
  unfoldable pub chip : StatsRow N → RuleCardState
  chip row = if is_disabled_row row.rule then disabled else runtime_chip row.runtime

  module _ (c : Comparisons N) (lower : Text → Text) where
    unfoldable pub filtered :
        Option (List RuleStatus) → Option (List (RuleStats N)) → Statistics → List (StatsRow N)
    unfolding build_rows filter_rows
    filtered runtime snapshot s =
        filter_rows lower (rows runtime snapshot s) s.query address_of target_of

    unfoldable pub shown :
        Option (List RuleStatus) → Option (List (RuleStats N)) → Statistics → List (StatsRow N)
    unfolding filtered sort_rows
    shown runtime snapshot s = sort_rows c (filtered runtime snapshot s) s.sort

  abbrev hop_urls : List (UrlStats N) → List Text
  hop_urls [] = []
  hop_urls (entry ∷ entries) = entry.url ∷ hop_urls entries

  abbrev hop_behind : Hop N → Hop N → Bool
  hop_behind left right = above left.index right.index

  -- Hops that were seen count more than the configured way.
  unfoldable pub way_of : Option (List (Hop N)) → Option (List WayNode) → List WayHop
  unfolding normalize_way
  way_of hops configured =
      if is_empty (list hops)
      then normalize_way configured
      else map (λ (h : Hop N). record { lb = hop_urls (list h.urls) })
          (sort_by hop_behind (list hops))

  -- The hop of a stage, where `hops` are those of the stage's role.
  unfoldable pub hop_of : Option (List (Hop N)) → ℕ → Option (Hop N)
  hop_of hops index = find? (λ (h : Hop N). nat_beq h.index index) (list hops)
