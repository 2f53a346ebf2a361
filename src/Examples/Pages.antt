-- ===== src/Examples/Pages.antt =====
-- The lists and counts of the pages, at concrete rules.
use jumpway.Prelude.{
  ℕ, ◌+◌, true, false, List, [], ◌∷◌, Option, none, some, text_eq, codes, All, In, ◌↔◌, ◌⊎◌,
}
use jumpway.Wire.{WayHop}
use jumpway.Way.{hop}
use jumpway.Status.{RuleStatus}
use jumpway.Stats.{Stats, RuleStats, Snapshot}
use jumpway.StatsRows.{build_rows}
use jumpway.StatsRows.Rows.{names, rule_names, entry_names, IsRowOf, build_rows-IsRowOf}
use jumpway.Trend.{Numbers, HostAggregate, TrendState, empty_trend}
use jumpway.Examples.Data.{rules}

abbrev lab_hops : List WayHop
lab_hops = hop (codes " ssh://a " ∷ [] ∷ []) ∷ hop ([] ∷ []) ∷ []

abbrev port : ℕ
port = 80

abbrev runtime : List RuleStatus
runtime =
    (record {
      name = codes "web";
      address = codes "127.0.0.1:8080";
      target = none;
      remote = false;
      running = true;
      attempt = none;
      error = none;
    })
    ∷ []

abbrev pub idle : Stats ℕ
idle = record {
  up = 0;
  down = 0;
  rate_up = 5;
  rate_down = 7;
  peak_rate_up = 5;
  peak_rate_down = 7;
  active = 1;
  total = 1;
  dials = 1;
  dial_failures = 0;
  latency_ms = 3;
  avg_latency_ms = 3;
  last_active = none;
  last_up = none;
  last_down = none;
}

abbrev pub web_stats : RuleStats ℕ
web_stats = record {
  name = codes "web";
  stats = idle;
  listen = none;
  forward = none;
  targets = none;
  connections = none;
  targets_evicted = 0;
}

abbrev gone_stats : RuleStats ℕ
gone_stats = record web_stats { name = codes "gone" }

abbrev entries : List (RuleStats ℕ)
entries = web_stats ∷ gone_stats ∷ gone_stats ∷ []

build_rows-IsRowOf_example :
    All (IsRowOf (some rules) runtime entries) (build_rows (some rules) runtime entries)
    × (In (codes "gone") (names (build_rows (some rules) runtime entries))
        ↔ (In (codes "gone") (rule_names (some rules)) ⊎ In (codes "gone") (entry_names entries)))
build_rows-IsRowOf_example = build_rows-IsRowOf (some rules) runtime entries (codes "gone")

abbrev naturals : Numbers
naturals = record { N = ℕ; zero = 0; add = λ a b. a + b; is_finite = λ n. true }

abbrev no_hosts : Option (List (RuleStats ℕ)) → List (HostAggregate ℕ)
no_hosts _ = []

abbrev snapshot : Snapshot ℕ
snapshot = record { since = codes "today"; rules = some (web_stats ∷ []) }

abbrev recorded : TrendState ℕ
recorded = record (empty_trend {N = ℕ}) { since = some (codes "today"); last_at = some 1000 }
