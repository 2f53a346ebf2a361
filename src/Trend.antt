-- ===== src/Trend.antt =====
-- app/web/ui/src/lib/trend.ts: the recent rates of every rule, host and connection. The number type
-- is a parameter, and so is `aggregateHosts` of hosts.ts, of which only the shape of the result is
-- used.
pub mod Window
pub mod Record
use jumpway.Prelude.{
  ℕ, ◌+◌, ◌-◌, Bool, true, false, not, ◌&&◌, ◌||◌, List, [], ◌∷◌, ◌++◌, Option, none, some, Text,
  text_eq, nat_eq, length, drop, list, ltb, ◌==◌, lookup, insert, if◌then◌else◌,
}
use jumpway.Stats.{Stats, Connection, RuleStats, Snapshot}

pub record RateSample (N : Type 0) : Type 0 where
  pub up : N
  pub down : N

abbrev pub trend_samples : ℕ
trend_samples = 60

abbrev pub trend_gap_ms : ℕ
trend_gap_ms = 10_000

abbrev pub trend_min_step_ms : ℕ
trend_min_step_ms = 500

abbrev pub trend_total : Text
trend_total = []

pub record HostTrend (N : Type 0) : Type 0 where
  pub samples : List (RateSample N)
  pub endpoints : List (Text × List (RateSample N))

pub record TrendState (N : Type 0) : Type 0 where
  pub since : Option Text
  pub last_at : Option ℕ
  pub series : List (Text × List (RateSample N))
  pub hosts : List (Text × HostTrend N)
  pub connections : List (ℕ × List (RateSample N))

abbrev pub empty_trend : {N : Type 0} → TrendState N
empty_trend = record { since = none; last_at = none; series = []; hosts = []; connections = [] }

-- JavaScript's numbers, as far as they are used here: a sum, zero, and `finite`.
pub record Numbers : Type 1 where
  pub N : Type 0
  pub zero : N
  pub add : N → N → N
  pub is_finite : N → Bool

pub record HostEndpoint (N : Type 0) : Type 0 where
  pub endpoint : Text
  pub stats : Stats N

pub record HostAggregate (N : Type 0) : Type 0 where
  pub host : Text
  pub stats : Stats N
  pub endpoints : List (HostEndpoint N)

unfoldable pub append : {A : Type 0} → Option (List A) → A → List A
append samples next =
    let all = list samples ++ next ∷ [] in
    if ltb trend_samples (length all) then drop (length all - trend_samples) all else all

-- `elapsed > TREND_GAP_MS`, where `elapsed` is infinite before the first record
abbrev is_gap : Option ℕ → ℕ → Bool
is_gap none now = true
is_gap (some last) now = ltb (last + trend_gap_ms) now

-- `elapsed < TREND_MIN_STEP_MS`
abbrev pub is_early : Option ℕ → ℕ → Bool
is_early none now = false
is_early (some last) now = ltb now (last + trend_min_step_ms)

abbrev is_since : Option Text → Text → Bool
is_since none s = false
is_since (some s') s = s' == s

module _ (ns : Numbers) where
  open ns use {N, add, is_finite}

  abbrev finite : N → N
  finite v = if is_finite v then v else ns.zero

  unfoldable pub sample : Stats N → RateSample N
  sample s = record { up = finite s.rate_up; down = finite s.rate_down }

  -- The three maps and the total that the loops fill.
  pub record Filled : Type 0 where
    pub series : List (Text × List (RateSample N))
    pub connections : List (ℕ × List (RateSample N))
    pub total : RateSample N

  fill_connections :
      TrendState N
      → List (Connection N)
      → List (ℕ × List (RateSample N))
      → List (ℕ × List (RateSample N))
  fill_connections previous [] m = m
  fill_connections previous (c ∷ cs) m =
      fill_connections previous cs
        (insert c.id (append (lookup c.id previous.connections) (sample c.stats)) m)

  fill_rules : TrendState N → List (RuleStats N) → Filled → Filled
  unfolding fill_connections
  fill_rules previous [] f = f
  fill_rules previous (r ∷ rules) f =
      let current = sample r.stats in
      fill_rules previous rules (record {
        series = insert r.name (append (lookup r.name previous.series) current) f.series;
        connections = fill_connections previous (list r.connections) f.connections;
        total = record { up = add f.total.up current.up; down = add f.total.down current.down };
      })

  fill_endpoints :
      Option (HostTrend N)
      → List (HostEndpoint N)
      → List (Text × List (RateSample N))
      → List (Text × List (RateSample N))
  fill_endpoints before [] m = m
  fill_endpoints before (h ∷ es) m =
      let old : Option (List (RateSample N)) = elim before [
        | none ↦ none
        | some b ↦ lookup h.endpoint b.endpoints
      ] in
      fill_endpoints before es (insert h.endpoint (append old (sample h.stats)) m)

  fill_hosts :
      TrendState N → List (HostAggregate N) → List (Text × HostTrend N) → List (Text × HostTrend N)
  unfolding fill_endpoints
  fill_hosts previous [] m = m
  fill_hosts previous (h ∷ hs) m =
      let before = lookup h.host previous.hosts in
      let old : Option (List (RateSample N)) = elim before [
        | none ↦ none
        | some b ↦ some b.samples
      ] in
      fill_hosts previous hs (
        insert h.host
          (record {
            samples = append old (sample h.stats);
            endpoints = fill_endpoints before h.endpoints [];
          })
          m)

  abbrev pub restarts : TrendState N → Snapshot N → ℕ → Bool
  restarts state snapshot now =
      not (is_since state.since snapshot.since) || is_gap state.last_at now

  abbrev no_rates : Filled
  no_rates = record {
    series = [];
    connections = [];
    total = record { up = ns.zero; down = ns.zero };
  }

  unfoldable pub record_trend :
      (Option (List (RuleStats N)) → List (HostAggregate N))
      → TrendState N
      → Snapshot N
      → ℕ
      → TrendState N
  unfolding fill_rules fill_hosts
  record_trend aggregate state snapshot now =
      if not (restarts state snapshot now) && is_early state.last_at now
      then state
      else (let previous = if restarts state snapshot now then empty_trend else state in
          let filled = fill_rules previous (list snapshot.rules) no_rates in
          record {
            since = some snapshot.since;
            last_at = some now;
            series =
                insert trend_total (append (lookup trend_total previous.series) filled.total)
                  filled.series;
            hosts = fill_hosts previous (aggregate snapshot.rules) [];
            connections = filled.connections;
          })
