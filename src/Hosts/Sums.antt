-- ===== src/Hosts/Sums.antt =====
-- app/web/ui/src/lib/hosts.ts: the sum of statistics.
use jumpway.Prelude.{
  ℕ, zero, suc, max, Bool, true, false, ◌||◌, List, [], ◌∷◌, Option, none, some, get_or, Text,
  is_empty, ltb, leb, nat_beq, find?, if◌then◌else◌,
}
use jumpway.Stats.{Stats}
use jumpway.Sorting.{Comparisons}

-- `stats`, `weightedLatency` and `latest`, which is one more than an instant, or 0 for minus infinity.
pub record Sum (N : Type 0) : Type 0 where
  pub stats : Stats N
  pub weighted : N
  pub latest : ℕ

module _ {N : Type 0} (c : Comparisons N) where
  abbrev pub no_stats : Stats N
  no_stats = record {
    up = c.zero;
    down = c.zero;
    rate_up = c.zero;
    rate_down = c.zero;
    peak_rate_up = c.zero;
    peak_rate_down = c.zero;
    active = c.zero;
    total = c.zero;
    dials = c.zero;
    dial_failures = c.zero;
    latency_ms = c.zero;
    avg_latency_ms = c.zero;
    last_active = none;
    last_up = none;
    last_down = none;
  }

  abbrev pub no_sum : Sum N
  no_sum = record { stats = no_stats; weighted = c.zero; latest = 0 }

  -- An instant that cannot be read is later than none.
  abbrev pub stamp : Option Text → ℕ
  stamp value = elim (c.parse (get_or value [])) [ none ↦ zero | some at ↦ suc at ]

  abbrev is_blank : Option Text → Bool
  is_blank none = true
  is_blank (some s) = is_empty s

  -- Whether the instant of `value` takes the place of `current`.
  abbrev is_newer : Option Text → Option Text → Bool
  is_newer value current = elim (c.parse (get_or value [])) [
    | none ↦ false
    | some at ↦
        is_blank current
        || elim (c.parse (get_or current [])) [ none ↦ false | some before ↦ ltb before at ]
  ]

  abbrev newer : Option Text → Option Text → Option Text
  newer value current = if is_newer value current then value else current

  -- `stats[key] += Number(entry[key]) || 0`
  abbrev plus : N → N → N
  plus total value = c.add total (c.or_zero value)

  -- `Math.max(0, x)`
  abbrev at_least_zero : N → N
  at_least_zero x = if c.exceeds x c.zero then x else c.zero

  -- One round of the loop.
  abbrev pub add_sample : Stats N → Sum N → Sum N
  add_sample e s =
      let latest = ltb s.latest (stamp e.last_active) in
      record {
        stats = record {
          up = plus s.stats.up e.up;
          down = plus s.stats.down e.down;
          rate_up = plus s.stats.rate_up e.rate_up;
          rate_down = plus s.stats.rate_down e.rate_down;
          active = plus s.stats.active e.active;
          total = plus s.stats.total e.total;
          dials = plus s.stats.dials e.dials;
          dial_failures = plus s.stats.dial_failures e.dial_failures;
          peak_rate_up = plus s.stats.peak_rate_up e.peak_rate_up;
          peak_rate_down = plus s.stats.peak_rate_down e.peak_rate_down;
          last_up = newer e.last_up s.stats.last_up;
          last_down = newer e.last_down s.stats.last_down;
          last_active = if latest then e.last_active else s.stats.last_active;
          latency_ms = if latest then c.or_zero e.latency_ms else s.stats.latency_ms;
          avg_latency_ms = s.stats.avg_latency_ms;
        };
        weighted = c.add s.weighted (
            c.times (at_least_zero (c.subtract (c.or_zero e.dials) (c.or_zero e.dial_failures)))
              (c.or_zero e.avg_latency_ms));
        latest = if latest then stamp e.last_active else s.latest;
      }

  unfoldable pub sum_from : Sum N → List (Stats N) → Sum N
  sum_from s [] = s
  sum_from s (e ∷ es) = sum_from (add_sample e s) es

  abbrev averaged : Sum N → Stats N
  averaged s =
      let successes = c.subtract s.stats.dials s.stats.dial_failures in
      record s.stats {
        avg_latency_ms =
            if c.exceeds successes c.zero then c.divide s.weighted successes else c.zero;
      }

  unfoldable pub sum_stats : List (Stats N) → Stats N
  unfolding sum_from
  sum_stats entries = averaged (sum_from no_sum entries)

  -- The latest stamp of all.
  abbrev pub newest_stamp : List (Stats N) → ℕ
  newest_stamp [] = zero
  newest_stamp (e ∷ es) = max (stamp e.last_active) (newest_stamp es)

  -- What an entry tells of the last activity: its time, and how long its dial took.
  abbrev pub activity : Option (Stats N) → Option Text × N
  activity none = (none, c.zero)
  activity (some e) = (e.last_active, c.or_zero e.latency_ms)

  abbrev pub newest : List (Stats N) → Option (Stats N)
  newest es =
      let at = newest_stamp es in
      if nat_beq at 0 then none else find? (λ e. nat_beq (stamp e.last_active) at) es

  -- The newest of the rest, unless nothing of it is later than what was found before.
  abbrev after : Sum N → List (Stats N) → Option Text × N
  after s es =
      let at = newest_stamp es in
      if leb at s.latest
      then (s.stats.last_active, s.stats.latency_ms)
      else activity (find? (λ e. nat_beq (stamp e.last_active) at) es)
