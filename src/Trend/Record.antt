-- ===== src/Trend/Record.antt =====
-- The series of the rules after a record.
use jumpway.Prelude.{
  ℕ, true, false, not, ◌&&◌, List, [], ◌∷◌, map, Option, none, Text, text_eq, list, ==_iff, lookup,
  insert, lookup-insert, if◌then◌else◌, ◌≡◌, ◌≢◌, ◌⊎◌, inl, inr, refl, sym, ◌∙◌, arith, NotIn,
}
use jumpway.Stats.{RuleStats, Snapshot}
use jumpway.Trend.{
  RateSample, trend_total, TrendState, empty_trend, Numbers, HostAggregate, Filled, fill_rules,
  is_early, restarts, no_rates, record_trend,
}

lookup-insert_ne :
    {V : Type 0} (k j : Text) (v : V) (m : List (Text × V))
    → k ≢ j
    → lookup j (insert k v m) ≡ lookup j m
lookup-insert_ne k j v m h = ground (arith, lookup-insert k j v m, ==_iff k j)

module _ (ns : Numbers) where
  open ns use {N}

  abbrev pub names : List (RuleStats N) → List Text
  names rules = map (λ (r : RuleStats N). r.name) rules

  fill_rules-absent :
      (previous : TrendState N) (rules : List (RuleStats N)) (f : Filled ns) (n : Text)
      → NotIn n (names rules)
      → lookup n (fill_rules ns previous rules f).series ≡ lookup n f.series
  unfolding fill_rules
  fill_rules-absent previous [] f n h = refl
  fill_rules-absent previous (r ∷ rules) f n h =
      fill_rules-absent previous rules _ n (λ m. h (inr m))
      ∙ lookup-insert_ne r.name n _ f.series (λ e. h (inl e))

  -- A snapshot is recorded unless it comes too early after the last one; a restart always is.
  abbrev pub IsRecorded : TrendState N → Snapshot N → ℕ → Type 0
  IsRecorded state snapshot now =
      (restarts ns state snapshot now ≡ true) ⊎ (is_early state.last_at now ≡ false)

  -- The samples that a series goes on from: none after a restart.
  abbrev pub earlier : TrendState N → Snapshot N → ℕ → Text → List (RateSample N)
  earlier state snapshot now name =
      if restarts ns state snapshot now then [] else list (lookup name state.series)

  module _ (aggregate : Option (List (RuleStats N)) → List (HostAggregate N)) (state : TrendState N)
      (snapshot : Snapshot N) (now : ℕ) (recorded : IsRecorded state snapshot now) where
    abbrev after : TrendState N
    after = record_trend ns aggregate state snapshot now

    abbrev previous : TrendState N
    previous = if restarts ns state snapshot now then empty_trend else state

    after-series :
        (name : Text)
        → name ≢ trend_total
        → lookup name after.series
          ≡ lookup name (fill_rules ns previous (list snapshot.rules) (no_rates ns)).series
    unfolding record_trend
    after-series name h =
        let b : (not (restarts ns state snapshot now) && is_early state.last_at now) ≡ false =
          ground arith in
        rw b (lookup-insert_ne trend_total name _ _ (λ e. h (sym e)))

-- After a record a rule that the snapshot does not name has no series left.
record_trend-absent :
    (ns : Numbers) (aggregate : Option (List (RuleStats ns.N)) → List (HostAggregate ns.N))
    (state : TrendState ns.N) (snapshot : Snapshot ns.N) (now : ℕ) (name : Text)
    → IsRecorded ns state snapshot now
    → NotIn name (names ns (list snapshot.rules))
    → name ≢ trend_total
    → lookup name (record_trend ns aggregate state snapshot now).series ≡ none
unfolding lookup
record_trend-absent ns aggregate state snapshot now name rec m h =
    after-series ns aggregate state snapshot now rec name h
    ∙ fill_rules-absent ns _ (list snapshot.rules) (no_rates ns) name m

-- A snapshot that comes too early changes nothing, unless it restarts the series.
record_trend-early :
    (ns : Numbers) (aggregate : Option (List (RuleStats ns.N)) → List (HostAggregate ns.N))
    (state : TrendState ns.N) (snapshot : Snapshot ns.N) (now : ℕ)
    → restarts ns state snapshot now ≡ false
    → is_early state.last_at now ≡ true
    → record_trend ns aggregate state snapshot now ≡ state
unfolding record_trend
record_trend-early ns aggregate state snapshot now on early = rw (on, early)
