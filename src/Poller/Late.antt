-- ===== src/Poller/Late.antt =====
-- Answers that come after the page was hidden or the last subscription released.
use jumpway.Prelude.{
  ℕ, ◌≤◌, ◌<◌, true, false, List, [], ◌∷◌, none, some, ◌≡◌, ◌⊎◌, inl, refl, arith,
}
use jumpway.Poller.{
  value, aborted, failed, Options, Poller, step, run, Event, subscribed, released, fired, shown,
  busied, answers, cleaned, rescheduled, refreshed,
}

-- What a later state `q` may show of the loads that were requested up to `r`: either what was shown
-- at `p`, or the answer to a load that was requested after them.
pub record ShowsLater {A E : Type 0} (r : ℕ) (p q : Poller A E) : Type 0 where
  pub owner_later : (n : ℕ) → q.controller ≡ some n → r < n
  pub grown : r ≤ q.requested
  pub kept :
      ((q.answered ≡ p.answered) × (q.data' ≡ p.data') × (q.delivered ≡ p.delivered))
      ⊎ (r < q.answered)

module _ {A E : Type 0} (o : Options) where
  step-owner :
      (e : Event A E) (r n : ℕ) (q : Poller A E)
      → ((n : ℕ) → q.controller ≡ some n → r < n)
      → r ≤ q.requested
      → (step o e q).controller ≡ some n
      → r < n
  unfolding step
  step-owner subscribed r n q w g h = ground (arith, w n)
  step-owner released r n q w g h = ground (arith, w n)
  step-owner fired r n q w g h = ground (arith, w n)
  step-owner (shown v) r n q w g h = ground (arith, w n)
  step-owner (busied b) r n q w g h = ground (arith, w n)
  step-owner (answers m (value x)) r n q w g h = ground (arith, w n)
  step-owner (answers m aborted) r n q w g h = ground (arith, w n)
  step-owner (answers m (failed x)) r n q w g h = ground (arith, w n)
  step-owner (cleaned m) r n q w g h = ground (arith, w n)
  step-owner (rescheduled m) r n q w g h = ground (arith, w n)
  step-owner (refreshed m) r n q w g h = ground (arith, w n)

  step-grown :
      (e : Event A E) (r : ℕ) (q : Poller A E) → r ≤ q.requested → r ≤ (step o e q).requested
  unfolding step
  step-grown subscribed r q g = ground arith
  step-grown released r q g = ground arith
  step-grown fired r q g = ground arith
  step-grown (shown v) r q g = ground arith
  step-grown (busied b) r q g = ground arith
  step-grown (answers m (value x)) r q g = ground arith
  step-grown (answers m aborted) r q g = ground arith
  step-grown (answers m (failed x)) r q g = ground arith
  step-grown (cleaned m) r q g = ground arith
  step-grown (rescheduled m) r q g = ground arith
  step-grown (refreshed m) r q g = ground arith

  step-kept :
      (e : Event A E) (r : ℕ) (p q : Poller A E)
      → ShowsLater r p q
      → (((step o e q).answered ≡ p.answered)
          × ((step o e q).data' ≡ p.data')
          × ((step o e q).delivered ≡ p.delivered))
        ⊎ (r < (step o e q).answered)
  unfolding step
  step-kept subscribed r p q s = ground arith
  step-kept released r p q s = ground arith
  step-kept fired r p q s = ground arith
  step-kept (shown v) r p q s = ground arith
  step-kept (busied b) r p q s = ground arith
  step-kept (answers m (value x)) r p q s = ground (arith, s.owner_later m)
  step-kept (answers m aborted) r p q s = ground arith
  step-kept (answers m (failed x)) r p q s = ground arith
  step-kept (cleaned m) r p q s = ground arith
  step-kept (rescheduled m) r p q s = ground arith
  step-kept (refreshed m) r p q s = ground arith

  step-ShowsLater :
      (e : Event A E) (r : ℕ) (p q : Poller A E) → ShowsLater r p q → ShowsLater r p (step o e q)
  step-ShowsLater e r p q s = record {
    owner_later = λ n h. step-owner e r n q s.owner_later s.grown h;
    grown = step-grown e r q s.grown;
    kept = step-kept e r p q s;
  }

  run-ShowsLater :
      (es : List (Event A E)) (r : ℕ) (p q : Poller A E)
      → ShowsLater r p q
      → ShowsLater r p (run o es q)
  run-ShowsLater [] r p q s = s
  run-ShowsLater (e ∷ es) r p q s = run-ShowsLater es r p (step o e q) (step-ShowsLater e r p q s)

-- The events that stop a poller: the page is hidden, or the last subscription released.
abbrev pub IsStop : {A E : Type 0} → Event A E → Poller A E → Type 0
IsStop (shown false) p = 0 < p.subscribers
IsStop released p = p.subscribers ≡ 1
IsStop _ p = ⊥

stop-controller :
    {A E : Type 0} (o : Options) (e : Event A E) (p : Poller A E)
    → IsStop e p
    → ((step o e p).controller ≡ none) × ((step o e p).requested ≡ p.requested)
unfolding step
stop-controller o subscribed p h = absurd h
stop-controller o released p h = (ground arith, ground arith)
stop-controller o fired p h = absurd h
stop-controller o (shown true) p h = absurd h
stop-controller o (shown false) p h = (ground arith, ground arith)
stop-controller o (busied b) p h = absurd h
stop-controller o (answers m x) p h = absurd h
stop-controller o (cleaned m) p h = absurd h
stop-controller o (rescheduled m) p h = absurd h
stop-controller o (refreshed m) p h = absurd h

-- After a stop no load that was requested before it is shown: whatever happens then, in whatever
-- order, the data, the number of its load and the calls of `onData` stay as they are, or the data is
-- the answer to a load that was requested after the stop.
pub stop-drops_late :
    {A E : Type 0} (o : Options) (stop : Event A E) (es : List (Event A E)) (p : Poller A E)
    → IsStop stop p
    → (((run o es (step o stop p)).answered ≡ (step o stop p).answered)
        × ((run o es (step o stop p)).data' ≡ (step o stop p).data')
        × ((run o es (step o stop p)).delivered ≡ (step o stop p).delivered))
      ⊎ (p.requested < (run o es (step o stop p)).answered)
stop-drops_late o stop es p h =
    let (idle, same) = stop-controller o stop p h in
    (run-ShowsLater o es p.requested (step o stop p) (step o stop p)
      (record { owner_later = λ n e. cc; grown = omega arith; kept = inl (refl, refl, refl) })).kept
