-- ===== src/Poller/Progress.antt =====
-- A poller that is wanted goes on loading.
use jumpway.Prelude.{
  ℕ, suc, ◌≤◌, ◌<◌, Bool, true, false, List, [], ◌∷◌, none, some, is_some, All, length, ◌≡◌, ◌≢◌,
  ◌⊎◌, inl, inr, refl, sym, ◌∙◌, arith, Option-cases,
}
use jumpway.Poller.{
  Load, absent, running, settled, closing, Outcome, value, aborted, failed, Options, Poller, create,
  step, run, Event, fired, answers, cleaned, rescheduled,
}
use jumpway.Poller.Invariant.{IsValid, run-IsValid}

-- The events that come by themselves: a timeout, the answer to a load, and the callbacks behind it. Every
-- answer is `outcome`.
abbrev pub IsAutomatic : {A E : Type 0} → Outcome A E → Event A E → Type 0
IsAutomatic outcome fired = Unit
IsAutomatic outcome (answers n other) = other ≡ outcome
IsAutomatic outcome (cleaned n) = Unit
IsAutomatic outcome (rescheduled n) = Unit
IsAutomatic outcome _ = ⊥

abbrev pub IsWanted : {A E : Type 0} → Poller A E → Type 0
IsWanted p = (0 < p.subscribers) × (p.visible ≡ true) × (p.busy ≡ false)

-- At most `bound` automatic events start the next load.
pub record Loads {A E : Type 0} (o : Options) (outcome : Outcome A E) (bound : ℕ) (p : Poller A E)
    : Type 0 where
  pub events : List (Event A E)
  pub automatic : All (IsAutomatic outcome) events
  pub short : length events ≤ bound
  pub next : (run o events p).requested ≡ suc p.requested

module _ {A E : Type 0} (o : Options) (outcome : Outcome A E) where
  -- One event that starts no load, before events that do.
  after :
      (e : Event A E) (bound : ℕ) (p : Poller A E)
      → IsAutomatic outcome e
      → (step o e p).requested ≡ p.requested
      → Loads o outcome bound (step o e p)
      → Loads o outcome (suc bound) p
  after e bound p a same l = record {
    events = e ∷ l.events;
    automatic = (a, l.automatic);
    short = omega (arith, l.short);
    next = l.next ∙ ground arith;
  }

  timed-Loads :
      (p : Poller A E)
      → IsWanted p
      → p.in_flight ≡ none
      → is_some p.timer ≡ true
      → Loads o outcome 1 p
  unfolding step
  timed-Loads p w idle due = record {
    events = fired ∷ [];
    automatic = (tt, tt);
    short = omega arith;
    next = ground arith;
  }

  closing-Loads :
      (n : ℕ) (p : Poller A E)
      → IsWanted p
      → p.in_flight ≡ none
      → p.loads n ≡ closing
      → Loads o outcome 2 p
  unfolding step
  closing-Loads n p w idle last =
      after (rescheduled n) 1 p tt (ground arith)
        (timed-Loads (step o (rescheduled n) p) (ground arith) (ground arith) (ground arith))

  -- The load is the one in flight, or none is.
  abbrev Owns : ℕ → Poller A E → Type 0
  Owns n p = (p.controller ≡ p.in_flight) × ((p.in_flight ≡ none) ⊎ (p.in_flight ≡ some n))

  settled-Loads :
      (n : ℕ) (p : Poller A E) → IsWanted p → Owns n p → p.loads n ≡ settled → Loads o outcome 3 p
  unfolding step
  settled-Loads n p w own done =
      after (cleaned n) 2 p tt (ground arith)
        (closing-Loads n (step o (cleaned n) p) (ground arith) (ground arith) (ground arith))

  answers-effect :
      (n started : ℕ) (r : Outcome A E) (p : Poller A E)
      → IsWanted p
      → Owns n p
      → p.loads n ≡ running started
      → IsWanted (step o (answers n r) p)
        × Owns n (step o (answers n r) p)
        × ((step o (answers n r) p).loads n ≡ settled)
        × ((step o (answers n r) p).requested ≡ p.requested)
  unfolding step
  answers-effect n started (value x) p w own runs = ground arith
  answers-effect n started aborted p w own runs = ground arith
  answers-effect n started (failed r) p w own runs = ground arith

  running-Loads :
      (n started : ℕ) (p : Poller A E)
      → IsWanted p
      → Owns n p
      → p.loads n ≡ running started
      → Loads o outcome 4 p
  running-Loads n started p w own runs =
      let (w', own', done, same) = answers-effect n started outcome p w own runs in
      after (answers n outcome) 3 p refl same
        (settled-Loads n (step o (answers n outcome) p) w' own' done)

  longer : (a b : ℕ) (p : Poller A E) → a ≤ b → Loads o outcome a p → Loads o outcome b p
  longer a b p l h = record {
    events = h.events;
    automatic = h.automatic;
    short = omega (arith, h.short);
    next = h.next;
  }

  pending-Loads :
      (n : ℕ) (x : Load) (p : Poller A E)
      → IsWanted p
      → p.controller ≡ none
      → p.in_flight ≡ none
      → x ≢ absent
      → p.loads n ≡ x
      → Loads o outcome 4 p
  pending-Loads n absent p w free idle k e = absurd (k refl)
  pending-Loads n (running started) p w free idle k e =
      running-Loads n started p w (free ∙ sym idle, inl idle) e
  pending-Loads n settled p w free idle k e =
      longer 3 4 p (omega arith) (settled-Loads n p w (free ∙ sym idle, inl idle) e)
  pending-Loads n closing p w free idle k e =
      longer 2 4 p (omega arith) (closing-Loads n p w idle e)

  valid-Loads : (p : Poller A E) → IsValid p → IsWanted p → Loads o outcome 4 p
  valid-Loads p v w = elim (Option-cases p.in_flight) [
    | inl idle ↦ elim (v.awake w.0 w.1) [
      | inl timed ↦ longer 1 4 p (omega arith) (timed-Loads p w idle (ground arith))
      | inr (n, k) ↦ pending-Loads n (p.loads n) p w (v.coherent.same_load ∙ idle) idle k refl
    ]
    | inr (n, flies) ↦ elim (v.live n flies) [
      | inl runs ↦ running-Loads n p.generation p w (v.coherent.same_load, inr flies) runs
      | inr done ↦
          longer 3 4 p (omega arith) (settled-Loads n p w (v.coherent.same_load, inr flies) done)
    ]
  ]

-- Whatever has happened to a poller, in whatever order: if it is subscribed, visible and not held back
-- by a task, at most four events that come by themselves, each answer being any outcome that is given,
-- failures included, start its next load.
pub run-Loads :
    {A E : Type 0} (o : Options) (outcome : Outcome A E) (es : List (Event A E))
    (visible busy : Bool)
    → IsWanted (run o es (create visible busy))
    → Loads o outcome 4 (run o es (create visible busy))
run-Loads o outcome es visible busy w =
    valid-Loads o outcome (run o es (create visible busy)) (run-IsValid o es visible busy) w
