-- ===== src/Poller/Invariant.antt =====
-- What holds of a poller whatever happens, in whatever order.
use jumpway.Prelude.{
  ℕ, suc, ◌≤◌, ◌<◌, Bool, true, false, not, ◌&&◌, ◌||◌, List, [], ◌∷◌, none, some, is_some, nat_beq,
  ◌≡◌, ◌≢◌, ◌⊎◌, inl, inr, refl, arith, Bool-cases, Option-cases,
}
use jumpway.Poller.{
  Load, absent, running, settled, closing, value, aborted, failed, Options, Poller, create, wanted,
  step, run, Event, subscribed, released, fired, shown, busied, answers, cleaned, rescheduled,
  refreshed,
}

-- The facts about the variables alone.
pub record IsCoherent {A E : Type 0} (p : Poller A E) : Type 0 where
  -- `controller` and `inFlight` belong to the same load, and `loading` says whether there is one.
  pub same_load : p.controller ≡ p.in_flight
  pub loading_iff : p.loading ≡ is_some p.in_flight
  pub answered_bound : p.answered ≤ p.requested
  -- A load is in flight, and a timeout pending, only while subscribed and visible.
  pub loads_while : is_some p.in_flight ≡ true → (0 < p.subscribers) × (p.visible ≡ true)
  pub timed_while : is_some p.timer ≡ true → (0 < p.subscribers) × (p.visible ≡ true)

-- The loads whose promises have callbacks to run are those that were started.
abbrev pub IsKnown : {A E : Type 0} → Poller A E → Type 0
IsKnown p = (n : ℕ) → p.loads n ≢ absent → n ≤ p.requested

step-IsKnown :
    {A E : Type 0} (o : Options) (e : Event A E) (p : Poller A E) → IsKnown p → IsKnown (step o e p)
unfolding step
step-IsKnown o subscribed p k n = ground (arith, k n)
step-IsKnown o released p k n = ground (arith, k n)
step-IsKnown o fired p k n = ground (arith, k n)
step-IsKnown o (shown v) p k n = ground (arith, k n)
step-IsKnown o (busied b) p k n = ground (arith, k n)
step-IsKnown o (answers m (value v)) p k n = ground (arith, k n)
step-IsKnown o (answers m aborted) p k n = ground (arith, k n)
step-IsKnown o (answers m (failed r)) p k n = ground (arith, k n)
step-IsKnown o (cleaned m) p k n = ground (arith, k n)
step-IsKnown o (rescheduled m) p k n = ground (arith, k n)
step-IsKnown o (refreshed m) p k n = ground (arith, k n)

step-IsCoherent :
    {A E : Type 0} (o : Options) (e : Event A E) {p : Poller A E}
    → IsKnown p
    → IsCoherent p
    → IsCoherent (step o e p)
unfolding step
step-IsCoherent o subscribed k c = ground arith
step-IsCoherent o released k c = ground arith
step-IsCoherent o fired k c = ground arith
step-IsCoherent o (shown v) k c = ground arith
step-IsCoherent o (busied b) k c = ground arith
step-IsCoherent o (answers n (value v)) k c = ground (arith, k n)
step-IsCoherent o (answers n aborted) k c = ground arith
step-IsCoherent o (answers n (failed r)) k c = ground arith
step-IsCoherent o (cleaned n) k c = ground arith
step-IsCoherent o (rescheduled n) k c = ground arith
step-IsCoherent o (refreshed n) k c = ground arith

-- The load in flight has callbacks to run, and began in the present generation: nothing waits for a
-- load that will never finish.
abbrev pub IsLive : {A E : Type 0} → Poller A E → Type 0
IsLive p =
    (n : ℕ) → p.in_flight ≡ some n → (p.loads n ≡ running p.generation) ⊎ (p.loads n ≡ settled)

step-IsLive :
    {A E : Type 0} (o : Options) (e : Event A E) (p : Poller A E)
    → IsCoherent p
    → IsLive p
    → IsLive (step o e p)
unfolding step
step-IsLive o subscribed p c l n h = ground (arith, l n)
step-IsLive o released p c l n h = ground (arith, l n)
step-IsLive o fired p c l n h = ground (arith, l n)
step-IsLive o (shown v) p c l n h = ground (arith, l n)
step-IsLive o (busied b) p c l n h = ground (arith, l n)
step-IsLive o (answers m (value v)) p c l n h = ground (arith, l n)
step-IsLive o (answers m aborted) p c l n h = ground (arith, l n)
step-IsLive o (answers m (failed r)) p c l n h = ground (arith, l n)
step-IsLive o (cleaned m) p c l n h = ground (arith, l n)
step-IsLive o (rescheduled m) p c l n h = ground (arith, l n)
step-IsLive o (refreshed m) p c l n h = ground (arith, l n)

-- Something will make the poller go on: a timeout, or a load with callbacks to run.
abbrev pub HasWakeUp : {A E : Type 0} → Poller A E → Type 0
HasWakeUp p = (p.timer ≢ none) ⊎ ((n : ℕ) × (p.loads n ≢ absent))

abbrev pub IsAwake : {A E : Type 0} → Poller A E → Type 0
IsAwake p = 0 < p.subscribers → p.visible ≡ true → HasWakeUp p

closing-cases : (x : Load) → (x ≡ closing) ⊎ (x ≢ closing)
closing-cases closing = inl refl
closing-cases absent = inr (ground arith)
closing-cases (running g) = inr (ground arith)
closing-cases settled = inr (ground arith)

HasWakeUp-mono :
    {A E : Type 0} (p q : Poller A E)
    → HasWakeUp p
    → (p.timer ≢ none → q.timer ≢ none)
    → ((n : ℕ) → p.loads n ≢ absent → q.loads n ≢ absent)
    → HasWakeUp q
HasWakeUp-mono p q (inl t) f g = inl (f t)
HasWakeUp-mono p q (inr (n, e)) f g = inr (n, g n e)

step-IsAwake :
    {A E : Type 0} (o : Options) (e : Event A E) (p : Poller A E)
    → IsLive p
    → IsAwake p
    → IsAwake (step o e p)
unfolding step
step-IsAwake o subscribed p l a h v =
    elim (Bool-cases (nat_beq p.subscribers 0 && not (p.busy || is_some p.in_flight))) [
      | inl fetches ↦ inr (suc p.requested, ground arith)
      | inr other ↦ elim (Bool-cases (nat_beq p.subscribers 0)) [
        | inl first ↦ inl (ground arith)
        | inr more ↦
            HasWakeUp-mono p (step o subscribed p) (a (ground arith) (ground arith)) (ground arith)
              (λ n k. ground arith)
      ]
    ]
step-IsAwake o released p l a h v =
    HasWakeUp-mono p (step o released p) (a (ground arith) (ground arith)) (ground arith)
      (λ n k. ground arith)
step-IsAwake o fired p l a h v =
    elim (Bool-cases (is_some p.timer && not (p.busy || is_some p.in_flight))) [
      | inl fetches ↦ inr (suc p.requested, ground arith)
      | inr other ↦ elim (Bool-cases (is_some p.timer)) [
        | inl due ↦ inl (ground arith)
        | inr early ↦
            HasWakeUp-mono p (step o fired p) (a (ground arith) (ground arith)) (ground arith)
              (λ n k. ground arith)
      ]
    ]
step-IsAwake o (shown true) p l a h v = elim (Option-cases p.in_flight) [
  | inl idle ↦ elim (Bool-cases p.busy) [
    | inl held ↦ inl (ground arith)
    | inr free ↦ inr (suc p.requested, ground arith)
  ]
  | inr (n, owner) ↦ inr (n, ground (arith, l n))
]
step-IsAwake o (shown false) p l a h v = ground arith
step-IsAwake o (busied b) p l a h v = a h v
step-IsAwake o (answers m (value x)) p l a h v =
    HasWakeUp-mono p (step o (answers m (value x)) p) (a (ground arith) (ground arith))
      (ground arith) (λ n k. ground arith)
step-IsAwake o (answers m aborted) p l a h v =
    HasWakeUp-mono p (step o (answers m aborted) p) (a (ground arith) (ground arith)) (ground arith)
      (λ n k. ground arith)
step-IsAwake o (answers m (failed r)) p l a h v =
    HasWakeUp-mono p (step o (answers m (failed r)) p) (a (ground arith) (ground arith))
      (ground arith) (λ n k. ground arith)
step-IsAwake o (cleaned m) p l a h v =
    HasWakeUp-mono p (step o (cleaned m) p) (a (ground arith) (ground arith)) (ground arith)
      (λ n k. ground arith)
step-IsAwake o (rescheduled m) p l a h v = elim (closing-cases (p.loads m)) [
  | inl last ↦ inl (ground arith)
  | inr other ↦
      HasWakeUp-mono p (step o (rescheduled m) p) (a (ground arith) (ground arith)) (ground arith)
        (λ n k. ground arith)
]
step-IsAwake o (refreshed m) p l a h v =
    elim (Bool-cases (wanted o m p && not (is_some p.in_flight))) [
      | inl fetches ↦ inr (suc p.requested, ground arith)
      | inr other ↦
          HasWakeUp-mono p (step o (refreshed m) p) (a (ground arith) (ground arith)) (ground arith)
            (λ n k. ground arith)
    ]

-- All of it together.
pub record IsValid {A E : Type 0} (p : Poller A E) : Type 0 where
  pub coherent : IsCoherent p
  pub known : IsKnown p
  pub live : IsLive p
  pub awake : IsAwake p

-- The invariant is kept by every event: whatever a page, a timer, a caller or a load does.
pub step-IsValid :
    {A E : Type 0} (o : Options) (e : Event A E) {p : Poller A E} → IsValid p → IsValid (step o e p)
step-IsValid o e {p} v = record {
  coherent = step-IsCoherent o e v.known v.coherent;
  known = step-IsKnown o e p v.known;
  live = step-IsLive o e p v.coherent v.live;
  awake = step-IsAwake o e p v.live v.awake;
}

pub create-IsValid :
    {A E : Type 0} (visible busy : Bool) → IsValid (create {A = A} {E = E} visible busy)
create-IsValid visible busy = record {
  coherent = ground arith;
  known = λ n e. absurd (e refl);
  live = λ n e. cc;
  awake = λ h v. absurd (omega arith);
}

run-keeps :
    {A E : Type 0} (o : Options) (es : List (Event A E)) {p : Poller A E}
    → IsValid p
    → IsValid (run o es p)
run-keeps o [] v = v
run-keeps o (e ∷ es) v = run-keeps o es (step-IsValid o e v)

-- Whatever events reach a poller that was created, in whatever order, it is valid after them: the two
-- variables of the load in flight agree, that load is really pending, and a poller that is subscribed
-- and visible has a timeout or a load to wake it up.
pub run-IsValid :
    {A E : Type 0} (o : Options) (es : List (Event A E)) (visible busy : Bool)
    → IsValid (run o es (create visible busy))
run-IsValid o es visible busy = run-keeps o es (create-IsValid visible busy)
