-- ===== src/Poller.antt =====
-- app/web/ui/src/lib/polling.svelte.ts: `createPoller`. The variables of the closure are a record,
-- joined by what it reads of the page (`document.visibilityState`, `busy.value`) and by the loads
-- whose promises have callbacks left to run.
pub mod Invariant
pub mod Late
pub mod Progress
pub mod Backoff
use jumpway.Prelude.{
  ℕ, zero, suc, ◌+◌, ◌*◌, ◌^◌, min, ◌-◌, Bool, true, false, not, ◌&&◌, ◌||◌, List, [], ◌∷◌, ◌++◌,
  Option, none, some, is_some, nat_beq, ltb, if◌then◌else◌,
}

-- How far the promise chain of one load is: the load itself, then the callback of `then`, then that
-- of the `finally` in `fetchOnce`, then that of the `finally` at its call.
pub data Load : Type 0 where
  absent : Load
  running : (started : ℕ) → Load
  settled closing : Load

pub data Outcome (A E : Type 0) : Type 0 where
  value : A → Outcome A E
  aborted : Outcome A E
  failed : E → Outcome A E

pub record Options : Type 0 where
  pub interval : ℕ
  pub max_interval : ℕ

-- `timer` is the delay of the pending timeout; `controller` and `in_flight` hold the number of the
-- load that they belong to; `delivered` lists the arguments of `onData`, the latest first.
pub record Poller (A E : Type 0) : Type 0 where
  pub data' : Option A
  pub error : Option E
  pub loading : Bool
  pub failures : ℕ
  pub subscribers : ℕ
  pub timer : Option ℕ
  pub controller : Option ℕ
  pub in_flight : Option ℕ
  pub generation : ℕ
  pub requested : ℕ
  pub answered : ℕ
  pub delivered : List A
  pub loads : ℕ → Load
  pub visible : Bool
  pub busy : Bool

-- A new poller on a page.
abbrev pub create : {A E : Type 0} → Bool → Bool → Poller A E
create visible busy = record {
  data' = none;
  error = none;
  loading = false;
  failures = 0;
  subscribers = 0;
  timer = none;
  controller = none;
  in_flight = none;
  generation = 0;
  requested = 0;
  answered = 0;
  delivered = [];
  loads = λ n. absent;
  visible = visible;
  busy = busy;
}

abbrev pub update : (ℕ → Load) → ℕ → Load → ℕ → Load
update loads n l m = if nat_beq m n then l else loads m

abbrev pub holds : Option ℕ → ℕ → Bool
holds none n = false
holds (some m) n = nat_beq m n

unfoldable pub delay : Options → ℕ → ℕ
delay o failures = min (o.interval * 2 ^ failures) o.max_interval

module _ {A E : Type 0} where
  clear_timer : Poller A E → Poller A E
  clear_timer p = record p { timer = none }

  invalidate : Poller A E → Poller A E
  invalidate p = record p {
    generation = suc p.generation;
    controller = none;
    in_flight = none;
    loading = false;
  }

  fetch_once : Poller A E → Poller A E
  fetch_once p = record p {
    requested = suc p.requested;
    controller = some (suc p.requested);
    loading = true;
    in_flight = some (suc p.requested);
    loads = update p.loads (suc p.requested) (running p.generation);
  }

  -- `current()` in the callbacks of load `n`, which began in generation `started`
  is_current : ℕ → ℕ → Poller A E → Bool
  is_current n started p = nat_beq started p.generation && holds p.controller n

  on_outcome : ℕ → ℕ → Outcome A E → Poller A E → Poller A E
  unfolding is_current
  on_outcome n started (value v) p = if not (is_current n started p) then p else record p {
    data' = some v;
    answered = n;
    error = none;
    failures = 0;
    delivered = v ∷ p.delivered;
  }
  on_outcome n started aborted p = p
  on_outcome n started (failed reason) p =
      if is_current n started p
      then record p { error = some reason; failures = suc p.failures }
      else p

  set_load : ℕ → Load → Poller A E → Poller A E
  set_load n l p = record p { loads = update p.loads n l }

  -- The promise of load `n` settles.
  settle : ℕ → Outcome A E → Poller A E → Poller A E
  unfolding on_outcome set_load
  settle n o p = elim (p.loads n) [
    | running started ↦ set_load n settled (on_outcome n started o p)
    | _ ↦ p
  ]

  -- The `finally` of `fetchOnce` for load `n`.
  clean : ℕ → Poller A E → Poller A E
  unfolding set_load
  clean n p = elim (p.loads n) [
    | settled ↦ set_load n closing (
        if holds p.controller n
        then record p { controller = none; in_flight = none; loading = false }
        else p)
    | _ ↦ p
  ]

  module _ (o : Options) where
    schedule : Poller A E → Poller A E
    unfolding clear_timer
    schedule p =
        if ltb 0 p.subscribers && p.visible
        then record p { timer = some (delay o p.failures) }
        else clear_timer p

    -- The `finally(schedule)` at the call of `fetchOnce` for load `n`.
    reschedule : ℕ → Poller A E → Poller A E
    unfolding set_load schedule
    reschedule n p = elim (p.loads n) [ closing ↦ schedule (set_load n absent p) | _ ↦ p ]

    tick : Poller A E → Poller A E
    unfolding clear_timer schedule fetch_once
    tick p =
        let q = clear_timer p in
        if nat_beq q.subscribers 0 || not q.visible
        then q
        else if q.busy || is_some q.in_flight
        then schedule q
        else fetch_once q

    -- The timeout fires, if one is pending.
    fire : Poller A E → Poller A E
    unfolding tick
    fire p = if is_some p.timer then tick p else p

    on_visibility : Poller A E → Poller A E
    unfolding tick clear_timer invalidate
    on_visibility p =
        if p.visible
        then (let q = record p { failures = 0 } in if not (is_some q.in_flight) then tick q else q)
        else invalidate (clear_timer p)

    -- The page appears or disappears; the listener is there while there are subscribers.
    set_visible : Bool → Poller A E → Poller A E
    unfolding on_visibility
    set_visible v p =
        let q = record p { visible = v } in if ltb 0 q.subscribers then on_visibility q else q

    subscribe : Poller A E → Poller A E
    unfolding tick
    subscribe p =
        let q = record p { subscribers = suc p.subscribers } in
        if nat_beq q.subscribers 1 then tick (record q { failures = 0 }) else q

    -- A subscription is released for the first time.
    release : Poller A E → Poller A E
    unfolding clear_timer invalidate
    release p =
        let q = record p { subscribers = p.subscribers - 1 } in
        if nat_beq p.subscribers 0
        then p
        else if nat_beq q.subscribers 0
        then invalidate (clear_timer q)
        else q

    -- `wanted()` for a call of `refresh` made in generation `started`
    wanted : ℕ → Poller A E → Bool
    wanted started p =
        nat_beq started p.generation && ltb 0 p.subscribers && p.visible && not p.busy

    -- `refresh`, from its start or from an `await` to the next one or to the end; `started` is the
    -- generation in which it was called. Where a load is in flight it goes on waiting.
    refresh : ℕ → Poller A E → Poller A E
    unfolding wanted fetch_once
    refresh started p =
        if not (wanted started p) || is_some p.in_flight
        then p
        else fetch_once (record p { failures = 0 })

-- What can happen to a poller, in any order.
pub data Event (A E : Type 0) : Type 0 where
  subscribed released fired : Event A E
  shown busied : Bool → Event A E
  answers : ℕ → Outcome A E → Event A E
  cleaned rescheduled refreshed : ℕ → Event A E

module _ {A E : Type 0} (o : Options) where
  unfoldable pub step : Event A E → Poller A E → Poller A E
  unfolding subscribe release fire set_visible settle clean reschedule refresh
  step subscribed p = subscribe o p
  step released p = release o p
  step fired p = fire o p
  step (shown v) p = set_visible o v p
  step (busied b) p = record p { busy = b }
  step (answers n outcome) p = settle n outcome p
  step (cleaned n) p = clean n p
  step (rescheduled n) p = reschedule o n p
  step (refreshed started) p = refresh o started p

  abbrev pub run : List (Event A E) → Poller A E → Poller A E
  run [] p = p
  run (e ∷ es) p = run es (step e p)
