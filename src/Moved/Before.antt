-- ===== src/Moved/Before.antt =====
-- A write of app/web/ui/src/lib/moved.svelte.ts and the answers to loads that began before it.
use jumpway.Prelude.{
  ℕ, Bool, List, [], ◌∷◌, Option, Text, ◌≡◌, ◌≢◌, ◌⊎◌, ◌≤◌, inl, inr, refl, ◌∙◌, All, arith,
}
use jumpway.Settings.{Urls, MovedLinkOptions}
use jumpway.Status.{Status}
use jumpway.Poller.{absent, Options, Event, create, run}
use jumpway.Poller.Invariant.{run-IsValid}
use jumpway.Moved.{MovedState, begin_write, after_refresh, uncertain, reconcile}
use jumpway.Moved.Links.{
  MovedEvent, clears, begins, records, refreshes, fails, reports, step, page_at, steps,
}

-- What can follow the begin of a write: anything but another begin and the end of the notice.
abbrev pub IsAfterwards : MovedEvent → Type 0
IsAfterwards clears = ⊥
IsAfterwards (begins requested) = ⊥
IsAfterwards _ = Unit

step-mark :
    (urls : Urls) (page : MovedLinkOptions) (e : MovedEvent) (s : MovedState)
    → IsAfterwards e
    → (step urls page e s).mark ≡ s.mark
unfolding after_refresh uncertain reconcile
step-mark urls page clears s h = absurd h
step-mark urls page (begins requested) s h = absurd h
step-mark urls page (records at applied) s h = refl
step-mark urls page (refreshes current) s h = refl
step-mark urls page (fails at) s h = refl
step-mark urls page (reports current request) s h = ground arith

steps-mark :
    (urls : Urls) (host : Text) (es : List ((Option Text × Text) × MovedEvent)) (s : MovedState)
    → All (λ e. IsAfterwards e.1) es
    → (steps urls host es s).mark ≡ s.mark
steps-mark urls host [] s h = refl
steps-mark urls host ((view, e) ∷ es) s (h, hs) =
    steps-mark urls host es (step urls (page_at urls host view) e s) hs
    ∙ step-mark urls (page_at urls host view) e s h

reconcile-marked :
    (urls : Urls) (page : MovedLinkOptions) (current : Status) (request : ℕ) (s : MovedState)
    → request ≤ s.mark
    → reconcile urls page current request s ≡ s
unfolding reconcile
reconcile-marked urls page current request s h = ground arith

-- A status that the poller holds when a write begins, or that is the answer to a load whose promise then
-- has callbacks left to run, never changes the notice of that write, however late it is reported, and
-- whatever the write and its refresh, later reports and failures have done by then.
pub reconcile-before_write :
    {A E : Type 0} (urls : Urls) (host : Text) (o : Options) (es : List (Event A E))
    (visible busy : Bool) (n : ℕ) (later : List ((Option Text × Text) × MovedEvent))
    (view : Option Text × Text) (current : Status) (s : MovedState)
    → let p = run o es (create visible busy) in
      let written = steps urls host later (begin_write p.requested s) in
      (n ≡ p.answered) ⊎ (p.loads n ≢ absent)
      → All (λ e. IsAfterwards e.1) later
      → reconcile urls (page_at urls host view) current n written ≡ written
reconcile-before_write urls host o es visible busy n later view current s before h =
    let p = run o es (create visible busy) in
    let valid = run-IsValid o es visible busy in
    let known : n ≤ p.requested = elim before [
      | inl held ↦ omega (arith, held, valid.coherent.answered_bound)
      | inr begun ↦ valid.known n begun
    ] in
    let kept = steps-mark urls host later (begin_write p.requested s) h in
    reconcile-marked urls (page_at urls host view) current n
      (steps urls host later (begin_write p.requested s)) (omega (arith, known, kept))
