-- ===== src/Pages/Statistics/Loading.antt =====
-- Which answers the page of the rules' traffic listens to.
use jumpway.Prelude.{
  ℕ, suc, Bool, true, false, List, [], ◌∷◌, Option, none, some, is_some, is_empty, Text, nat_beq,
  if◌then◌else◌, ◌≡◌, ◌≢◌, refl, inl, inr, ◌⊎◌, arith, Bool-cases,
}
use jumpway.Wire.{Rule}
use jumpway.Api.{Result, ok, failed, is_aborted}
use jumpway.Pages.{owns}
use jumpway.Pages.Statistics.{
  Statistics, load, unopened, open_page, adopt, answered, ended, leave, toggle_row, route_rule,
  focused, pending_toggle, focus_row, bind_toggle, StatisticsEvent, retries, leaves, effects,
  answers, ends, routes, toggles_row, types, sorts, binds, act, step, run,
}

-- The load that is waited for, if any, is the newest.
abbrev pub IsNewest : Option ℕ → ℕ → Type 0
IsNewest none loads = Unit
IsNewest (some own) loads = suc own ≡ loads

pub record IsLoading (s : Statistics) : Type 0 where
  pub newest : IsNewest s.controller s.loads
  pub shown : s.mounted ≡ true → s.loading ≡ is_some s.controller
  pub left : s.mounted ≡ false → s.controller ≡ none

-- What leaves the load alone.
pub record IsQuiet (s t : Statistics) : Type 0 where
  pub controller : t.controller ≡ s.controller
  pub loads : t.loads ≡ s.loads
  pub loading : t.loading ≡ s.loading
  pub mounted : t.mounted ≡ s.mounted
  pub rules : t.rules ≡ s.rules
  pub error : t.error ≡ s.error

IsQuiet-self : (s : Statistics) → IsQuiet s s
IsQuiet-self s = record {
  controller = refl;
  loads = refl;
  loading = refl;
  mounted = refl;
  rules = refl;
  error = refl;
}

IsQuiet-IsLoading : (s t : Statistics) → IsQuiet s t → IsLoading s → IsLoading t
IsQuiet-IsLoading s t q h = record {
  newest = rw (q.controller, q.loads) h.newest;
  shown = rw (q.controller, q.loading, q.mounted) h.shown;
  left = rw (q.controller, q.mounted) h.left;
}

load-IsLoading : (s : Statistics) → s.mounted ≡ true → IsLoading (load s)
unfolding load
load-IsLoading s m = record { newest = refl; shown = λ e. refl; left = λ e. absurd (cc (e, m)) }

adopt-IsLoading :
    (result : Result (Option (List Rule))) (s : Statistics)
    → IsLoading s
    → IsLoading (adopt result s)
adopt-IsLoading (ok value) s h = record { newest = h.newest; shown = h.shown; left = h.left }
adopt-IsLoading (failed reason) s h = elim (Bool-cases (is_aborted reason)) [
  | inl e ↦ rw e h
  | inr e ↦ rw e (record { newest = h.newest; shown = h.shown; left = h.left })
]

branch :
    (b : Bool) (s t : Statistics)
    → (b ≡ true → IsLoading s)
    → IsLoading t
    → IsLoading (if b then s else t)
branch true s t h k = h refl
branch false s t h k = k

acted :
    (b : Bool) (f : Statistics → Statistics) (s : Statistics)
    → (b ≡ true → IsLoading (f s))
    → IsLoading s
    → IsLoading (act b f s)
acted false f s h k = k
acted true f s h k = h refl

quiet : (s t : Statistics) → IsLoading s → IsQuiet s t → IsLoading t
quiet s t h q = IsQuiet-IsLoading s t q h

focused-IsQuiet : (o : Option ℕ) (s : Statistics) → IsQuiet s (focused o s)
focused-IsQuiet none s = IsQuiet-self s
focused-IsQuiet (some toggle) s = record {
  controller = refl;
  loads = refl;
  loading = refl;
  mounted = refl;
  rules = refl;
  error = refl;
}

bind_toggle-IsQuiet :
    (name : Text) (node : Option ℕ) (s : Statistics) → IsQuiet s (bind_toggle name node s)
unfolding bind_toggle
bind_toggle-IsQuiet name none s = record {
  controller = refl;
  loads = refl;
  loading = refl;
  mounted = refl;
  rules = refl;
  error = refl;
}
bind_toggle-IsQuiet name (some node) s = record {
  controller = refl;
  loads = refl;
  loading = refl;
  mounted = refl;
  rules = refl;
  error = refl;
}

ended-IsLoading : (own : ℕ) (s : Statistics) → IsLoading s → IsLoading (ended own s)
unfolding ended
ended-IsLoading own s h =
    branch (owns s.controller own) _ s
      (λ e. record { newest = tt; shown = λ m. refl; left = λ m. refl }) h

step-IsLoading : (e : StatisticsEvent) (s : Statistics) → IsLoading s → IsLoading (step e s)
unfolding leave focus_row answered route_rule toggle_row
step-IsLoading retries s h = acted s.mounted load s (load-IsLoading s) h
step-IsLoading leaves s h =
    acted s.mounted leave s
      (λ m. record { newest = tt; shown = λ e. absurd (cc e); left = λ e. refl }) h
step-IsLoading effects s h =
    acted s.mounted focus_row s
      (λ m. quiet s _ h (focused-IsQuiet (pending_toggle s.focus_pending s.toggles) s)) h
step-IsLoading (answers own result) s h =
    branch (owns s.controller own) _ s (λ e. adopt-IsLoading result s h) h
step-IsLoading (ends own) s h = ended-IsLoading own s h
step-IsLoading (routes name) s h =
    acted s.mounted (route_rule name) s
      (λ m.
        branch (is_empty name) s _ (λ e. h)
          (record { newest = h.newest; shown = h.shown; left = h.left }))
      h
step-IsLoading (toggles_row name) s h =
    acted s.mounted (toggle_row name) s
      (λ m. record { newest = h.newest; shown = h.shown; left = h.left }) h
step-IsLoading (types text) s h =
    acted s.mounted _ s (λ m. record { newest = h.newest; shown = h.shown; left = h.left }) h
step-IsLoading (sorts sort) s h =
    acted s.mounted _ s (λ m. record { newest = h.newest; shown = h.shown; left = h.left }) h
step-IsLoading (binds name node) s h =
    acted s.mounted (bind_toggle name node) s (λ m. quiet s _ h (bind_toggle-IsQuiet name node s)) h

run-keeps : (es : List StatisticsEvent) (s : Statistics) → IsLoading s → IsLoading (run es s)
run-keeps [] s h = h
run-keeps (e ∷ es) s h = run-keeps es (step e s) (step-IsLoading e s h)

-- Whatever happens on the page: the load that it waits for, if any, is the newest; while it is there it
-- shows that it loads exactly while it waits for one, and once it is left it waits for none.
pub run-IsLoading :
    (es : List StatisticsEvent) (focus : Option ℕ) → IsLoading (run es (open_page focus))
unfolding open_page
run-IsLoading es focus = run-keeps es (load (unopened focus)) (load-IsLoading (unopened focus) refl)

not_owned :
    (controller : Option ℕ) (loads own : ℕ)
    → IsNewest controller loads
    → suc own ≢ loads
    → owns controller own ≡ false
not_owned none loads own h ne = refl
not_owned (some n) loads own h ne = elim (Bool-cases (nat_beq n own)) [
  | inl e ↦ absurd (ne (ground (arith, h, e)))
  | inr e ↦ e
]

-- Whatever has happened on the page, an answer to a load that is not the newest changes nothing, nor does any
-- answer once the page is left.
pub run-drops_stale :
    (es : List StatisticsEvent) (focus : Option ℕ) (own : ℕ) (result : Result (Option (List Rule)))
    → (suc own ≢ (run es (open_page focus)).loads) ⊎ ((run es (open_page focus)).mounted ≡ false)
    → (step (answers own result) (run es (open_page focus)) ≡ run es (open_page focus))
      × (step (ends own) (run es (open_page focus)) ≡ run es (open_page focus))
unfolding answered open_page ended
run-drops_stale es focus own result stale =
    let s = run es (open_page focus) in
    let h = run-IsLoading es focus in
    let free : owns s.controller own ≡ false = elim stale [
      | inl ne ↦ not_owned s.controller s.loads own h.newest ne
      | inr gone ↦ rw (h.left gone) refl
    ] in
    (rw (answered, free) refl, rw (ended, free) refl)
