-- ===== src/Pages/Connections/Calls.antt =====
-- The calls that close connections.
use jumpway.Prelude.{
  ℕ, Bool, true, false, List, [], ◌∷◌, ◌++◌, Text, text_eq, nat_beq, if◌then◌else◌, ◌==◌, ◌≡◌, refl,
  ap, inl, inr, arith, Distinct, NotIn, In-append_iff, In-filter_iff, nat_beq_iff, Bool-cases,
}
use jumpway.Pages.Connections.{
  ConnectionsPage, open_page, has, without, set_rule, set_query, select_rule, toggle_row,
  disconnect, disconnect_ended, ConnectionEvent, routes, selects, types, sorts, toggles,
  disconnects, ends, step, run,
}

has-In : (id : ℕ) (ids : List ℕ) → has id ids ≡ false → NotIn id ids
has-In id [] h m = m
has-In id (i ∷ ids) h m = elim m [
  | inl e ↦ absurd (ground (arith, h, e, nat_beq_iff i id))
  | inr k ↦ has-In id ids (ground (arith, h)) k
]

append-Distinct : (ids : List ℕ) (id : ℕ) → Distinct ids → NotIn id ids → Distinct (ids ++ id ∷ [])
append-Distinct [] id d n = (λ m. m, tt)
append-Distinct (i ∷ ids) id (f, d) n = (
  λ m. elim ((In-append_iff i ids (id ∷ [])).0 m) [
    | inl k ↦ f k
    | inr (inl e) ↦ n (inl (cc e))
    | inr (inr k) ↦ k
  ],
  append-Distinct ids id d (λ m. n (inr m)),
)

without-Distinct : (id : ℕ) (ids : List ℕ) → Distinct ids → Distinct (without id ids)
without-Distinct id [] d = tt
without-Distinct id (i ∷ ids) (f, d) = elim (Bool-cases (nat_beq i id)) [
  | inl e ↦ rw e (without-Distinct id ids d)
  | inr e ↦ rw e (λ m. f ((In-filter_iff _ i ids).0 m).0, without-Distinct id ids d)
]

-- The connections whose buttons wait are those with a call under way, each with one.
pub record IsTracked (s : ConnectionsPage) : Type 0 where
  pub tracked : s.calls ≡ s.pending
  pub once : Distinct s.calls

branch-IsTracked :
    (b : Bool) (s t : ConnectionsPage)
    → (b ≡ true → IsTracked s)
    → (b ≡ false → IsTracked t)
    → IsTracked (if b then s else t)
branch-IsTracked true s t h k = h refl
branch-IsTracked false s t h k = k refl

-- What leaves the calls and the buttons alone.
other :
    (s t : ConnectionsPage) → t.calls ≡ s.calls → t.pending ≡ s.pending → IsTracked s → IsTracked t
other s t c p h = record { tracked = rw (c, p) h.tracked; once = rw c h.once }

set_rule-IsTracked : (rule : Text) (s : ConnectionsPage) → IsTracked s → IsTracked (set_rule rule s)
unfolding set_rule
set_rule-IsTracked rule s h =
    branch-IsTracked (s.rule == rule) s _ (λ e. h) (λ e. other s _ refl refl h)

step-IsTracked : (e : ConnectionEvent) (s : ConnectionsPage) → IsTracked s → IsTracked (step e s)
unfolding set_query select_rule toggle_row disconnect disconnect_ended
step-IsTracked (routes rule) s h = set_rule-IsTracked rule s h
step-IsTracked (selects rule) s h =
    other (set_rule rule s) _ refl refl (set_rule-IsTracked rule s h)
step-IsTracked (types query) s h =
    branch-IsTracked (s.query == query) s _ (λ e. h) (λ e. other s _ refl refl h)
step-IsTracked (sorts sort) s h = other s _ refl refl h
step-IsTracked (toggles id) s h = other s _ refl refl h
step-IsTracked (disconnects id) s h =
    branch-IsTracked (has id s.pending) s _ (λ e. h)
      (λ e. record {
        tracked = ap (◌++ id ∷ []) h.tracked;
        once = append-Distinct s.calls id h.once (rw h.tracked (has-In id s.pending e));
      })
step-IsTracked (ends id failure) s h =
    branch-IsTracked (has id s.calls) _ s
      (λ e. record {
        tracked = ap (without id) h.tracked;
        once = without-Distinct id s.calls h.once;
      })
      (λ e. h)

run-keeps : (es : List ConnectionEvent) (s : ConnectionsPage) → IsTracked s → IsTracked (run es s)
run-keeps [] s h = h
run-keeps (e ∷ es) s h = run-keeps es (step e s) (step-IsTracked e s h)

-- Whatever is chosen, closed and answered, in whatever order, the connections whose buttons wait are exactly
-- those with a call under way, and a connection has one call at a time.
pub run-IsTracked : (es : List ConnectionEvent) → IsTracked (run es open_page)
run-IsTracked es = run-keeps es open_page (record { tracked = refl; once = tt })
