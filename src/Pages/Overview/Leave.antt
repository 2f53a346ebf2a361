-- ===== src/Pages/Overview/Leave.antt =====
-- What the page writes once it is left.
use jumpway.Prelude.{All, true, List, [], ◌∷◌, none, some, text_eq, ◌≡◌, refl, arith}
use jumpway.Api.{ok, failed}
use jumpway.Pages.Overview.{
  Overview, load, list_answered, list_finished, leave, adopt, set_enabled, was_read, was_written,
  was_reread, remove, was_asked, was_deleted, OverviewEvent, loads, leaves, lists, settles,
  switches, removes, reads, answers, confirms, step, run,
}

-- The page is left, and what it sent and shows is as in `s`. Its own `load` is no longer called.
pub record IsQuiet (s q : Overview) : Type 0 where
  pub gone : q.left ≡ true
  pub idle : q.controller ≡ none
  pub sent : q.writes ≡ s.writes
  pub shown : q.rules ≡ s.rules
  pub listed : q.issued ≡ s.issued
  pub refreshed : q.refreshes ≡ s.refreshes

-- The handlers of buttons are gone with the page.
abbrev pub IsLate : OverviewEvent → Type 0
IsLate loads = ⊥
IsLate _ = Unit

step-IsQuiet : (e : OverviewEvent) (s q : Overview) → IsLate e → IsQuiet s q → IsQuiet s (step e q)
unfolding load leave list_answered list_finished set_enabled remove was_read was_written was_reread
    was_asked was_deleted adopt
step-IsQuiet loads s q l h = absurd l
step-IsQuiet leaves s q l h = ground arith
step-IsQuiet (lists own (ok value)) s q l h = ground arith
step-IsQuiet (lists own (failed reason)) s q l h = ground arith
step-IsQuiet (settles own) s q l h = ground arith
step-IsQuiet (switches name enabled) s q l h = ground arith
step-IsQuiet (removes name) s q l h = ground arith
step-IsQuiet (reads name (ok rule)) s q l h = ground arith
step-IsQuiet (reads name (failed reason)) s q l h = ground arith
step-IsQuiet (answers name none) s q l h = ground arith
step-IsQuiet (answers name (some reason)) s q l h = ground arith
step-IsQuiet (confirms name agreed) s q l h = ground arith

run-IsQuiet :
    (es : List OverviewEvent) (s q : Overview) → All IsLate es → IsQuiet s q → IsQuiet s (run es q)
run-IsQuiet [] s q l h = h
run-IsQuiet (e ∷ es) s q (l, ls) h = run-IsQuiet es s (step e q) ls (step-IsQuiet e s q l h)

-- Once the page is left, whatever answers then come, and in whatever order, no rule is changed or deleted
-- any more, neither the list nor the status is asked for, and the rules that it held stay as they are.
pub leave-sends_nothing :
    (es : List OverviewEvent) (s : Overview)
    → All IsLate es
    → ((run es (leave s)).writes ≡ s.writes)
      × ((run es (leave s)).issued ≡ s.issued)
      × ((run es (leave s)).refreshes ≡ s.refreshes)
      × ((run es (leave s)).rules ≡ s.rules)
unfolding leave
leave-sends_nothing es s l =
    let start : IsQuiet s (leave s) = record {
      gone = refl;
      idle = refl;
      sent = refl;
      shown = refl;
      listed = refl;
      refreshed = refl;
    } in
    let quiet = run-IsQuiet es s (leave s) l start in
    (quiet.sent, quiet.listed, quiet.refreshed, quiet.shown)
