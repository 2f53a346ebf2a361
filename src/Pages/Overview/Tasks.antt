-- ===== src/Pages/Overview/Tasks.antt =====
-- At most one call per rule.
use jumpway.Prelude.{
  ℕ, Bool, false, not, ◌&&◌, ◌||◌, List, [], ◌∷◌, ◌++◌, map, Option, none, some, Text, text_eq,
  filter, if◌then◌else◌, ◌==◌, ◌≡◌, inl, inr, refl, sym, ap, ◌∙◌, arith, Bool-cases, In, NotIn,
  In-append_iff, Distinct, any-In,
}
use jumpway.Wire.{Rule}
use jumpway.Api.{ApiError, is_saved, is_unreachable, is_aborted, Result, ok, failed}
use jumpway.Pages.{updates, deletes, saved, deleted, uncertain, warned, failed_with}
use jumpway.Pages.Overview.{
  Stage, reading, writing, rereading, asking, deleting, Overview, opened, is_current, load,
  list_answered, list_finished, leave, adopt, is_pending, begin, await, finish, say, send,
  drop_rule, set_enabled, with_enabled, was_read, was_written, was_reread, remove, was_asked,
  was_deleted, OverviewEvent, loads, leaves, lists, settles, switches, removes, reads, answers,
  confirms, stage_of, on_read, on_answer, on_confirm, step, run,
}

abbrev names_of : List (Text × Stage) → List Text
names_of tasks = map (λ (t : Text × Stage). t.0) tasks

-- The names that wait are exactly those of the calls under way, each once.
pub record Tracks (pending : List Text) (tasks : List (Text × Stage)) : Type 0 where
  pub same : pending ≡ names_of tasks
  pub single : Distinct pending

abbrev pub IsTracked : Overview → Type 0
IsTracked s = Tracks s.pending s.tasks

names-without :
    (name : Text) (tasks : List (Text × Stage))
    → filter (λ n. not (n == name)) (names_of tasks)
      ≡ names_of (filter (λ t. not (t.0 == name)) tasks)
names-without name [] = refl
names-without name (t ∷ tasks) = ground (arith, names-without name tasks)

In-without : (a name : Text) (ns : List Text) → In a (filter (λ n. not (n == name)) ns) → In a ns
In-without a name [] m = absurd m
In-without a name (n ∷ ns) m = elim (Bool-cases (n == name)) [
  | inl e ↦ inr (In-without a name ns (rw e at m))
  | inr e ↦ elim (rw e at m) [ inl q ↦ inl q | inr k ↦ inr (In-without a name ns k) ]
]

Distinct-without :
    (name : Text) (ns : List Text) → Distinct ns → Distinct (filter (λ n. not (n == name)) ns)
Distinct-without name [] d = tt
Distinct-without name (n ∷ ns) (new, d) = elim (Bool-cases (n == name)) [
  | inl e ↦ rw e (Distinct-without name ns d)
  | inr e ↦ rw e ((λ m. new (In-without n name ns m)), Distinct-without name ns d)
]

Distinct-push : (ns : List Text) (n : Text) → NotIn n ns → Distinct ns → Distinct (ns ++ n ∷ [])
Distinct-push [] n new d = (λ m. m, tt)
Distinct-push (k ∷ ns) n new (fresh, d) = (
  λ m. elim ((In-append_iff k ns (n ∷ [])).0 m) [
    | inl l ↦ fresh l
    | inr r ↦ elim r [ inl e ↦ new (inl (sym e)) | inr z ↦ z ]
  ],
  Distinct-push ns n (λ m. new (inr m)) d,
)

names-push :
    (tasks : List (Text × Stage)) (name : Text) (stage : Stage)
    → names_of (tasks ++ (name, stage) ∷ []) ≡ names_of tasks ++ name ∷ []
names-push [] name stage = refl
names-push (t ∷ tasks) name stage = ap (t.0 ∷◌) (names-push tasks name stage)

names-await :
    (name : Text) (stage : Stage) (tasks : List (Text × Stage))
    → names_of (map (λ (t : Text × Stage). if t.0 == name then (t.0, stage) else t) tasks)
      ≡ names_of tasks
names-await name stage [] = refl
names-await name stage (t ∷ tasks) = ground (arith, names-await name stage tasks)

module _ (name : Text) (s q : Overview) (p : q.pending ≡ s.pending) (t : q.tasks ≡ s.tasks)
    (h : IsTracked s) where
  finish-IsTracked : IsTracked (finish name q)
  finish-IsTracked =
      rw (p, t)
        (record {
          same = ap (filter (λ n. not (n == name))) h.same ∙ names-without name s.tasks;
          single = Distinct-without name s.pending h.single;
        })

  await-IsTracked : (stage : Stage) → IsTracked (await name stage q)
  await-IsTracked stage =
      rw (p, t) (record { same = h.same ∙ sym (names-await name stage s.tasks); single = h.single })

  begin-IsTracked : (stage : Stage) → is_pending name s ≡ false → IsTracked (begin name stage q)
  begin-IsTracked stage idle =
      rw (p, t)
        (record {
          same = ap (λ ns. ns ++ name ∷ []) h.same ∙ sym (names-push s.tasks name stage);
          single =
              Distinct-push s.pending name (λ m. absurd (ground (arith, any-In name s.pending)))
                h.single;
        })

  same-IsTracked : IsTracked q
  same-IsTracked = rw (p, t) h

adopt-keeps :
    (stored : Rule) (s : Overview)
    → ((adopt stored s).pending ≡ s.pending)
      × ((adopt stored s).tasks ≡ s.tasks)
      × ((adopt stored s).writes ≡ s.writes)
      × ((adopt stored s).left ≡ s.left)
unfolding adopt load
adopt-keeps stored s = ground arith

drop_rule-keeps :
    (name : Text) (s : Overview)
    → ((drop_rule name s).pending ≡ s.pending)
      × ((drop_rule name s).tasks ≡ s.tasks)
      × ((drop_rule name s).writes ≡ s.writes)
      × ((drop_rule name s).left ≡ s.left)
unfolding load
drop_rule-keeps name s = ground arith

was_read-IsTracked :
    (name : Text) (enabled : Bool) (r : Result Rule) (s : Overview)
    → IsTracked s
    → IsTracked (was_read name enabled r s)
unfolding was_read
was_read-IsTracked name enabled (failed reason) s h =
    elim (Bool-cases (not s.left && not (is_aborted reason))) [
      | inl told ↦ rw told (finish-IsTracked name s (say (failed_with reason) s) refl refl h)
      | inr quiet ↦ rw quiet (finish-IsTracked name s s refl refl h)
    ]
was_read-IsTracked name enabled (ok latest) s h = elim (Bool-cases s.left) [
  | inl gone ↦ rw gone (finish-IsTracked name s s refl refl h)
  | inr here ↦
      rw here
        (await-IsTracked name s (send (updates name (with_enabled enabled latest)) s) refl refl h _)
]

was_written-IsTracked :
    (name : Text) (next : Rule) (r : Option ApiError) (s : Overview)
    → IsTracked s
    → IsTracked (was_written name next r s)
unfolding was_written
was_written-IsTracked name next none s h =
    let (p, t, _, _) = adopt-keeps next s in
    finish-IsTracked name s (say saved (adopt next s)) p t h
was_written-IsTracked name next (some reason) s h =
    let warned_state = say (warned reason) s in
    let (p, t, _, _) = adopt-keeps next warned_state in
    elim (Bool-cases (is_saved reason)) [
      | inl stored ↦ rw stored (finish-IsTracked name s (adopt next warned_state) p t h)
      | inr lost ↦ elim (Bool-cases (is_unreachable reason)) [
        | inl away ↦ elim (Bool-cases s.left) [
          | inl gone ↦ rw (lost, away, gone) (finish-IsTracked name s (say uncertain s) refl refl h)
          | inr here ↦
              rw (lost, away, here) (await-IsTracked name s (say uncertain s) refl refl h rereading)
        ]
        | inr bad ↦
            rw (lost, bad) (finish-IsTracked name s (say (failed_with reason) s) refl refl h)
      ]
    ]

was_reread-IsTracked :
    (name : Text) (r : Result Rule) (s : Overview) → IsTracked s → IsTracked (was_reread name r s)
unfolding was_reread
was_reread-IsTracked name (ok stored) s h =
    let (p, t, _, _) = adopt-keeps stored s in finish-IsTracked name s (adopt stored s) p t h
was_reread-IsTracked name (failed reason) s h = finish-IsTracked name s s refl refl h

was_asked-IsTracked :
    (name : Text) (agreed : Bool) (s : Overview) → IsTracked s → IsTracked (was_asked name agreed s)
unfolding was_asked
was_asked-IsTracked name agreed s h = elim (Bool-cases (not agreed || s.left)) [
  | inl ends ↦ rw ends (finish-IsTracked name s s refl refl h)
  | inr goes ↦ rw goes (await-IsTracked name s (send (deletes name) s) refl refl h deleting)
]

was_deleted-IsTracked :
    (name : Text) (r : Option ApiError) (s : Overview)
    → IsTracked s
    → IsTracked (was_deleted name r s)
unfolding was_deleted
was_deleted-IsTracked name none s h =
    let (p, t, _, _) = drop_rule-keeps name (say deleted s) in
    finish-IsTracked name s (drop_rule name (say deleted s)) p t h
was_deleted-IsTracked name (some reason) s h =
    let (p, t, _, _) = drop_rule-keeps name (say (warned reason) s) in
    elim (Bool-cases (is_saved reason)) [
      | inl stored ↦
          rw stored (finish-IsTracked name s (drop_rule name (say (warned reason) s)) p t h)
      | inr lost ↦ elim (Bool-cases (is_unreachable reason)) [
        | inl away ↦ elim (Bool-cases s.left) [
          | inl gone ↦ rw (lost, away, gone) (finish-IsTracked name s (say uncertain s) refl refl h)
          | inr here ↦
              rw (lost, away, here) (finish-IsTracked name s (load (say uncertain s)) refl refl h)
        ]
        | inr bad ↦
            rw (lost, bad) (finish-IsTracked name s (say (failed_with reason) s) refl refl h)
      ]
    ]

starts-IsTracked :
    (name : Text) (stage : Stage) (s : Overview)
    → IsTracked s
    → IsTracked (if is_pending name s then s else begin name stage s)
starts-IsTracked name stage s h = elim (Bool-cases (is_pending name s)) [
  | inl waits ↦ rw waits h
  | inr idle ↦ rw idle (begin-IsTracked name s s refl refl h stage idle)
]

on_read-IsTracked :
    (name : Text) (r : Result Rule) (o : Option Stage) (s : Overview)
    → IsTracked s
    → IsTracked (on_read name r o s)
on_read-IsTracked name r none s h = h
on_read-IsTracked name r (some (reading enabled)) s h = was_read-IsTracked name enabled r s h
on_read-IsTracked name r (some (writing next)) s h = h
on_read-IsTracked name r (some rereading) s h = was_reread-IsTracked name r s h
on_read-IsTracked name r (some asking) s h = h
on_read-IsTracked name r (some deleting) s h = h

on_answer-IsTracked :
    (name : Text) (r : Option ApiError) (o : Option Stage) (s : Overview)
    → IsTracked s
    → IsTracked (on_answer name r o s)
on_answer-IsTracked name r none s h = h
on_answer-IsTracked name r (some (reading enabled)) s h = h
on_answer-IsTracked name r (some (writing next)) s h = was_written-IsTracked name next r s h
on_answer-IsTracked name r (some rereading) s h = h
on_answer-IsTracked name r (some asking) s h = h
on_answer-IsTracked name r (some deleting) s h = was_deleted-IsTracked name r s h

on_confirm-IsTracked :
    (name : Text) (agreed : Bool) (o : Option Stage) (s : Overview)
    → IsTracked s
    → IsTracked (on_confirm name agreed o s)
on_confirm-IsTracked name agreed none s h = h
on_confirm-IsTracked name agreed (some (reading enabled)) s h = h
on_confirm-IsTracked name agreed (some (writing next)) s h = h
on_confirm-IsTracked name agreed (some rereading) s h = h
on_confirm-IsTracked name agreed (some asking) s h = was_asked-IsTracked name agreed s h
on_confirm-IsTracked name agreed (some deleting) s h = h

lists-keeps :
    (own : ℕ) (r : Result (Option (List Rule))) (s : Overview)
    → ((list_answered own r s).pending ≡ s.pending) × ((list_answered own r s).tasks ≡ s.tasks)
unfolding list_answered
lists-keeps own (ok value) s = ground arith
lists-keeps own (failed reason) s = ground arith

step-IsTracked : (e : OverviewEvent) (s : Overview) → IsTracked s → IsTracked (step e s)
unfolding load leave list_finished set_enabled remove
step-IsTracked loads s h = h
step-IsTracked leaves s h = h
step-IsTracked (lists own r) s h =
    let (p, t) = lists-keeps own r s in same-IsTracked [] s (list_answered own r s) p t h
step-IsTracked (settles own) s h = elim (Bool-cases (is_current own s)) [
  | inl mine ↦ rw mine h
  | inr other ↦ rw other h
]
step-IsTracked (switches name enabled) s h = starts-IsTracked name (reading enabled) s h
step-IsTracked (removes name) s h = starts-IsTracked name asking s h
step-IsTracked (reads name r) s h = on_read-IsTracked name r (stage_of name s) s h
step-IsTracked (answers name r) s h = on_answer-IsTracked name r (stage_of name s) s h
step-IsTracked (confirms name agreed) s h = on_confirm-IsTracked name agreed (stage_of name s) s h

run-keeps : (es : List OverviewEvent) (s : Overview) → IsTracked s → IsTracked (run es s)
run-keeps [] s h = h
run-keeps (e ∷ es) s h = run-keeps es (step e s) (step-IsTracked e s h)

-- Whatever is switched, deleted and answered, in whatever order, the rules whose switch and Delete wait
-- are exactly those with a call under way, and a rule has one call at a time.
pub run-IsTracked : (es : List OverviewEvent) → IsTracked (run es opened)
run-IsTracked es = run-keeps es opened (record { same = refl; single = tt })
