-- ===== src/Pages/Overview.antt =====
-- app/web/ui/src/routes/OverviewPage.svelte, the script: the list of rules, their switches and their
-- Delete. A call of `setEnabled` or `remove` that waits is a task; answers come in any order.
pub mod Tasks
pub mod Summary
pub mod Leave
use jumpway.Prelude.{
  ℕ, suc, Bool, true, false, not, ◌&&◌, ◌||◌, List, [], ◌∷◌, ◌++◌, map, Option, none, some, is_some,
  list, Text, text_eq, any, filter, find?, nat_beq, lookup, if◌then◌else◌, ◌==◌,
}
use jumpway.Wire.{Rule}
use jumpway.Api.{ApiError, is_saved, is_unreachable, is_aborted, Result, ok, failed}
use jumpway.Pages.{
  RuleWrite, updates, deletes, Saying, saved, deleted, uncertain, warned, failed_with,
}

-- What a call waits for: the rule as it is stored, the answer to a write, the rule again after an answer
-- was lost, the answer to the question, or that to the delete.
pub data Stage : Type 0 where
  reading : (enabled : Bool) → Stage
  writing : (next : Rule) → Stage
  rereading asking deleting : Stage

-- `controller` holds the number of the last list that was asked for, `left` is `scope.signal.aborted`,
-- and `refreshes` counts the calls of `status.refresh`. `writes` are the requests that were sent.
pub record Overview : Type 0 where
  pub rules : Option (List Rule)
  pub error : Option ApiError
  pub loading : Bool
  pub controller : Option ℕ
  pub issued : ℕ
  pub pending : List Text
  pub left : Bool
  pub refreshes : ℕ
  pub said : List Saying
  pub writes : List RuleWrite
  pub tasks : List (Text × Stage)

abbrev pub opened : Overview
opened = record {
  rules = none;
  error = none;
  loading = false;
  controller = none;
  issued = 0;
  pending = [];
  left = false;
  refreshes = 0;
  said = [];
  writes = [];
  tasks = [];
}

abbrev pub is_current : ℕ → Overview → Bool
is_current own s = elim s.controller [ none ↦ false | some n ↦ nat_beq n own ]

unfoldable pub load : Overview → Overview
load s = record s {
  controller = some (suc s.issued);
  issued = suc s.issued;
  loading = true;
  error = none;
}

-- The answer to list `own`, and the `finally` behind it.
unfoldable pub list_answered : ℕ → Result (Option (List Rule)) → Overview → Overview
list_answered own (ok value) s =
    if is_current own s then record s { rules = some (list value) } else s
list_answered own (failed reason) s =
    if is_current own s && not (is_aborted reason) then record s { error = some reason } else s

unfoldable pub list_finished : ℕ → Overview → Overview
list_finished own s =
    if is_current own s then record s { controller = none; loading = false } else s

-- What `onMount` returns.
unfoldable pub leave : Overview → Overview
leave s = record s { left = true; controller = none }

abbrev replace_rule : Rule → Rule → Rule
replace_rule stored r = if r.name == stored.name then stored else r

unfoldable pub adopt : Rule → Overview → Overview
unfolding load
adopt stored s =
    let next = record s {
      rules = elim s.rules [ none ↦ none | some rules ↦ some (map (replace_rule stored) rules) ];
      refreshes = suc s.refreshes;
    } in
    if s.left || not (is_some s.rules) then s else if is_some s.controller then load next else next

abbrev pub is_pending : Text → Overview → Bool
is_pending name s = any (λ n. n == name) s.pending

abbrev without : Text → List (Text × Stage) → List (Text × Stage)
without name tasks = filter (λ t. not (t.0 == name)) tasks

-- A call begins, goes on to wait for something else, and ends with its `finally`.
abbrev pub begin : Text → Stage → Overview → Overview
begin name stage s = record s {
  pending = s.pending ++ name ∷ [];
  tasks = s.tasks ++ (name, stage) ∷ [];
}

abbrev pub await : Text → Stage → Overview → Overview
await name stage s = record s {
  tasks = map (λ (t : Text × Stage). if t.0 == name then (t.0, stage) else t) s.tasks;
}

abbrev pub finish : Text → Overview → Overview
finish name s = record s {
  pending = filter (λ n. not (n == name)) s.pending;
  tasks = without name s.tasks;
}

abbrev pub say : Saying → Overview → Overview
say saying s = record s { said = s.said ++ saying ∷ [] }

abbrev pub send : RuleWrite → Overview → Overview
send write s = record s { writes = s.writes ++ write ∷ [] }

unfoldable pub set_enabled : Text → Bool → Overview → Overview
set_enabled name enabled s = if is_pending name s then s else begin name (reading enabled) s

-- `{ ...rest, disabled: true }` or `rest`
abbrev pub with_enabled : Bool → Rule → Rule
with_enabled enabled latest = record latest { disabled = if enabled then none else some true }

-- The rule is read.
unfoldable pub was_read : Text → Bool → Result Rule → Overview → Overview
was_read name enabled (failed reason) s =
    finish name (if not s.left && not (is_aborted reason) then say (failed_with reason) s else s)
was_read name enabled (ok latest) s =
    let next = with_enabled enabled latest in
    if s.left then finish name s else await name (writing next) (send (updates name next) s)

-- The update is answered.
unfoldable pub was_written : Text → Rule → Option ApiError → Overview → Overview
unfolding adopt
was_written name next none s = finish name (say saved (adopt next s))
was_written name next (some reason) s =
    if is_saved reason
    then finish name (adopt next (say (warned reason) s))
    else if is_unreachable reason
    then (if s.left then finish name (say uncertain s) else await name rereading (say uncertain s))
    else finish name (say (failed_with reason) s)

unfoldable pub was_reread : Text → Result Rule → Overview → Overview
unfolding adopt
was_reread name (ok stored) s = finish name (adopt stored s)
was_reread name (failed reason) s = finish name s

unfoldable pub remove : Text → Overview → Overview
remove name s = if is_pending name s then s else begin name asking s

-- The question is answered.
unfoldable pub was_asked : Text → Bool → Overview → Overview
was_asked name agreed s =
    if not agreed || s.left then finish name s else await name deleting (send (deletes name) s)

abbrev pub drop_rule : Text → Overview → Overview
drop_rule name s =
    if s.left || not (is_some s.rules)
    then s
    else load (record s {
      rules = elim s.rules [
        | none ↦ none
        | some rules ↦ some (filter (λ (r : Rule). not (r.name == name)) rules)
      ];
      refreshes = suc s.refreshes;
    })

-- The delete is answered.
unfoldable pub was_deleted : Text → Option ApiError → Overview → Overview
unfolding load
was_deleted name none s = finish name (drop_rule name (say deleted s))
was_deleted name (some reason) s =
    if is_saved reason
    then finish name (drop_rule name (say (warned reason) s))
    else if is_unreachable reason
    then finish name (if s.left then say uncertain s else load (say uncertain s))
    else finish name (say (failed_with reason) s)

pub data OverviewEvent : Type 0 where
  loads leaves : OverviewEvent
  lists : ℕ → Result (Option (List Rule)) → OverviewEvent
  settles : ℕ → OverviewEvent
  switches : Text → Bool → OverviewEvent
  removes : Text → OverviewEvent
  -- The answer that the call for a name waits for.
  reads : Text → Result Rule → OverviewEvent
  answers : Text → Option ApiError → OverviewEvent
  confirms : Text → Bool → OverviewEvent

abbrev pub stage_of : Text → Overview → Option Stage
stage_of name s = lookup name s.tasks

abbrev pub on_read : Text → Result Rule → Option Stage → Overview → Overview
on_read name r (some (reading enabled)) s = was_read name enabled r s
on_read name r (some rereading) s = was_reread name r s
on_read name r _ s = s

abbrev pub on_answer : Text → Option ApiError → Option Stage → Overview → Overview
on_answer name r (some (writing next)) s = was_written name next r s
on_answer name r (some deleting) s = was_deleted name r s
on_answer name r _ s = s

abbrev pub on_confirm : Text → Bool → Option Stage → Overview → Overview
on_confirm name agreed (some asking) s = was_asked name agreed s
on_confirm name agreed _ s = s

abbrev pub step : OverviewEvent → Overview → Overview
step loads s = load s
step leaves s = leave s
step (lists own r) s = list_answered own r s
step (settles own) s = list_finished own s
step (switches name enabled) s = set_enabled name enabled s
step (removes name) s = remove name s
step (reads name r) s = on_read name r (stage_of name s) s
step (answers name r) s = on_answer name r (stage_of name s) s
step (confirms name agreed) s = on_confirm name agreed (stage_of name s) s

abbrev pub run : List OverviewEvent → Overview → Overview
run [] s = s
run (e ∷ es) s = run es (step e s)
