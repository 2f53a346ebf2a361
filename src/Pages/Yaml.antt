-- ===== src/Pages/Yaml.antt =====
-- app/web/ui/src/routes/YamlPage.svelte, the script: config.yaml as text. The notice of a moved server is
-- that of moved.svelte.ts, which the page shares; the field is disabled while a task runs.
pub mod Sent
pub mod Edits
use jumpway.Prelude.{
  ℕ, suc, ◌-◌, Bool, true, false, not, ◌&&◌, ◌||◌, List, [], ◌∷◌, ◌++◌, Option, none, some, is_some,
  Text, text_eq, is_empty, ltb, nat_beq, any, if◌then◌else◌, ◌==◌,
}
use jumpway.Settings.{Urls, MovedLinkOptions}
use jumpway.Status.{Status}
use jumpway.Moved.{MovedState, begin_write, record_write, after_refresh}
use jumpway.Api.{ApiError, is_saved, is_aborted, error_message, Result, ok, failed}
use jumpway.Pages.{
  Saying, saved, warned, reloaded, WriteFailure, request_failed, write_failure, owns,
}

-- `due` is the load whose promise has not settled yet. The calls of `save` wait for three answers in
-- turn: `putting` is the text whose write runs, `moving` the texts that are on disk and wait for the
-- status, `rereading` those that wait to be read again. `asking` counts the open questions of `reload`,
-- and `reloading` is a reload that runs, and whether it was asked about.
pub record Yaml : Type 0 where
  pub text : Text
  pub baseline : Text
  pub ready : Bool
  pub loading : Bool
  pub saving : Bool
  pub load_error : Option ApiError
  pub failure : Option WriteFailure
  pub controller : Option ℕ
  pub issued : ℕ
  pub due : Option ℕ
  pub putting : Option Text
  pub moving : List Text
  pub rereading : List Text
  pub asking : ℕ
  pub reloading : Option Bool
  pub other_tasks : ℕ
  pub moved : MovedState
  pub said : List Saying
  pub sent : List Text

abbrev pub is_busy : Yaml → Bool
is_busy s =
    ltb 0 s.other_tasks || is_some s.putting || not (is_empty s.rereading) || is_some s.reloading

abbrev pub is_dirty : Yaml → Bool
is_dirty s = s.ready && not (s.text == s.baseline)

unfoldable pub adopt : Text → Yaml → Yaml
adopt yaml s = record s { text = yaml; baseline = yaml; ready = true }

unfoldable pub load : Yaml → Yaml
load s = record s {
  controller = some (suc s.issued);
  due = some (suc s.issued);
  issued = suc s.issued;
  loading = true;
  load_error = none;
}

unfoldable pub load_answered : ℕ → Result Text → Yaml → Yaml
unfolding adopt
load_answered own (ok yaml) s =
    let settled = record s { due = none } in
    if not (owns s.due own)
    then s
    else if owns s.controller own
    then adopt yaml settled
    else settled
load_answered own (failed reason) s =
    let settled = record s { due = none } in
    if not (owns s.due own)
    then s
    else if owns s.controller own && not (is_aborted reason)
    then record settled { load_error = some reason }
    else settled

unfoldable pub load_finished : ℕ → Yaml → Yaml
load_finished own s =
    if owns s.controller own && not (is_some s.due)
    then record s { controller = none; loading = false }
    else s

-- What `onMount` returns.
unfoldable pub unmount : Yaml → Yaml
unmount s = record s { controller = none }

unfoldable pub edit : Text → Yaml → Yaml
edit yaml s = if is_busy s || not s.ready then s else record s { text = yaml }

-- The button beside a load error.
unfoldable pub retry : Yaml → Yaml
unfolding load
retry s = if is_some s.load_error then load s else s

-- `save` up to its write; `requested` is the number of the status poller's last load.
unfoldable pub save : ℕ → Yaml → Yaml
save requested s = if not s.ready || is_busy s || s.loading then s else record s {
  failure = none;
  moved = begin_write requested s.moved;
  saving = true;
  putting = some s.text;
  sent = s.sent ++ s.text ∷ [];
}

-- The text is on disk, and `afterWrite` has begun.
unfoldable pub keep_saved : Text → Bool → Saying → Yaml → Yaml
keep_saved yaml applied saying s = record s {
  saving = false;
  putting = none;
  baseline = yaml;
  said = s.said ++ saying ∷ [];
  moved = record_write [] applied s.moved;
  moving = s.moving ++ yaml ∷ [];
}

unfoldable pub put_failed : Text → ApiError → Yaml → Yaml
unfolding keep_saved
put_failed yaml reason s =
    if is_saved reason
    then keep_saved yaml false (warned reason) s
    else record s { failure = some (write_failure reason); saving = false; putting = none }

abbrev pub settle : Option Text → Option ApiError → Yaml → Yaml
settle none r s = s
settle (some yaml) none s = keep_saved yaml true saved s
settle (some yaml) (some reason) s = put_failed yaml reason s

unfoldable pub put_answered : Option ApiError → Yaml → Yaml
unfolding keep_saved put_failed
put_answered r s = settle s.putting r s

abbrev pub lacks : Text → List Text → Bool
lacks yaml texts = not (any (λ x. x == yaml) texts)

-- One call fewer waits with this text.
pub leave_one : Text → List Text → List Text
leave_one yaml [] = []
leave_one yaml (x ∷ texts) =
    let rest = x ∷ leave_one yaml texts in if x == yaml then texts else rest

unfoldable pub reread_answered : Text → Result Text → Yaml → Yaml
unfolding adopt
reread_answered yaml (ok raw) s =
    let read = record s { rereading = leave_one yaml s.rereading } in
    if lacks yaml s.rereading then s else if s.text == yaml then adopt raw read else read
reread_answered yaml (failed reason) s = if lacks yaml s.rereading then s else record s {
  rereading = leave_one yaml s.rereading;
  failure = some (request_failed (error_message reason));
}

unfoldable pub start_reload : Bool → Yaml → Yaml
start_reload agreed s = record s { failure = none; reloading = some agreed }

-- `reload` up to its question or its request, and from the answer to the question.
unfoldable pub reload : Yaml → Yaml
unfolding start_reload
reload s =
    if not s.ready || is_busy s || s.loading
    then s
    else if is_dirty s
    then record s { asking = suc s.asking }
    else start_reload false s

unfoldable pub agree : Bool → Yaml → Yaml
unfolding start_reload
agree agreed s =
    let told = record s { asking = s.asking - 1 } in
    if nat_beq s.asking 0
    then s
    else if not agreed || is_busy s
    then told
    else start_reload true told

unfoldable pub reload_answered : Result Text → Yaml → Yaml
unfolding adopt
reload_answered (ok raw) s =
    if is_some s.reloading
    then record (adopt raw s) { reloading = none; said = s.said ++ reloaded ∷ [] }
    else s
reload_answered (failed reason) s =
    if is_some s.reloading
    then record s { reloading = none; failure = some (request_failed (error_message reason)) }
    else s

abbrev pub unopened : MovedState → Yaml
unopened notice = record {
  text = [];
  baseline = [];
  ready = false;
  loading = false;
  saving = false;
  load_error = none;
  failure = none;
  controller = none;
  issued = 0;
  due = none;
  putting = none;
  moving = [];
  rereading = [];
  asking = 0;
  reloading = none;
  other_tasks = 0;
  moved = notice;
  said = [];
  sent = [];
}

pub data YamlEvent : Type 0 where
  retries unmounts reloads : YamlEvent
  loaded : ℕ → Result Text → YamlEvent
  load_ends : ℕ → YamlEvent
  edits : Text → YamlEvent
  saves : (requested : ℕ) → YamlEvent
  put_ends : Option ApiError → YamlEvent
  refreshed : Text → Option Status → YamlEvent
  reread : Text → Result Text → YamlEvent
  agrees : Bool → YamlEvent
  reload_ends : Result Text → YamlEvent
  -- What the rest of the page does: other tasks, and the notice.
  others : (tasks : ℕ) → YamlEvent
  notices : MovedState → YamlEvent

module _ (urls : Urls) (page : MovedLinkOptions) where
  -- The answer of `status.refresh()`: where the page stays, the text is read again.
  unfoldable pub moved_answered : Text → Option Status → Yaml → Yaml
  moved_answered yaml current s =
      let (notice, shown) = after_refresh urls page current s.moved in
      if lacks yaml s.moving then s else record s {
        moved = notice;
        moving = leave_one yaml s.moving;
        rereading = if shown then s.rereading else s.rereading ++ yaml ∷ [];
      }

  abbrev pub step : YamlEvent → Yaml → Yaml
  step retries s = retry s
  step unmounts s = unmount s
  step reloads s = reload s
  step (loaded own r) s = load_answered own r s
  step (load_ends own) s = load_finished own s
  step (edits yaml) s = edit yaml s
  step (saves requested) s = save requested s
  step (put_ends r) s = put_answered r s
  step (refreshed yaml current) s = moved_answered yaml current s
  step (reread yaml r) s = reread_answered yaml r s
  step (agrees agreed) s = agree agreed s
  step (reload_ends r) s = reload_answered r s
  step (others tasks) s = record s { other_tasks = tasks }
  step (notices notice) s = record s { moved = notice }

  abbrev pub run : List YamlEvent → Yaml → Yaml
  run [] s = s
  run (e ∷ es) s = run es (step e s)

-- The page as it is mounted.
unfoldable pub mounted : MovedState → Yaml
unfolding load
mounted notice = load (unopened notice)
