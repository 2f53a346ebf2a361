-- ===== src/Pages/Editor.antt =====
-- app/web/ui/src/routes/RuleEditorPage.svelte, the script: one rule, loaded, edited, saved and deleted.
-- `JSON.stringify`, `encodeURIComponent` and `Number` are parameters. The fields are disabled while a
-- task runs, so `edit` changes nothing then; and a load is tried again only where one has failed.
mod State
pub mod Creating
pub mod Labels
pub mod Saving
pub mod Sending
unfoldable pub use State.*
use jumpway.Prelude.{
  ℕ, suc, Bool, true, false, not, ◌&&◌, ◌||◌, List, [], ◌∷◌, ◌++◌, map, Option, none, some, is_some,
  get_or, list, Text, codes, text_eq, is_empty, any, filter, ltb, nat_beq, if◌then◌else◌, ◌==◌,
}
use jumpway.Wire.{Rule, Address}
use jumpway.Way.{nonempty}
use jumpway.Endpoint.{is_text}
use jumpway.Draft.{RuleDraft, ListenDraft, HopDraft, UrlDraft, draft_from, empty_draft}
use jumpway.Draft.Duplicate.{duplicate_name}
use jumpway.ReadRule.Errors.{
  DraftErrors, no_errors, ReadContext, ReadResult, ok as accepted, errors as refused,
}
use jumpway.ReadRule.{read_rule}
use jumpway.Api.{ApiError, is_saved, is_aborted, Result, ok, failed}
use jumpway.Pages.{
  RuleWrite, creates, updates, deletes, Saying, saved, deleted, warned, failed_with,
}

module _ (number : Text → Option ℕ) (stringify : RuleDraft → Text) (encode : Text → Text) where
  unfoldable pub snapshot : RuleDraft → Text
  snapshot d = stringify (without_ids d)

  abbrev pub is_dirty : Editor → Bool
  is_dirty s = s.ready && not (snapshot s.draft == s.baseline)

  unfoldable pub adopt : RuleDraft → Editor → Editor
  adopt next s = record s { draft = next; baseline = snapshot next; ready = true }

  unfoldable pub adopt_copy : Rule → Option (List Rule) → Editor → Editor
  adopt_copy rule taken s =
      let (next, sequence) = draft_from s.sequence rule in
      let (blank, sequence') = empty_draft sequence in
      let name = duplicate_name rule.name (map (λ (r : Rule). r.name) (list taken)) in
      record s {
        draft = named next name;
        sequence = sequence';
        baseline = snapshot blank;
        ready = true;
      }

  abbrev load_rule : Option Text → Editor → Editor
  load_rule none s =
      let (blank, sequence) = empty_draft s.sequence in
      adopt blank (record s { sequence = sequence })
  load_rule (some name) s = record s {
    controller = some (suc s.issued);
    due = some (suc s.issued);
    issued = suc s.issued;
    loading = true;
  }

  unfoldable pub load : Editor → Editor
  unfolding adopt load_peers load_web_ui
  load s = load_rule (stored_name s) (
      load_web_ui (
        load_peers (record s {
          controller = none;
          load_error = none;
          save_error = none;
          errors = no_errors;
        })))

  -- `taken` is what the list of peers gave, where a copy waits for it.
  abbrev on_rule : Rule → Option (List Rule) → Editor → Editor
  on_rule rule taken s =
      let (next, sequence) = draft_from s.sequence rule in
      if is_some s.saved_name
      then adopt next (record s { sequence = sequence })
      else adopt_copy rule taken s

  unfoldable pub rule_answered : ℕ → Result Rule → Option (List Rule) → Editor → Editor
  unfolding adopt adopt_copy
  rule_answered own (ok rule) taken s =
      let settled = record s { due = none } in
      if not (holds s.due own)
      then s
      else if holds s.controller own
      then on_rule rule taken settled
      else settled
  rule_answered own (failed reason) taken s =
      let settled = record s { due = none } in
      if not (holds s.due own)
      then s
      else if holds s.controller own && not (is_aborted reason)
      then record settled { load_error = some reason }
      else settled

  -- The button beside a load error.
  unfoldable pub retry : Editor → Editor
  unfolding load
  retry s = if is_some s.load_error then load s else s

  unfoldable pub mark_clean : Editor → Editor
  mark_clean s = record s { baseline = snapshot s.draft }

  -- `save` up to its request.
  unfoldable pub save : Editor → Editor
  save s =
      if not s.ready || is_busy s || s.loading || s.building
      then s
      else elim (read_rule number s.draft (some (context_of s))) [
        | refused e ↦ record s { errors = e }
        | accepted rule ↦ record s {
          errors = no_errors;
          save_error = none;
          saving = true;
          in_flight = some (write_of s.saved_name rule);
          sent = s.sent ++ write_of s.saved_name rule ∷ [];
        }
      ]

  abbrev rule_route : Text → Text
  rule_route name = codes "#/rules/" ++ encode name

  -- `save` once its request is on disk.
  unfoldable pub keep_saved : RuleWrite → Rule → Saying → Text → Editor → Editor
  unfolding mark_clean
  keep_saved write rule saying hash s = record (mark_clean s) {
    saving = false;
    in_flight = none;
    saved_name = some rule.name;
    peers = elim s.peers [ none ↦ none | some rules ↦ some (others_than write rules ++ rule ∷ []) ];
    confirmed = s.confirmed ++ write ∷ [];
    said = s.said ++ saying ∷ [];
    refreshes = suc s.refreshes;
    went = if hash == rule_route rule.name then s.went else s.went ++ rule_route rule.name ∷ [];
  }

  abbrev write_answered : RuleWrite → Rule → Option ApiError → Text → Editor → Editor
  write_answered write rule none hash s = keep_saved write rule saved hash s
  write_answered write rule (some reason) hash s =
      if is_saved reason then keep_saved write rule (warned reason) hash s else refuse reason s

  abbrev pub settle : Option RuleWrite → Option ApiError → Text → Editor → Editor
  settle (some (creates rule)) r hash s = write_answered (creates rule) rule r hash s
  settle (some (updates name rule)) r hash s = write_answered (updates name rule) rule r hash s
  settle _ r hash s = s

  -- The rest of `save`; `hash` is that of the page that is shown then.
  unfoldable pub save_answered : Option ApiError → Text → Editor → Editor
  unfolding keep_saved
  save_answered r hash s = settle s.in_flight r hash s

  unfoldable pub keep_deleted : Text → Saying → Editor → Editor
  unfolding mark_clean
  keep_deleted name saying s = record (mark_clean s) {
    deleting = except name s.deleting;
    confirmed = s.confirmed ++ deletes name ∷ [];
    said = s.said ++ saying ∷ [];
    refreshes = suc s.refreshes;
    went = s.went ++ home ∷ [];
  }

  abbrev delete_answered : Text → Option ApiError → Editor → Editor
  delete_answered name none s = keep_deleted name deleted s
  delete_answered name (some reason) s =
      if is_saved reason
      then keep_deleted name (warned reason) s
      else record s { deleting = except name s.deleting; save_error = some reason }

  unfoldable pub remove_answered : Text → Option ApiError → Editor → Editor
  unfolding keep_deleted
  remove_answered name r s = if lacks name s.deleting then s else delete_answered name r s

pub data EditorEvent : Type 0 where
  retries unmounts saves removes builds built : EditorEvent
  peers_come : ℕ → Result (Option (List Rule)) → EditorEvent
  web_ui_comes : ℕ → Result Address → EditorEvent
  rule_comes : ℕ → Result Rule → Option (List Rule) → EditorEvent
  load_ends : ℕ → EditorEvent
  edits : RuleDraft → EditorEvent
  save_ends : Option ApiError → Text → EditorEvent
  agrees : Text → Bool → EditorEvent
  delete_ends : Text → Option ApiError → EditorEvent
  others : (tasks : ℕ) → EditorEvent

module _ (number : Text → Option ℕ) (stringify : RuleDraft → Text) (encode : Text → Text) where
  abbrev pub step : EditorEvent → Editor → Editor
  step retries s = retry number stringify encode s
  step unmounts s = unmount s
  step saves s = save number stringify encode s
  step removes s = remove s
  step builds s = open_builder s
  step built s = close_builder s
  step (peers_come own r) s = peers_answered own r s
  step (web_ui_comes own r) s = web_ui_answered own r s
  step (rule_comes own r taken) s = rule_answered number stringify encode own r taken s
  step (load_ends own) s = load_finished own s
  step (edits d) s = edit d s
  step (save_ends r hash) s = save_answered number stringify encode r hash s
  step (agrees name agreed) s = remove_asked name agreed s
  step (delete_ends name r) s = remove_answered number stringify encode name r s
  step (others tasks) s = record s { other_tasks = tasks }

  -- The page as it is mounted.
  abbrev pub mounted : Option Text → Text → ℕ → Editor
  mounted name source sequence = load number stringify encode (open_page name source sequence)

  abbrev pub run : List EditorEvent → Editor → Editor
  run [] s = s
  run (e ∷ es) s = run es (step e s)
