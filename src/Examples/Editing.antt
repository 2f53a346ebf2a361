-- ===== src/Examples/Editing.antt =====
-- The requests, messages and scripts of the pages, at concrete events.
use jumpway.Prelude.{
  ℕ, ◌≤◌, true, false, List, [], ◌∷◌, none, some, Text, text_beq, codes, trim, decimal, ◌≡◌, refl,
  All,
}
use jumpway.Api.{ok, response, Course}
use jumpway.Toast.{success, error, ToastEvent, says, dismisses, no_toasts, run as run_toasts}
use jumpway.Toast.Timers.{IsTimed, run-IsTimed}
use jumpway.Draft.{RuleDraft}
use jumpway.Moved.{cleared}
use jumpway.Pages.Overview.{
  Overview, opened, leave, OverviewEvent, loads, lists, switches, removes, reads, answers,
  run as run_overview,
}
use jumpway.Pages.Overview.Tasks.{IsTracked, run-IsTracked}
use jumpway.Pages.Overview.Leave.{leave-sends_nothing}
use jumpway.Pages.{creates}
use jumpway.ReadRule.{read_rule}
use jumpway.ReadRule.Errors.{has_errors}
use jumpway.ReadRule.Fields.{parse_port, has_scheme, read_way}
use jumpway.ReadRule.Rows.{read_rows}
use jumpway.Way.{normalize_way}
use jumpway.Endpoint.{join_host_port}
use jumpway.Draft.{way_of}
use jumpway.Examples.Drafts.{tunnel}
use jumpway.Pages.Editor.{
  open_page, load, load_peers, load_web_ui, adopt, snapshot, edit, save, EditorEvent, edits, saves,
  save_ends, mounted, run as run_editor,
}
use jumpway.Pages.Editor.Saving.{creations, IsSound, InFlightRead}
use jumpway.Pages.Editor.Creating.{run-CreatesOnce}
use jumpway.Pages.Editor.Sending.{run-sends_drafts}
use jumpway.Pages.Yaml
use jumpway.Pages.Yaml.Edits.{run-keeps_edits}
use jumpway.Pages.Settings
use jumpway.Pages.Settings.Writes.{IsSendable, IsFaithful, run-IsFaithful}
use jumpway.Examples.Data.{digits_only, web_rule, rules, tunnel_draft}
use jumpway.Examples.Moving.{plain_urls, page}

-- A response with status 200 whose body is read as it is.
abbrev course : Course
course = record {
  aborted_before = false;
  timed_out = false;
  aborted_during = false;
  fetched = response 200 (codes "{}");
}

-- A success and an error, and the first is dismissed after it has gone by itself.
abbrev messages : List (ℕ × ToastEvent)
messages =
    (0, says success (codes "Saved."))
    ∷ (10, says error (codes "No answer."))
    ∷ (7_000, dismisses 1)
    ∷ []

run-IsTimed_example : IsTimed (run_toasts messages no_toasts)
run-IsTimed_example = run-IsTimed messages

-- Two presses of a switch, the answers to the first, and a deletion.
abbrev presses : List OverviewEvent
presses =
    loads
    ∷ lists 1 (ok (some rules))
    ∷ switches (codes "web") false
    ∷ switches (codes "web") true
    ∷ reads (codes "web") (ok web_rule)
    ∷ removes (codes "lab")
    ∷ answers (codes "web") none
    ∷ []

run-IsTracked_example : IsTracked (run_overview presses opened)
run-IsTracked_example = run-IsTracked presses

-- The page is left while a switch waits for the rule, and the rule comes.
abbrev waiting : Overview
waiting =
    run_overview (loads ∷ lists 1 (ok (some rules)) ∷ switches (codes "web") false ∷ []) opened

abbrev after_leaving : Overview
after_leaving = run_overview (reads (codes "web") (ok web_rule) ∷ []) (leave waiting)

leave-sends_nothing_example :
    (after_leaving.writes ≡ waiting.writes)
    × (after_leaving.issued ≡ waiting.issued)
    × (after_leaving.refreshes ≡ waiting.refreshes)
    × (after_leaving.rules ≡ waiting.rules)
leave-sends_nothing_example =
    leave-sends_nothing (reads (codes "web") (ok web_rule) ∷ []) waiting (tt, tt)

abbrev name_of : RuleDraft → Text
name_of d = d.name

-- A new rule is typed and saved.
abbrev saved_once : List EditorEvent
saved_once = edits tunnel_draft ∷ saves ∷ []

creation_flies :
    (run_editor digits_only name_of trim saved_once
      (mounted digits_only name_of trim none [] 0)).in_flight
    ≡ some (creates tunnel)
unfolding load load_peers load_web_ui adopt snapshot edit open_page save read_rule has_errors
    parse_port has_scheme trim text_beq read_way way_of normalize_way join_host_port decimal
    read_rows
creation_flies = refl

-- It is saved again once its answer has come.
run-CreatesOnce_example :
    let s =
      run_editor digits_only name_of trim saved_once (mounted digits_only name_of trim none [] 0) in
    let last =
      run_editor digits_only name_of trim (save_ends none (codes "#/new") ∷ saves ∷ []) s in
    (creations last.sent ≡ creations s.sent) × (creations last.confirmed ≤ 1)
run-CreatesOnce_example =
    run-CreatesOnce digits_only name_of trim none [] 0 saved_once (saves ∷ []) tunnel none
      (codes "#/new") creation_flies tt

abbrev saved_twice : List EditorEvent
saved_twice = edits tunnel_draft ∷ saves ∷ save_ends none (codes "#/new") ∷ saves ∷ []

run-sends_drafts_example :
    let s =
      run_editor digits_only name_of trim saved_twice
        (mounted digits_only name_of trim none [] 0) in
    All IsSound s.sent × InFlightRead digits_only name_of trim s
run-sends_drafts_example = run-sends_drafts digits_only name_of trim none [] 0 saved_twice

-- The text is loaded and changed; then a load that nobody asked for answers.
abbrev typed : List Yaml.YamlEvent
typed = Yaml.loaded 1 (ok (codes "a: 1")) ∷ Yaml.load_ends 1 ∷ Yaml.edits (codes "a: 2") ∷ []

run-keeps_edits_example :
    (Yaml.step plain_urls page
      (Yaml.saves 3)
      (Yaml.run plain_urls page typed (Yaml.mounted cleared))).text
    ≡ (Yaml.run plain_urls page typed (Yaml.mounted cleared)).text
unfolding Yaml.mounted Yaml.load_answered Yaml.load_finished Yaml.edit text_beq
run-keeps_edits_example =
    run-keeps_edits plain_urls page cleared typed (Yaml.saves 3) refl (λ m. absurd m)
      (λ r. absurd r)

abbrev snapshots : Settings.Snapshots
snapshots = record { address_text = λ d. d.host; bypass_text = λ n. [] }

-- An address is loaded, its port changed, and saved.
abbrev changed : List Settings.FormsEvent
changed =
    Settings.loaded 1 (
      ok (
        record { host = codes "127.0.0.1"; port = 8080 },
        record { list = none; from_env = none; from_file = none },
      ))
    ∷ Settings.load_ends 1
    ∷ Settings.types_port (codes " 9090")
    ∷ Settings.saves_address 2
    ∷ []

run-IsFaithful_example :
    let s =
      Settings.run plain_urls page
        (codes "127.0.0.1")
        snapshots
        changed
        (Settings.mounted cleared) in
    All IsSendable s.sent × IsFaithful s
run-IsFaithful_example =
    run-IsFaithful plain_urls page (codes "127.0.0.1") snapshots cleared changed
