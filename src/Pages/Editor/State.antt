-- ===== src/Pages/Editor/State.antt =====
-- app/web/ui/src/routes/RuleEditorPage.svelte: the variables of the page, and what it does with them
-- apart from reading and writing drafts.
use jumpway.Prelude.{
  ℕ, suc, Bool, true, false, not, ◌&&◌, ◌||◌, List, [], ◌∷◌, ◌++◌, map, Option, none, some, is_some,
  get_or, list, Text, codes, text_eq, is_empty, any, filter, ltb, nat_beq, if◌then◌else◌, ◌==◌,
}
use jumpway.Wire.{Rule, Address}
use jumpway.Way.{nonempty}
use jumpway.Draft.{RuleDraft, HopDraft, UrlDraft, empty_draft}
use jumpway.ReadRule.Errors.{DraftErrors, no_errors, ReadContext}
use jumpway.Api.{ApiError, is_aborted, Result, ok, failed}
use jumpway.Pages.{RuleWrite, creates, updates, deletes, Saying, failed_with}

-- `controller` and its like hold the number of the request whose answer is awaited, and `due` that of the
-- rule that is asked for until its promise settles, which it does once. `in_flight` is the
-- save that runs, `asked` the names whose deletion is asked about, `deleting` those that are being
-- deleted, and `other_tasks` counts what else keeps `busy` up. `sent` and `confirmed` are the requests so
-- far, and those of them that an answer said are on disk, which one without an answer may be too;
-- `went` are the hashes that the router was sent to.
pub record Editor : Type 0 where
  pub saved_name : Option Text
  pub source : Text
  pub draft : RuleDraft
  pub sequence : ℕ
  pub ready : Bool
  pub baseline : Text
  pub due : Option ℕ
  pub loading : Bool
  pub saving : Bool
  pub load_error : Option ApiError
  pub save_error : Option ApiError
  pub errors : DraftErrors
  pub building : Bool
  pub peers : Option (List Rule)
  pub web_ui : Option Address
  pub controller : Option ℕ
  pub peer_controller : Option ℕ
  pub web_controller : Option ℕ
  pub issued : ℕ
  pub in_flight : Option RuleWrite
  pub asked : List Text
  pub deleting : List Text
  pub other_tasks : ℕ
  pub sent : List RuleWrite
  pub confirmed : List RuleWrite
  pub said : List Saying
  pub refreshes : ℕ
  pub went : List Text

abbrev pub is_busy : Editor → Bool
is_busy s = ltb 0 s.other_tasks || is_some s.in_flight || not (is_empty s.deleting)

abbrev pub holds : Option ℕ → ℕ → Bool
holds none n = false
holds (some i) n = nat_beq i n

-- The draft without the ids, which `snapshot` leaves out.
abbrev pub plain_urls : List UrlDraft → List UrlDraft
plain_urls urls = map (λ (u : UrlDraft). record u { id = 0 }) urls

abbrev pub plain_hops : List HopDraft → List HopDraft
plain_hops hops = map (λ (h : HopDraft). record h { id = 0; urls = plain_urls h.urls }) hops

abbrev pub without_ids : RuleDraft → RuleDraft
without_ids d = record d {
  listen = record (d.listen) { way = plain_hops d.listen.way };
  forward_way = plain_hops d.forward_way;
}

abbrev pub named : RuleDraft → Option Text → RuleDraft
named d none = d
named d (some name) = record d { name = name }

unfoldable pub load_peers : Editor → Editor
load_peers s = record s { peer_controller = some (suc s.issued); issued = suc s.issued }

unfoldable pub load_web_ui : Editor → Editor
load_web_ui s = record s { web_controller = some (suc s.issued); issued = suc s.issued }

-- `savedName ?? (source || null)`
abbrev pub stored_name : Editor → Option Text
stored_name s = elim s.saved_name [
  | some name ↦ some name
  | none ↦ if nonempty s.source then some s.source else none
]

unfoldable pub peers_answered : ℕ → Result (Option (List Rule)) → Editor → Editor
peers_answered own (ok value) s =
    if holds s.peer_controller own then record s { peers = some (list value) } else s
peers_answered own (failed reason) s =
    if holds s.peer_controller own && not (is_aborted reason)
    then record s { said = s.said ++ failed_with reason ∷ [] }
    else s

unfoldable pub web_ui_answered : ℕ → Result Address → Editor → Editor
web_ui_answered own (ok address) s =
    if holds s.web_controller own then record s { web_ui = some address } else s
web_ui_answered own (failed reason) s =
    if holds s.web_controller own then record s { web_ui = none } else s

unfoldable pub load_finished : ℕ → Editor → Editor
load_finished own s =
    if holds s.controller own && not (is_some s.due)
    then record s { controller = none; loading = false }
    else s

-- What `onMount` returns.
unfoldable pub unmount : Editor → Editor
unmount s = record s { controller = none; peer_controller = none; web_controller = none }

unfoldable pub edit : RuleDraft → Editor → Editor
edit d s = if is_busy s || not s.ready then s else record s { draft = d }

abbrev pub context_of : Editor → ReadContext
context_of s = record { others = get_or s.peers []; self = s.saved_name; web_ui = s.web_ui }

abbrev pub write_of : Option Text → Rule → RuleWrite
write_of none rule = creates rule
write_of (some name) rule = updates name rule

-- The rules that are kept beside the one that is saved.
abbrev pub others_than : RuleWrite → List Rule → List Rule
others_than (updates previous rule) rules = filter (λ (r : Rule). not (r.name == previous)) rules
others_than _ rules = rules

abbrev pub refuse : ApiError → Editor → Editor
refuse reason s = record s { save_error = some reason; saving = false; in_flight = none }

abbrev pub lacks : Text → List Text → Bool
lacks name names = not (any (λ n. n == name) names)

abbrev pub except : Text → List Text → List Text
except name names = filter (λ n. not (n == name)) names

-- `remove` up to its question, then up to its request, and the rest.
unfoldable pub remove : Editor → Editor
remove s = elim s.saved_name [
  | none ↦ s
  | some name ↦
      if not s.ready || is_busy s || s.building
      then s
      else record s { asked = s.asked ++ name ∷ [] }
]

unfoldable pub remove_asked : Text → Bool → Editor → Editor
remove_asked name agreed s =
    let asked = except name s.asked in
    if lacks name s.asked then s else if not agreed then record s { asked = asked } else record s {
      asked = asked;
      save_error = none;
      deleting = s.deleting ++ name ∷ [];
      sent = s.sent ++ deletes name ∷ [];
    }

abbrev pub home : Text
home = codes "#/"

-- `openBuilder` up to the dialog, and its `finally`.
unfoldable pub open_builder : Editor → Editor
open_builder s = if s.building || is_busy s then s else record s { building = true }

unfoldable pub close_builder : Editor → Editor
close_builder s = record s { building = false }

-- The page as it opens, for a stored name, or none and the name that a copy is taken from.
unfoldable pub open_page : Option Text → Text → ℕ → Editor
open_page name source sequence =
    let (blank, sequence') = empty_draft sequence in
    record {
      saved_name = name;
      source = source;
      draft = blank;
      sequence = sequence';
      ready = false;
      due = none;
      baseline = [];
      loading = false;
      saving = false;
      load_error = none;
      save_error = none;
      errors = no_errors;
      building = false;
      peers = none;
      web_ui = none;
      controller = none;
      peer_controller = none;
      web_controller = none;
      issued = 0;
      in_flight = none;
      asked = [];
      deleting = [];
      other_tasks = 0;
      sent = [];
      confirmed = [];
      said = [];
      refreshes = 0;
      went = [];
    }
