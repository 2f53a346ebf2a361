-- ===== src/Pages/Editor/Saving.antt =====
-- What the page saves.
use jumpway.Prelude.{
  ℕ, ◌+◌, ◌≤◌, Bool, true, false, List, [], ◌∷◌, ◌++◌, Option, none, some, is_some, Text, text_eq,
  filter, ◌≡◌, inl, inr, refl, arith, Bool-cases, length,
}
use jumpway.Wire.{Rule}
use jumpway.Draft.{RuleDraft}
use jumpway.ReadRule.Errors.{ReadContext, ok as accepted}
use jumpway.ReadRule.{read_rule}
use jumpway.ReadRule.Sound.{IsWellFormed}
use jumpway.Api.{ApiError, is_saved, ok, failed}
use jumpway.Pages.{RuleWrite, creates, updates, deletes, Saying, saved, warned}
use jumpway.Pages.Editor.{
  Editor, load_peers, load_web_ui, peers_answered, web_ui_answered, load_finished, unmount, edit,
  refuse, remove, remove_asked, open_builder, close_builder, adopt, adopt_copy, load, rule_answered,
  retry, mark_clean, save, keep_saved, settle, save_answered, keep_deleted, remove_answered,
  open_page, write_answered, EditorEvent, retries, unmounts, saves, removes, builds, built,
  peers_come, web_ui_comes, rule_comes, load_ends, edits, save_ends, agrees, delete_ends, others,
  step, mounted, run,
}

abbrev is_creation : RuleWrite → Bool
is_creation (creates rule) = true
is_creation _ = false

abbrev pub creations : List RuleWrite → ℕ
creations writes = length (filter is_creation writes)

abbrev pub rule_of : RuleWrite → Option Rule
rule_of (creates rule) = some rule
rule_of (updates name rule) = some rule
rule_of (deletes name) = none

-- A rule that is sent is well formed.
abbrev pub IsSound : RuleWrite → Type 0
IsSound w = (rule : Rule) → rule_of w ≡ some rule → IsWellFormed rule

-- The phases of the page: nothing is loaded into a form that shows, nor saved while it loads.
pub record IsPhased (s : Editor) : Type 0 where
  pub due_loading : is_some s.due ≡ true → (s.loading ≡ true) × (s.ready ≡ false)
  pub failed_unready : is_some s.load_error ≡ true → (s.ready ≡ false) × (s.due ≡ none)
  pub flies : is_some s.in_flight ≡ true → (s.ready ≡ true) × (s.due ≡ none)

-- What is created is created while the page has no name for it. A creation whose answer is lost is not
-- confirmed, and the page goes on as if it were not on disk.
pub record CreatesOnce (s : Editor) : Type 0 where
  pub unnamed : s.saved_name ≡ none → creations s.confirmed ≡ 0
  pub once : creations s.confirmed ≤ 1
  pub flying : (rule : Rule) → s.in_flight ≡ some (creates rule) → s.saved_name ≡ none

module _ (number : Text → Option ℕ) (stringify : RuleDraft → Text) (encode : Text → Text) where
  pub load-IsPhased :
      (s : Editor)
      → s.in_flight ≡ none
      → s.ready ≡ false
      → s.due ≡ none
      → IsPhased (load number stringify encode s)
  unfolding load adopt load_peers load_web_ui
  load-IsPhased s n r d = ground arith

  pub step-IsPhased :
      (e : EditorEvent) (s : Editor) → IsPhased s → IsPhased (step number stringify encode e s)
  unfolding retry unmount save remove open_builder close_builder peers_answered web_ui_answered
      rule_answered load_finished edit save_answered remove_asked remove_answered adopt adopt_copy
      keep_saved keep_deleted mark_clean
  step-IsPhased retries s h = ground arith
  step-IsPhased unmounts s h = ground arith
  step-IsPhased saves s h = ground arith
  step-IsPhased removes s h = ground arith
  step-IsPhased builds s h = ground arith
  step-IsPhased built s h = ground arith
  step-IsPhased (peers_come own (ok v)) s h = ground arith
  step-IsPhased (peers_come own (failed v)) s h = ground arith
  step-IsPhased (web_ui_comes own (ok v)) s h = ground arith
  step-IsPhased (web_ui_comes own (failed v)) s h = ground arith
  step-IsPhased (rule_comes own (ok rule) taken) s h = ground arith
  step-IsPhased (rule_comes own (failed reason) taken) s h = ground arith
  step-IsPhased (load_ends own) s h = ground arith
  step-IsPhased (edits d) s h = ground arith
  step-IsPhased (save_ends r hash) s h = ground arith
  step-IsPhased (agrees name agreed) s h = ground arith
  step-IsPhased (delete_ends name r) s h = ground arith
  step-IsPhased (others tasks) s h = ground arith

  -- What is in flight is a rule that `readRule` makes of the draft as it is.
  abbrev pub IsRead : Editor → RuleWrite → Type 0
  IsRead s w =
      (rule : Rule) × (c : ReadContext) × (rule_of w ≡ some rule)
      × (read_rule number s.draft (some c) ≡ accepted rule)

  abbrev pub InFlightRead : Editor → Type 0
  InFlightRead s = (w : RuleWrite) → s.in_flight ≡ some w → IsRead s w

pub creations-push :
    (ws : List RuleWrite) (w : RuleWrite)
    → creations (ws ++ w ∷ []) ≡ creations ws + creations (w ∷ [])
creations-push [] w = omega arith
creations-push (v ∷ ws) w = ground (arith, creations-push ws w)

module _ (number : Text → Option ℕ) (stringify : RuleDraft → Text) (encode : Text → Text) where
  keep_saved-CreatesOnce :
      (w : RuleWrite) (rule : Rule) (saying : Saying) (hash : Text) (s : Editor)
      → s.in_flight ≡ some w
      → rule_of w ≡ some rule
      → CreatesOnce s
      → CreatesOnce (keep_saved number stringify encode w rule saying hash s)
  unfolding keep_saved mark_clean
  keep_saved-CreatesOnce (creates r) rule saying hash s f e h =
      ground (arith, creations-push s.confirmed (creates r), h.flying r)
  keep_saved-CreatesOnce (updates n r) rule saying hash s f e h =
      ground (arith, creations-push s.confirmed (updates n r))
  keep_saved-CreatesOnce (deletes n) rule saying hash s f e h = ground arith

  refuse-CreatesOnce :
      (reason : ApiError) (s : Editor) → CreatesOnce s → CreatesOnce (refuse reason s)
  refuse-CreatesOnce reason s h = ground arith

  write_answered-CreatesOnce :
      (w : RuleWrite) (rule : Rule) (r : Option ApiError) (hash : Text) (s : Editor)
      → s.in_flight ≡ some w
      → rule_of w ≡ some rule
      → CreatesOnce s
      → CreatesOnce (write_answered number stringify encode w rule r hash s)
  write_answered-CreatesOnce w rule none hash s f e h =
      keep_saved-CreatesOnce w rule saved hash s f e h
  write_answered-CreatesOnce w rule (some reason) hash s f e h =
      elim (Bool-cases (is_saved reason)) [
        | inl kept ↦ rw kept (keep_saved-CreatesOnce w rule (warned reason) hash s f e h)
        | inr lost ↦ rw lost (refuse-CreatesOnce reason s h)
      ]

  settle-CreatesOnce :
      (o : Option RuleWrite) (r : Option ApiError) (hash : Text) (s : Editor)
      → s.in_flight ≡ o
      → CreatesOnce s
      → CreatesOnce (settle number stringify encode o r hash s)
  settle-CreatesOnce none r hash s f h = h
  settle-CreatesOnce (some (creates rule)) r hash s f h =
      write_answered-CreatesOnce (creates rule) rule r hash s f refl h
  settle-CreatesOnce (some (updates name rule)) r hash s f h =
      write_answered-CreatesOnce (updates name rule) rule r hash s f refl h
  settle-CreatesOnce (some (deletes name)) r hash s f h = h

  save_answered-CreatesOnce :
      (r : Option ApiError) (hash : Text) (s : Editor)
      → CreatesOnce s
      → CreatesOnce (save_answered number stringify encode r hash s)
  unfolding save_answered
  save_answered-CreatesOnce r hash s h = settle-CreatesOnce s.in_flight r hash s refl h

  step-CreatesOnce :
      (e : EditorEvent) (s : Editor)
      → CreatesOnce s
      → CreatesOnce (step number stringify encode e s)
  unfolding retry load load_peers load_web_ui unmount save remove open_builder close_builder
      peers_answered web_ui_answered rule_answered load_finished edit save_answered remove_asked
      remove_answered adopt adopt_copy keep_saved keep_deleted mark_clean
  step-CreatesOnce retries s h = ground arith
  step-CreatesOnce unmounts s h = ground arith
  step-CreatesOnce saves s h = ground arith
  step-CreatesOnce removes s h = ground arith
  step-CreatesOnce builds s h = ground arith
  step-CreatesOnce built s h = ground arith
  step-CreatesOnce (peers_come own (ok v)) s h = ground arith
  step-CreatesOnce (peers_come own (failed v)) s h = ground arith
  step-CreatesOnce (web_ui_comes own (ok v)) s h = ground arith
  step-CreatesOnce (web_ui_comes own (failed v)) s h = ground arith
  step-CreatesOnce (rule_comes own (ok rule) taken) s h = ground arith
  step-CreatesOnce (rule_comes own (failed reason) taken) s h = ground arith
  step-CreatesOnce (load_ends own) s h = ground arith
  step-CreatesOnce (edits d) s h = ground arith
  step-CreatesOnce (save_ends r hash) s h = save_answered-CreatesOnce r hash s h
  step-CreatesOnce (agrees name agreed) s h = ground arith
  step-CreatesOnce (delete_ends name none) s h =
      ground (arith, creations-push s.confirmed (deletes name))
  step-CreatesOnce (delete_ends name (some reason)) s h =
      ground (arith, creations-push s.confirmed (deletes name))
  step-CreatesOnce (others tasks) s h = ground arith

  pub run-keeps :
      (es : List EditorEvent) (s : Editor)
      → CreatesOnce s
      → CreatesOnce (run number stringify encode es s)
  run-keeps [] s h = h
  run-keeps (e ∷ es) s h = run-keeps es (step number stringify encode e s) (step-CreatesOnce e s h)

  pub mounted-CreatesOnce :
      (name : Option Text) (source : Text) (sequence : ℕ)
      → CreatesOnce (mounted number stringify encode name source sequence)
  unfolding load adopt load_peers load_web_ui open_page
  mounted-CreatesOnce name source sequence = ground arith
