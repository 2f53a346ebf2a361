-- ===== src/Pages/Editor/Creating.antt =====
-- How often the page of RuleEditorPage.svelte creates its rule.
use jumpway.Prelude.{
  ℕ, ◌≤◌, true, List, [], ◌∷◌, ◌++◌, Option, none, some, is_some, Text, text_eq, ◌≡◌, ◌≢◌, ◌⊎◌, inl,
  inr, refl, sym, ap, ◌∙◌, arith, Bool-cases,
}
use jumpway.Wire.{Rule}
use jumpway.Draft.{RuleDraft}
use jumpway.Api.{ApiError, is_saved, ok, failed}
use jumpway.Pages.{RuleWrite, creates, updates, deletes, Saying, saved, warned}
use jumpway.Pages.Editor.{
  Editor, load_peers, load_web_ui, peers_answered, web_ui_answered, load_finished, unmount, edit,
  remove, remove_asked, open_builder, close_builder, adopt, adopt_copy, load, rule_answered, retry,
  mark_clean, save, keep_saved, settle, save_answered, keep_deleted, remove_answered,
  write_answered, write_of, EditorEvent, retries, unmounts, saves, removes, builds, built,
  peers_come, web_ui_comes, rule_comes, load_ends, edits, save_ends, agrees, delete_ends, others,
  step, mounted, run,
}
use jumpway.Pages.Editor.Saving.{
  creations, creations-push, CreatesOnce, run-keeps, mounted-CreatesOnce,
}
use jumpway.Pages.Editor.Sending.{save-cases}

-- The page knows the name of its rule and creates none.
record IsNamed (s : Editor) : Type 0 where
  named : is_some s.saved_name ≡ true
  updating : (rule : Rule) → s.in_flight ≢ some (creates rule)

-- An answer says that the rule is on disk: it is a success, or a failure that came after the rule was saved.
abbrev pub IsOnDisk : Option ApiError → Type 0
IsOnDisk none = Unit
IsOnDisk (some reason) = is_saved reason ≡ true

-- It stays so, and no creation is sent.
abbrev Stays : Editor → Editor → Type 0
Stays s s' = IsNamed s' × (creations s'.sent ≡ creations s.sent)

module _ (number : Text → Option ℕ) (stringify : RuleDraft → Text) (encode : Text → Text) where
  keep_saved-Stays :
      (w : RuleWrite) (rule : Rule) (saying : Saying) (hash : Text) (s : Editor)
      → Stays s (keep_saved number stringify encode w rule saying hash s)
  unfolding keep_saved mark_clean
  keep_saved-Stays w rule saying hash s =
      (record { named = refl; updating = λ r e. ground arith }, refl)

  write_answered-Stays :
      (w : RuleWrite) (rule : Rule) (r : Option ApiError) (hash : Text) (s : Editor)
      → IsNamed s
      → Stays s (write_answered number stringify encode w rule r hash s)
  write_answered-Stays w rule none hash s h = keep_saved-Stays w rule saved hash s
  write_answered-Stays w rule (some reason) hash s h = elim (Bool-cases (is_saved reason)) [
    | inl kept ↦ rw kept (keep_saved-Stays w rule (warned reason) hash s)
    | inr lost ↦ rw lost (record { named = h.named; updating = λ r e. ground arith }, refl)
  ]

  settle-Stays :
      (o : Option RuleWrite) (r : Option ApiError) (hash : Text) (s : Editor)
      → IsNamed s
      → Stays s (settle number stringify encode o r hash s)
  settle-Stays none r hash s h = (h, refl)
  settle-Stays (some (creates rule)) r hash s h =
      write_answered-Stays (creates rule) rule r hash s h
  settle-Stays (some (updates name rule)) r hash s h =
      write_answered-Stays (updates name rule) rule r hash s h
  settle-Stays (some (deletes name)) r hash s h = (h, refl)

  disk-Stays :
      (w : RuleWrite) (rule : Rule) (r : Option ApiError) (hash : Text) (s : Editor)
      → IsOnDisk r
      → Stays s (write_answered number stringify encode w rule r hash s)
  disk-Stays w rule none hash s h = keep_saved-Stays w rule saved hash s
  disk-Stays w rule (some reason) hash s h = rw h (keep_saved-Stays w rule (warned reason) hash s)

  -- A creation that is on disk gives the page its name.
  creation-Stays :
      (o : Option RuleWrite) (rule : Rule) (r : Option ApiError) (hash : Text) (s : Editor)
      → o ≡ some (creates rule)
      → IsOnDisk r
      → Stays s (settle number stringify encode o r hash s)
  creation-Stays none rule r hash s e h = absurd (ground (arith, e))
  creation-Stays (some (creates rule')) rule r hash s e h =
      disk-Stays (creates rule') rule' r hash s h
  creation-Stays (some (updates name rule')) rule r hash s e h = absurd (ground (arith, e))
  creation-Stays (some (deletes name)) rule r hash s e h = absurd (ground (arith, e))

  created-Stays :
      (rule : Rule) (r : Option ApiError) (hash : Text) (s : Editor)
      → s.in_flight ≡ some (creates rule)
      → IsOnDisk r
      → Stays s (save_answered number stringify encode r hash s)
  unfolding save_answered
  created-Stays rule r hash s e h = creation-Stays s.in_flight rule r hash s e h

  save_ends-Stays :
      (r : Option ApiError) (hash : Text) (s : Editor)
      → IsNamed s
      → Stays s (save_answered number stringify encode r hash s)
  unfolding save_answered
  save_ends-Stays r hash s h = settle-Stays s.in_flight r hash s h

  kept :
      (s q : Editor)
      → IsNamed s
      → (q.in_flight ≡ none) ⊎ ((q.in_flight ≡ s.in_flight) × (q.draft ≡ s.draft))
      → (rule : Rule) → q.in_flight ≢ some (creates rule)
  kept s q h (inl idle) rule e = ground (arith, idle, e)
  kept s q h (inr (same, d)) rule e = h.updating rule (sym same ∙ e)

  same_creations :
      (s q : Editor)
      → (q.sent ≡ s.sent) ⊎ ((name : Text) × (q.sent ≡ s.sent ++ deletes name ∷ []))
      → creations q.sent ≡ creations s.sent
  same_creations s q (inl e) = ap creations e
  same_creations s q (inr (name, e)) =
      ap creations e ∙ omega (arith, creations-push s.sent (deletes name))

  save-named : (s : Editor) → (save number stringify encode s).saved_name ≡ s.saved_name
  unfolding save
  save-named s = ground arith

  -- What a page sends that knows the name of its rule.
  creations-named :
      (name : Option Text) (rule : Rule) (ws : List RuleWrite)
      → is_some name ≡ true
      → creations (ws ++ write_of name rule ∷ []) ≡ creations ws
  creations-named none rule ws h = absurd (ground arith)
  creations-named (some name) rule ws h = omega (arith, creations-push ws (updates name rule))

  write_of-named :
      (name : Option Text) (rule r : Rule)
      → is_some name ≡ true
      → some (write_of name rule) ≢ some (creates r)
  write_of-named none rule r h e = ground arith
  write_of-named (some name) rule r h e = ground arith

  save-Stays : (s : Editor) → IsNamed s → Stays s (save number stringify encode s)
  save-Stays s h =
      let named : is_some (save number stringify encode s).saved_name ≡ true =
        ap is_some (save-named s) ∙ h.named in
      elim (save-cases number stringify encode s) [
        | inl sends ↦ (
          record {
            named = named;
            updating =
                λ r e. write_of-named s.saved_name sends.rule r h.named (sym sends.flight ∙ e);
          },
          ap creations sends.more ∙ creations-named s.saved_name sends.rule s.sent h.named,
        )
        | inr keeps ↦ (
          record {
            named = named;
            updating = λ r e. kept s (save number stringify encode s) h keeps.flight r e;
          },
          same_creations s (save number stringify encode s) keeps.same,
        )
      ]

  step-Stays :
      (e : EditorEvent) (s : Editor) → IsNamed s → Stays s (step number stringify encode e s)
  unfolding retry load load_peers load_web_ui unmount remove open_builder close_builder
      peers_answered web_ui_answered rule_answered load_finished edit remove_asked remove_answered
      adopt adopt_copy keep_deleted mark_clean
  step-Stays retries s h = ground (arith, h.named, h.updating)
  step-Stays unmounts s h = ground (arith, h.named, h.updating)
  step-Stays saves s h = save-Stays s h
  step-Stays removes s h = ground (arith, h.named, h.updating)
  step-Stays builds s h = ground (arith, h.named, h.updating)
  step-Stays built s h = ground (arith, h.named, h.updating)
  step-Stays (peers_come own (ok v)) s h = ground (arith, h.named, h.updating)
  step-Stays (peers_come own (failed v)) s h = ground (arith, h.named, h.updating)
  step-Stays (web_ui_comes own (ok v)) s h = ground (arith, h.named, h.updating)
  step-Stays (web_ui_comes own (failed v)) s h = ground (arith, h.named, h.updating)
  step-Stays (rule_comes own (ok rule) taken) s h = ground (arith, h.named, h.updating)
  step-Stays (rule_comes own (failed reason) taken) s h = ground (arith, h.named, h.updating)
  step-Stays (load_ends own) s h = ground (arith, h.named, h.updating)
  step-Stays (edits d) s h = ground (arith, h.named, h.updating)
  step-Stays (save_ends r hash) s h = save_ends-Stays r hash s h
  step-Stays (agrees name agreed) s h =
      ground (arith, h.named, h.updating, creations-push s.sent (deletes name))
  step-Stays (delete_ends name none) s h = ground (arith, h.named, h.updating)
  step-Stays (delete_ends name (some reason)) s h = ground (arith, h.named, h.updating)
  step-Stays (others tasks) s h = (record { named = h.named; updating = h.updating }, refl)

  run-Stays :
      (es : List EditorEvent) (s : Editor)
      → IsNamed s
      → creations (run number stringify encode es s).sent ≡ creations s.sent
  run-Stays [] s h = refl
  run-Stays (e ∷ es) s h =
      let (next, same) = step-Stays e s h in
      run-Stays es (step number stringify encode e s) next ∙ same

-- Whatever has happened on a page, in whatever order: once the answer to a creation says that the rule is
-- on disk, applied or not, no creation is sent any more, whatever happens then, every further save being
-- an update; and no more than that one is confirmed.
pub run-CreatesOnce :
    (number : Text → Option ℕ) (stringify : RuleDraft → Text) (encode : Text → Text)
    (name : Option Text) (source : Text) (sequence : ℕ) (es later : List EditorEvent) (rule : Rule)
    (r : Option ApiError) (hash : Text)
    → let s =
        run number stringify encode es (mounted number stringify encode name source sequence) in
      let last = run number stringify encode (save_ends r hash ∷ later) s in
      s.in_flight ≡ some (creates rule)
      → IsOnDisk r
      → (creations last.sent ≡ creations s.sent) × (creations last.confirmed ≤ 1)
run-CreatesOnce number stringify encode name source sequence es later rule r hash e d =
    let start = mounted number stringify encode name source sequence in
    let s = run number stringify encode es start in
    let h : CreatesOnce s =
      run-keeps number stringify encode es start
        (mounted-CreatesOnce number stringify encode name source sequence) in
    let (named, same) = created-Stays number stringify encode rule r hash s e d in
    (
      run-Stays number stringify encode later (step number stringify encode (save_ends r hash) s)
            named
          ∙ same,
      (run-keeps number stringify encode (save_ends r hash ∷ later) s h).once,
    )
