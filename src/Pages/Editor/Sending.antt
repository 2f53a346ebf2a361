-- ===== src/Pages/Editor/Sending.antt =====
-- What the page sends, and that what it keeps as saved is what it sent.
use jumpway.Prelude.{
  ℕ, Bool, true, false, not, ◌||◌, List, [], ◌∷◌, ◌++◌, Option, none, some, Text, text_eq,
  if◌then◌else◌, ◌≡◌, ◌≢◌, ◌⊎◌, inl, inr, refl, sym, ap, ◌∙◌, arith, Bool-cases, All, All-append,
}
use jumpway.Wire.{Rule}
use jumpway.Draft.{RuleDraft}
use jumpway.ReadRule.Errors.{no_errors, ReadResult, ok as accepted, errors as refused}
use jumpway.ReadRule.{read_rule}
use jumpway.ReadRule.Sound.{read_rule-IsWellFormed}
use jumpway.Api.{ApiError, is_saved, ok, failed}
use jumpway.Pages.{RuleWrite, creates, updates, deletes}
use jumpway.Pages.Editor.{
  Editor, is_busy, load_peers, load_web_ui, peers_answered, web_ui_answered, load_finished, unmount,
  edit, context_of, write_of, lacks, remove, remove_asked, open_builder, close_builder, adopt,
  adopt_copy, load, rule_answered, retry, mark_clean, save, keep_saved, settle, save_answered,
  keep_deleted, remove_answered, open_page, write_answered, EditorEvent, retries, unmounts, saves,
  removes, builds, built, peers_come, web_ui_comes, rule_comes, load_ends, edits, save_ends, agrees,
  delete_ends, others, step, mounted, run,
}
use jumpway.Pages.Editor.Saving.{
  rule_of, IsSound, IsPhased, InFlightRead, step-IsPhased, load-IsPhased,
}

rule_of-write_of : (name : Option Text) (rule : Rule) → rule_of (write_of name rule) ≡ some rule
rule_of-write_of none rule = refl
rule_of-write_of (some name) rule = refl

module _ (number : Text → Option ℕ) (stringify : RuleDraft → Text) (encode : Text → Text) where
  abbrev reads : Editor → ReadResult
  reads s = read_rule number s.draft (some (context_of s))

  -- A save that sends a rule, and one that does not.
  pub record Sends (s q : Editor) : Type 0 where
    pub rule : Rule
    pub read : reads s ≡ accepted rule
    pub flight : q.in_flight ≡ some (write_of s.saved_name rule)
    pub more : q.sent ≡ s.sent ++ write_of s.saved_name rule ∷ []
    pub draft : q.draft ≡ s.draft

  pub record Keeps (s q : Editor) : Type 0 where
    pub flight : (q.in_flight ≡ none) ⊎ ((q.in_flight ≡ s.in_flight) × (q.draft ≡ s.draft))
    pub same : (q.sent ≡ s.sent) ⊎ ((name : Text) × (q.sent ≡ s.sent ++ deletes name ∷ []))

  on_read : Editor → ReadResult → Editor
  on_read s (refused e) = record s { errors = e }
  on_read s (accepted rule) = record s {
    errors = no_errors;
    save_error = none;
    saving = true;
    in_flight = some (write_of s.saved_name rule);
    sent = s.sent ++ write_of s.saved_name rule ∷ [];
  }

  on_read-cases :
      (s : Editor) (r : ReadResult) → reads s ≡ r → Sends s (on_read s r) ⊎ Keeps s (on_read s r)
  unfolding on_read
  on_read-cases s (refused e) h = inr (record { flight = inr (refl, refl); same = inl refl })
  on_read-cases s (accepted rule) h =
      inl (record { rule = rule; read = h; flight = refl; more = refl; draft = refl })

  save-on_read :
      (s : Editor)
      → save number stringify encode s
        ≡ (if not s.ready || is_busy s || s.loading || s.building then s else on_read s (reads s))
  unfolding save on_read
  save-on_read s = refl

  pub save-cases :
      (s : Editor)
      → Sends s (save number stringify encode s) ⊎ Keeps s (save number stringify encode s)
  save-cases s = elim (Bool-cases (not s.ready || is_busy s || s.loading || s.building)) [
    | inl held ↦
        rw (save-on_read, held) (inr (record { flight = inr (refl, refl); same = inl refl }))
    | inr free ↦ rw (save-on_read, free) (on_read-cases s (reads s) refl)
  ]

  write_answered-Keeps :
      (w : RuleWrite) (rule : Rule) (r : Option ApiError) (hash : Text) (s : Editor)
      → Keeps s (write_answered number stringify encode w rule r hash s)
  unfolding keep_saved mark_clean
  write_answered-Keeps w rule none hash s = record { flight = inl refl; same = inl refl }
  write_answered-Keeps w rule (some reason) hash s = elim (Bool-cases (is_saved reason)) [
    | inl kept ↦ rw kept (record { flight = inl refl; same = inl refl })
    | inr lost ↦ rw lost (record { flight = inl refl; same = inl refl })
  ]

  settle-Keeps :
      (o : Option RuleWrite) (r : Option ApiError) (hash : Text) (s : Editor)
      → Keeps s (settle number stringify encode o r hash s)
  settle-Keeps none r hash s = record { flight = inr (refl, refl); same = inl refl }
  settle-Keeps (some (creates rule)) r hash s = write_answered-Keeps (creates rule) rule r hash s
  settle-Keeps (some (updates name rule)) r hash s =
      write_answered-Keeps (updates name rule) rule r hash s
  settle-Keeps (some (deletes name)) r hash s = record {
    flight = inr (refl, refl);
    same = inl refl;
  }

  remove_asked-Keeps :
      (name : Text) (agreed : Bool) (s : Editor) → Keeps s (remove_asked name agreed s)
  unfolding remove_asked
  remove_asked-Keeps name agreed s = elim (Bool-cases (lacks name s.asked)) [
    | inl stray ↦ rw stray (record { flight = inr (refl, refl); same = inl refl })
    | inr known ↦ elim (Bool-cases agreed) [
      | inl goes ↦ rw (known, goes) (record { flight = inr (refl, refl); same = inr (name, refl) })
      | inr ends ↦ rw (known, ends) (record { flight = inr (refl, refl); same = inl refl })
    ]
  ]

  step-Keeps :
      (e : EditorEvent) (s : Editor)
      → IsPhased s
      → (e ≢ saves)
      → Keeps s (step number stringify encode e s)
  unfolding retry load load_peers load_web_ui unmount remove open_builder close_builder
      peers_answered web_ui_answered rule_answered load_finished edit save_answered remove_asked
      remove_answered adopt adopt_copy keep_deleted mark_clean
  step-Keeps retries s p n = ground arith
  step-Keeps unmounts s p n = ground arith
  step-Keeps saves s p n = absurd (n refl)
  step-Keeps removes s p n = ground arith
  step-Keeps builds s p n = ground arith
  step-Keeps built s p n = ground arith
  step-Keeps (peers_come own (ok v)) s p n = ground arith
  step-Keeps (peers_come own (failed v)) s p n = ground arith
  step-Keeps (web_ui_comes own (ok v)) s p n = ground arith
  step-Keeps (web_ui_comes own (failed v)) s p n = ground arith
  step-Keeps (rule_comes own (ok rule) taken) s p n = ground arith
  step-Keeps (rule_comes own (failed reason) taken) s p n = ground arith
  step-Keeps (load_ends own) s p n = ground arith
  step-Keeps (edits d) s p n = ground arith
  step-Keeps (save_ends r hash) s p n = settle-Keeps s.in_flight r hash s
  step-Keeps (agrees name agreed) s p n = remove_asked-Keeps name agreed s
  step-Keeps (delete_ends name none) s p n = ground arith
  step-Keeps (delete_ends name (some reason)) s p n = ground arith
  step-Keeps (others tasks) s p n = ground arith

  -- The save in flight is the rule of the draft, and what was sent is well formed.
  record IsHonest (s : Editor) : Type 0 where
    phased : IsPhased s
    flying : InFlightRead number stringify encode s
    sound : All IsSound s.sent

  Keeps-IsHonest : (s q : Editor) → IsPhased q → Keeps s q → IsHonest s → IsHonest q
  Keeps-IsHonest s q p k h = record {
    phased = p;
    flying = λ w e. elim k.flight [
      | inl idle ↦ absurd (cc (e, idle))
      | inr (f, d) ↦ rw d (h.flying w (cc (e, f)))
    ];
    sound = elim k.same [
      | inl e ↦ rw e h.sound
      | inr (name, e) ↦
          rw e
            (All-append IsSound s.sent (deletes name ∷ []) h.sound ((λ rule r. absurd (cc r)), tt))
    ];
  }

  Sends-IsHonest : (s q : Editor) → IsPhased q → Sends s q → IsHonest s → IsHonest q
  Sends-IsHonest s q p k h = record {
    phased = p;
    flying = λ w e.
        let same : write_of s.saved_name k.rule ≡ w = cc (e, k.flight) in
        rw k.draft (
          k.rule,
          context_of s,
          ap rule_of (sym same) ∙ rule_of-write_of s.saved_name k.rule,
          k.read,
        );
    sound = rw k.more (
        All-append IsSound s.sent (write_of s.saved_name k.rule ∷ []) h.sound (
          (λ rule r.
              let made : read_rule number s.draft (some (context_of s)) ≡ accepted rule =
                cc (k.read, r, rule_of-write_of s.saved_name k.rule) in
              (read_rule-IsWellFormed number s.draft (some (context_of s)) rule made).0),
          tt,
        ));
  }

  saves-IsHonest : (s : Editor) → IsHonest s → IsHonest (save number stringify encode s)
  saves-IsHonest s h =
      let p = step-IsPhased number stringify encode saves s h.phased in
      elim (save-cases s) [
        | inl sends ↦ Sends-IsHonest s (save number stringify encode s) p sends h
        | inr keeps ↦ Keeps-IsHonest s (save number stringify encode s) p keeps h
      ]

  other-IsHonest :
      (e : EditorEvent) (s : Editor)
      → e ≢ saves
      → IsHonest s
      → IsHonest (step number stringify encode e s)
  other-IsHonest e s n h =
      Keeps-IsHonest s (step number stringify encode e s)
        (step-IsPhased number stringify encode e s h.phased) (step-Keeps e s h.phased n) h

  step-IsHonest :
      (e : EditorEvent) (s : Editor) → IsHonest s → IsHonest (step number stringify encode e s)
  step-IsHonest retries s h = other-IsHonest retries s (λ q. cc) h
  step-IsHonest unmounts s h = other-IsHonest unmounts s (λ q. cc) h
  step-IsHonest saves s h = saves-IsHonest s h
  step-IsHonest removes s h = other-IsHonest removes s (λ q. cc) h
  step-IsHonest builds s h = other-IsHonest builds s (λ q. cc) h
  step-IsHonest built s h = other-IsHonest built s (λ q. cc) h
  step-IsHonest (peers_come own r) s h = other-IsHonest (peers_come own r) s (λ q. cc) h
  step-IsHonest (web_ui_comes own r) s h = other-IsHonest (web_ui_comes own r) s (λ q. cc) h
  step-IsHonest (rule_comes own r taken) s h = other-IsHonest (rule_comes own r taken) s (λ q. cc) h
  step-IsHonest (load_ends own) s h = other-IsHonest (load_ends own) s (λ q. cc) h
  step-IsHonest (edits d) s h = other-IsHonest (edits d) s (λ q. cc) h
  step-IsHonest (save_ends r hash) s h = other-IsHonest (save_ends r hash) s (λ q. cc) h
  step-IsHonest (agrees name agreed) s h = other-IsHonest (agrees name agreed) s (λ q. cc) h
  step-IsHonest (delete_ends name r) s h = other-IsHonest (delete_ends name r) s (λ q. cc) h
  step-IsHonest (others tasks) s h = other-IsHonest (others tasks) s (λ q. cc) h

  run-IsHonest :
      (es : List EditorEvent) (s : Editor)
      → IsHonest s
      → IsHonest (run number stringify encode es s)
  run-IsHonest [] s h = h
  run-IsHonest (e ∷ es) s h =
      run-IsHonest es (step number stringify encode e s) (step-IsHonest e s h)

  fresh :
      (name : Option Text) (source : Text) (sequence : ℕ)
      → ((open_page name source sequence).in_flight ≡ none)
        × ((open_page name source sequence).ready ≡ false)
        × ((open_page name source sequence).due ≡ none)
  unfolding open_page
  fresh name source sequence = (refl, refl, refl)

  mounted-fresh :
      (name : Option Text) (source : Text) (sequence : ℕ)
      → ((mounted number stringify encode name source sequence).in_flight ≡ none)
        × ((mounted number stringify encode name source sequence).sent ≡ [])
  unfolding load adopt load_peers load_web_ui open_page
  mounted-fresh name source sequence = ground arith

  mounted-IsHonest :
      (name : Option Text) (source : Text) (sequence : ℕ)
      → IsHonest (mounted number stringify encode name source sequence)
  mounted-IsHonest name source sequence = record {
    phased =
        load-IsPhased number stringify encode (open_page name source sequence)
          (fresh name source sequence).0 (fresh name source sequence).1
          (fresh name source sequence).2;
    flying = λ w e. absurd (cc (e, (mounted-fresh name source sequence).0));
    sound = rw ((mounted-fresh name source sequence).1) tt;
  }

-- Whatever happens on a page, in whatever order, every rule that it sends is well formed, and while a
-- save runs the form still holds a draft that `readRule` reads as the rule that is being saved.
pub run-sends_drafts :
    (number : Text → Option ℕ) (stringify : RuleDraft → Text) (encode : Text → Text)
    (name : Option Text) (source : Text) (sequence : ℕ) (es : List EditorEvent)
    → let s =
        run number stringify encode es (mounted number stringify encode name source sequence) in
      All IsSound s.sent × InFlightRead number stringify encode s
run-sends_drafts number stringify encode name source sequence es =
    let h =
      run-IsHonest number stringify encode es (mounted number stringify encode name source sequence)
        (mounted-IsHonest number stringify encode name source sequence) in
    (h.sound, h.flying)
