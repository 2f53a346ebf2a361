-- ===== src/Pages/Yaml/Edits.antt =====
-- What becomes of changes that are not saved.
use jumpway.Prelude.{
  Bool, true, false, List, [], ◌∷◌, Option, none, some, is_some, Text, text_eq, ◌==◌, ==_iff, ◌≡◌,
  ◌⊎◌, inl, inr, refl, ap, arith, In, NotIn, Bool-cases,
}
use jumpway.Settings.{Urls, MovedLinkOptions}
use jumpway.Status.{Status}
use jumpway.Moved.{MovedState}
use jumpway.Api.{Result, ok, failed}
use jumpway.Pages.Yaml.{
  Yaml, is_dirty, adopt, load, load_answered, load_finished, unmount, edit, retry, save, keep_saved,
  put_failed, put_answered, lacks, reread_answered, start_reload, reload, agree, reload_answered,
  moved_answered, YamlEvent, retries, unmounts, reloads, loaded, load_ends, edits, saves, put_ends,
  refreshed, reread, agrees, reload_ends, others, notices, step, run, mounted,
}
use jumpway.Pages.Yaml.Sent.{Remembers, step-Remembers, reread-text, mounted-Remembers}

-- Nothing is loaded into a form that shows, no call is under way before it does, a reload and a write
-- exclude each other, and a reload that was not asked about finds nothing unsaved.
pub record IsCareful (s : Yaml) : Type 0 where
  pub due_unready : is_some s.due ≡ true → s.ready ≡ false
  pub failed_unready : is_some s.load_error ≡ true → (s.ready ≡ false) × (s.due ≡ none)
  pub idle :
      s.ready ≡ false
      → (s.putting ≡ none)
        × (s.moving ≡ [])
        × (s.rereading ≡ [])
        × (s.reloading ≡ none)
        × (s.asking ≡ 0)
  pub apart : is_some s.reloading ≡ true → s.putting ≡ none
  pub clean : s.reloading ≡ some false → s.text ≡ s.baseline

-- The events that may replace what is typed: typing, and a reload that was agreed to.
abbrev pub Replaces : YamlEvent → Yaml → Type 0
Replaces (edits yaml) s = Unit
Replaces (reload_ends r) s = s.reloading ≡ some true
Replaces _ s = ⊥

-- A form that does not show has no call that waits.
shown-waiting :
    (yaml : Text) (ready : Bool) (texts : List Text)
    → (ready ≡ false → texts ≡ [])
    → lacks yaml texts ≡ false
    → ready ≡ true
shown-waiting yaml true texts h known = refl
shown-waiting yaml false texts h known = absurd (ground (arith, ap (lacks yaml) (h refl)))

-- Where the form shows and an answer leaves the loads and tasks of `reload` alone.
Careful-shown :
    (s q : Yaml)
    → s.ready ≡ true
    → (q.ready ≡ true)
      × (q.due ≡ s.due)
      × (q.load_error ≡ s.load_error)
      × (q.putting ≡ s.putting)
      × (q.reloading ≡ s.reloading)
      × ((q.text ≡ q.baseline) ⊎ ((q.text ≡ s.text) × (q.baseline ≡ s.baseline)))
    → IsCareful s
    → IsCareful q
Careful-shown s q e f h = ground arith

reread-IsCareful :
    (yaml : Text) (r : Result Text) (s : Yaml) → IsCareful s → IsCareful (reread_answered yaml r s)
unfolding reread_answered adopt
reread-IsCareful yaml (ok raw) s h = elim (Bool-cases (lacks yaml s.rereading)) [
  | inl stray ↦ rw stray h
  | inr known ↦
      let shown = shown-waiting yaml s.ready s.rereading (λ e. (h.idle e).2) known in
      elim (Bool-cases (s.text == yaml)) [
        | inl same ↦
            rw (known, same) (Careful-shown s _ shown (refl, refl, refl, refl, refl, inl refl) h)
        | inr other ↦
            rw (known, other)
              (Careful-shown s _ shown (shown, refl, refl, refl, refl, inr (refl, refl)) h)
      ]
]
reread-IsCareful yaml (failed reason) s h = elim (Bool-cases (lacks yaml s.rereading)) [
  | inl stray ↦ rw stray h
  | inr known ↦
      let shown = shown-waiting yaml s.ready s.rereading (λ e. (h.idle e).2) known in
      rw known (Careful-shown s _ shown (shown, refl, refl, refl, refl, inr (refl, refl)) h)
]

module _ (urls : Urls) (page : MovedLinkOptions) where
  moved-IsCareful :
      (yaml : Text) (current : Option Status) (s : Yaml)
      → IsCareful s
      → IsCareful (moved_answered urls page yaml current s)
  unfolding moved_answered
  moved-IsCareful yaml current s h = elim (Bool-cases (lacks yaml s.moving)) [
    | inl stray ↦ rw stray h
    | inr known ↦
        let shown = shown-waiting yaml s.ready s.moving (λ e. (h.idle e).1) known in
        rw known (Careful-shown s _ shown (shown, refl, refl, refl, refl, inr (refl, refl)) h)
  ]

  step-IsCareful : (e : YamlEvent) (s : Yaml) → IsCareful s → IsCareful (step urls page e s)
  unfolding retry load unmount reload start_reload load_answered load_finished edit save
      put_answered keep_saved put_failed reread_answered agree reload_answered adopt moved_answered
  step-IsCareful retries s h = ground arith
  step-IsCareful unmounts s h = ground arith
  step-IsCareful reloads s h = ground (arith, ==_iff s.text s.baseline)
  step-IsCareful (loaded own (ok yaml)) s h = ground arith
  step-IsCareful (loaded own (failed reason)) s h = ground arith
  step-IsCareful (load_ends own) s h = ground arith
  step-IsCareful (edits yaml) s h = ground arith
  step-IsCareful (saves requested) s h = ground arith
  step-IsCareful (put_ends none) s h = ground arith
  step-IsCareful (put_ends (some reason)) s h = ground arith
  step-IsCareful (refreshed yaml current) s h = moved-IsCareful yaml current s h
  step-IsCareful (reread yaml r) s h = reread-IsCareful yaml r s h
  step-IsCareful (agrees agreed) s h = ground arith
  step-IsCareful (reload_ends (ok raw)) s h = ground arith
  step-IsCareful (reload_ends (failed reason)) s h = ground arith
  step-IsCareful (others tasks) s h = ground arith
  step-IsCareful (notices notice) s h = ground arith

  run-invariant :
      (es : List YamlEvent) (s : Yaml)
      → IsCareful s
      → Remembers s
      → IsCareful (run urls page es s) × Remembers (run urls page es s)
  run-invariant [] s h k = (h, k)
  run-invariant (e ∷ es) s h k =
      run-invariant es (step urls page e s) (step-IsCareful e s h) (step-Remembers urls page e s k)

  step-text :
      (e : YamlEvent) (s : Yaml)
      → IsCareful s
      → Remembers s
      → is_dirty s ≡ true
      → ¬ Replaces e s
      → ((step urls page e s).text ≡ s.text) ⊎ In s.text s.sent
  unfolding retry load unmount reload start_reload load_answered load_finished edit save
      put_answered keep_saved put_failed agree reload_answered adopt moved_answered
  step-text retries s h k d n = inl (ground arith)
  step-text unmounts s h k d n = inl refl
  step-text reloads s h k d n = inl (ground arith)
  step-text (loaded own (ok yaml)) s h k d n = inl (ground arith)
  step-text (loaded own (failed reason)) s h k d n = inl (ground arith)
  step-text (load_ends own) s h k d n = inl (ground arith)
  step-text (edits yaml) s h k d n = absurd (n tt)
  step-text (saves requested) s h k d n = inl (ground arith)
  step-text (put_ends none) s h k d n = inl (ground arith)
  step-text (put_ends (some reason)) s h k d n = inl (ground arith)
  step-text (refreshed yaml current) s h k d n = inl (ground arith)
  step-text (reread yaml r) s h k d n = reread-text yaml r s k
  step-text (agrees agreed) s h k d n = inl (ground arith)
  step-text (reload_ends (ok raw)) s h k d n = inl (ground (arith, ==_iff s.text s.baseline))
  step-text (reload_ends (failed reason)) s h k d n = inl (ground arith)
  step-text (others tasks) s h k d n = inl refl
  step-text (notices notice) s h k d n = inl refl

mounted-IsCareful : (notice : MovedState) → IsCareful (mounted notice)
unfolding mounted load
mounted-IsCareful notice = ground arith

-- On a page on which anything has happened, in any order, unsaved changes that were never sent stay in
-- the field, whatever comes next but typing and the answer to a reload that was agreed to.
pub run-keeps_edits :
    (urls : Urls) (page : MovedLinkOptions) (notice : MovedState) (es : List YamlEvent)
    (e : YamlEvent)
    → let s = run urls page es (mounted notice) in
      is_dirty s ≡ true → NotIn s.text s.sent → ¬ Replaces e s → (step urls page e s).text ≡ s.text
run-keeps_edits urls page notice es e d new n =
    let s = run urls page es (mounted notice) in
    let (h, k) =
      run-invariant urls page es (mounted notice) (mounted-IsCareful notice)
        (mounted-Remembers notice) in
    elim (step-text urls page e s h k d n) [ inl same ↦ same | inr old ↦ absurd (new old) ]
