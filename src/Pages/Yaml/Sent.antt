-- ===== src/Pages/Yaml/Sent.antt =====
-- What the calls of `save` that are under way are about.
use jumpway.Prelude.{
  ℕ, Bool, true, false, not, ◌||◌, List, [], ◌∷◌, ◌++◌, Option, none, some, Text, text_eq, ◌==◌,
  ==_iff, ◌≡◌, ◌⊎◌, inl, inr, refl, arith, In, In-append_iff, All, All-append, All-mono, Bool-cases,
}
use jumpway.Settings.{Urls, MovedLinkOptions}
use jumpway.Status.{Status}
use jumpway.Moved.{MovedState, after_refresh}
use jumpway.Api.{ApiError, is_saved, Result, ok, failed}
use jumpway.Pages.{Saying, saved, warned}
use jumpway.Pages.Yaml.{
  Yaml, is_busy, adopt, load, load_answered, load_finished, unmount, edit, retry, save, keep_saved,
  put_failed, settle, put_answered, lacks, leave_one, reread_answered, start_reload, reload, agree,
  reload_answered, moved_answered, YamlEvent, retries, unmounts, reloads, loaded, load_ends, edits,
  saves, put_ends, refreshed, reread, agrees, reload_ends, others, notices, step, mounted,
}

-- Every call of `save` that is under way is about a text that was sent.
pub record Remembers (s : Yaml) : Type 0 where
  pub put : (yaml : Text) → s.putting ≡ some yaml → In yaml s.sent
  pub moves : All (λ yaml. In yaml s.sent) s.moving
  pub rereads : All (λ yaml. In yaml s.sent) s.rereading

leave_one-All :
    (P : Text → Type 0) (yaml : Text) (texts : List Text)
    → All P texts
    → All P (leave_one yaml texts)
unfolding leave_one
leave_one-All P yaml [] h = tt
leave_one-All P yaml (x ∷ texts) (p, h) = elim (Bool-cases (x == yaml)) [
  | inl here ↦ rw here h
  | inr there ↦ rw there (p, leave_one-All P yaml texts h)
]

any-All :
    (P : Text → Type 0) (yaml : Text) (texts : List Text)
    → lacks yaml texts ≡ false
    → All P texts
    → P yaml
any-All P yaml [] e h = absurd (cc e)
any-All P yaml (x ∷ texts) e (p, h) = elim (Bool-cases (x == yaml)) [
  | inl here ↦ rw (← (==_iff x yaml).0 here) p
  | inr there ↦ any-All P yaml texts (ground arith) h
]

-- The calls of `save`, and what was sent, stay as they are.
abbrev Same : Yaml → Yaml → Type 0
Same s q =
    (q.putting ≡ s.putting)
    × (q.moving ≡ s.moving)
    × (q.rereading ≡ s.rereading)
    × (q.sent ≡ s.sent)

Same-Remembers : (s q : Yaml) → Same s q → Remembers s → Remembers q
Same-Remembers s q (p, m, r, t) h = record {
  put = λ yaml e. rw t (h.put yaml (cc (e, p)));
  moves = rw (m, t) h.moves;
  rereads = rw (r, t) h.rereads;
}

save-Remembers : (requested : ℕ) (s : Yaml) → Remembers s → Remembers (save requested s)
unfolding save
save-Remembers requested s h = elim (Bool-cases (not s.ready || is_busy s || s.loading)) [
  | inl held ↦ rw held h
  | inr free ↦ rw free (
      let wider : (yaml : Text) → In yaml s.sent → In yaml (s.sent ++ s.text ∷ []) =
        λ yaml m. (In-append_iff yaml s.sent (s.text ∷ [])).1 (inl m) in
      record {
        put = λ yaml e. (In-append_iff yaml s.sent (s.text ∷ [])).1 (inr (inl (cc e)));
        moves = All-mono wider s.moving h.moves;
        rereads = All-mono wider s.rereading h.rereads;
      })
]

keep_saved-Remembers :
    (yaml : Text) (applied : Bool) (saying : Saying) (s : Yaml)
    → In yaml s.sent
    → Remembers s
    → Remembers (keep_saved yaml applied saying s)
unfolding keep_saved
keep_saved-Remembers yaml applied saying s m h = record {
  put = λ other e. absurd (cc e);
  moves = All-append (λ y. In y s.sent) s.moving (yaml ∷ []) h.moves (m, tt);
  rereads = h.rereads;
}

put_failed-Remembers :
    (yaml : Text) (reason : ApiError) (s : Yaml)
    → In yaml s.sent
    → Remembers s
    → Remembers (put_failed yaml reason s)
unfolding put_failed
put_failed-Remembers yaml reason s m h = elim (Bool-cases (is_saved reason)) [
  | inl kept ↦ rw kept (keep_saved-Remembers yaml false (warned reason) s m h)
  | inr lost ↦
      rw lost (record { put = λ other e. absurd (cc e); moves = h.moves; rereads = h.rereads })
]

settle-Remembers :
    (o : Option Text) (r : Option ApiError) (s : Yaml)
    → s.putting ≡ o
    → Remembers s
    → Remembers (settle o r s)
settle-Remembers none r s e h = h
settle-Remembers (some yaml) none s e h = keep_saved-Remembers yaml true saved s (h.put yaml e) h
settle-Remembers (some yaml) (some reason) s e h =
    put_failed-Remembers yaml reason s (h.put yaml e) h

reread-Remembers :
    (yaml : Text) (r : Result Text) (s : Yaml) → Remembers s → Remembers (reread_answered yaml r s)
unfolding reread_answered adopt
reread-Remembers yaml (ok raw) s h =
    let less = leave_one-All (λ y. In y s.sent) yaml s.rereading h.rereads in
    elim (Bool-cases (lacks yaml s.rereading)) [
      | inl stray ↦ rw stray h
      | inr known ↦ elim (Bool-cases (s.text == yaml)) [
        | inl same ↦ rw (known, same) (record { put = h.put; moves = h.moves; rereads = less })
        | inr other ↦ rw (known, other) (record { put = h.put; moves = h.moves; rereads = less })
      ]
    ]
reread-Remembers yaml (failed reason) s h =
    let less = leave_one-All (λ y. In y s.sent) yaml s.rereading h.rereads in
    elim (Bool-cases (lacks yaml s.rereading)) [
      | inl stray ↦ rw stray h
      | inr known ↦ rw known (record { put = h.put; moves = h.moves; rereads = less })
    ]

pub reread-text :
    (yaml : Text) (r : Result Text) (s : Yaml)
    → Remembers s
    → ((reread_answered yaml r s).text ≡ s.text) ⊎ In s.text s.sent
unfolding reread_answered adopt
reread-text yaml (ok raw) s h = elim (Bool-cases (lacks yaml s.rereading)) [
  | inl stray ↦ inl (rw stray)
  | inr known ↦ elim (Bool-cases (s.text == yaml)) [
    | inl same ↦ inr (
        rw ((==_iff s.text yaml).0 same)
          (any-All (λ y. In y s.sent) yaml s.rereading known h.rereads))
    | inr other ↦ inl (rw (known, other))
  ]
]
reread-text yaml (failed reason) s h = inl (ground arith)

module _ (urls : Urls) (page : MovedLinkOptions) where
  moved-Remembers :
      (yaml : Text) (current : Option Status) (s : Yaml)
      → Remembers s
      → Remembers (moved_answered urls page yaml current s)
  unfolding moved_answered
  moved-Remembers yaml current s h =
      let less = leave_one-All (λ y. In y s.sent) yaml s.moving h.moves in
      elim (Bool-cases (lacks yaml s.moving)) [
        | inl stray ↦ rw stray h
        | inr known ↦ elim (Bool-cases (after_refresh urls page current s.moved).1) [
          | inl gone ↦ rw (known, gone) (record { put = h.put; moves = less; rereads = h.rereads })
          | inr here ↦
              rw (known, here)
                (record {
                  put = h.put;
                  moves = less;
                  rereads =
                      All-append (λ y. In y s.sent) s.rereading (yaml ∷ []) h.rereads
                        (any-All (λ y. In y s.sent) yaml s.moving known h.moves, tt);
                })
        ]
      ]

  pub step-Remembers : (e : YamlEvent) (s : Yaml) → Remembers s → Remembers (step urls page e s)
  unfolding retry load unmount reload start_reload load_answered load_finished edit agree
      reload_answered adopt put_answered
  step-Remembers retries s h = Same-Remembers s _ (ground arith) h
  step-Remembers unmounts s h = Same-Remembers s _ (ground arith) h
  step-Remembers reloads s h = Same-Remembers s _ (ground arith) h
  step-Remembers (loaded own (ok yaml)) s h = Same-Remembers s _ (ground arith) h
  step-Remembers (loaded own (failed reason)) s h = Same-Remembers s _ (ground arith) h
  step-Remembers (load_ends own) s h = Same-Remembers s _ (ground arith) h
  step-Remembers (edits yaml) s h = Same-Remembers s _ (ground arith) h
  step-Remembers (saves requested) s h = save-Remembers requested s h
  step-Remembers (put_ends r) s h = settle-Remembers s.putting r s refl h
  step-Remembers (refreshed yaml current) s h = moved-Remembers yaml current s h
  step-Remembers (reread yaml r) s h = reread-Remembers yaml r s h
  step-Remembers (agrees agreed) s h = Same-Remembers s _ (ground arith) h
  step-Remembers (reload_ends (ok raw)) s h = Same-Remembers s _ (ground arith) h
  step-Remembers (reload_ends (failed reason)) s h = Same-Remembers s _ (ground arith) h
  step-Remembers (others tasks) s h = Same-Remembers s _ (refl, refl, refl, refl) h
  step-Remembers (notices notice) s h = Same-Remembers s _ (refl, refl, refl, refl) h

pub mounted-Remembers : (notice : MovedState) → Remembers (mounted notice)
unfolding mounted load
mounted-Remembers notice = record { put = λ yaml e. absurd (cc e); moves = tt; rereads = tt }
