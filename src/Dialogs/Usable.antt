-- ===== src/Dialogs/Usable.antt =====
-- The URL builder's dialog answers each question once, with none or with a valid URL of a layout.
use jumpway.Prelude.{
  ℕ, Bool, true, false, List, [], ◌∷◌, Option, none, some, is_some, Text, text_eq, find?, ◌==◌, ◌≡◌,
  inl, inr, refl, ap, arith, All, In, Bool-cases, Option-cases, if◌then◌else◌,
}
use jumpway.UrlBuilder.{BuilderValues, ProxyLayout, layouts, Parser, build_url, parse_url}
use jumpway.UrlBuilder.Listed.{find?-In, IsListed, parse_url-IsListed}
use jumpway.Dialogs.{is_number, IsLedger, resolve, ask-IsLedger, resolve-IsLedger, refuse-IsLedger}
use jumpway.Dialogs.Builder.{
  Builder, new_builder, settle, parsed_or, begin, refuse, ticked, chosen, select_layout, on_close,
  BuilderEvent, opens, ticks, selects, types, submits, cancels, escapes, closes, unmounts, focuses,
  open_dialog, submit, step, run,
}

module _ (lower enc : Text → Text) (parser : Parser) (dec : Text → Option Text) where
  parsed_or-IsListed :
      (parsed : Option (ProxyLayout × BuilderValues))
      → IsListed parsed
      → In (parsed_or parsed).0 layouts
  parsed_or-IsListed none h = inl refl
  parsed_or-IsListed (some found) h = h

  -- None, or the valid URL that a layout has for some values.
  abbrev pub IsUsable : Option Text → Type 0
  IsUsable none = Unit
  IsUsable (some url) =
      (layout : ProxyLayout) × (values : BuilderValues) × (In layout layouts
        × (((build_url enc layout values).url ≡ url)
            × ((build_url enc layout values).valid ≡ true)))

  -- A question waits exactly while the form is active, and is all that the dialog is open for.
  pub record IsAnswering (s : Builder) : Type 0 where
    pub listed : In s.layout layouts
    pub shown : s.active ≡ is_some s.pending
    pub unmounted : s.mounted ≡ false → s.pending ≡ none
    pub opened : s.is_open ≡ true → is_some s.pending ≡ true
    pub ledger : IsLedger s.asked s.pending s.answers
    pub usable : All (λ (a : ℕ × Option Text). IsUsable a.1) s.answers

  resolve-IsUsable :
      (pending : Option ℕ) (value : Option Text) (answers : List (ℕ × Option Text))
      → IsUsable value
      → All (λ (a : ℕ × Option Text). IsUsable a.1) answers
      → All (λ (a : ℕ × Option Text). IsUsable a.1) (resolve pending value answers)
  resolve-IsUsable none value answers u h = h
  resolve-IsUsable (some p) value answers u h = (u, h)

  settle-IsAnswering :
      (value : Option Text) (s : Builder)
      → IsUsable value
      → IsAnswering s
      → IsAnswering (settle value s)
  unfolding settle
  settle-IsAnswering value s u h = record {
    listed = h.listed;
    shown = refl;
    unmounted = λ e. refl;
    opened = λ e. cc;
    ledger = resolve-IsLedger s.asked s.pending value s.answers h.ledger;
    usable = resolve-IsUsable s.pending value s.answers u h.usable;
  }

  refuse-IsAnswering : (s : Builder) → IsAnswering s → IsAnswering (refuse s)
  unfolding refuse
  refuse-IsAnswering s h = record {
    listed = h.listed;
    shown = h.shown;
    unmounted = h.unmounted;
    opened = h.opened;
    ledger = refuse-IsLedger s.asked s.pending none s.answers h.ledger;
    usable = (tt, h.usable);
  }

  begin-IsAnswering :
      (parsed : ProxyLayout × BuilderValues) (s : Builder)
      → In parsed.0 layouts
      → s.mounted ≡ true
      → s.pending ≡ none
      → IsAnswering s
      → IsAnswering (begin parsed s)
  unfolding begin
  begin-IsAnswering parsed s l m e h =
      let waiting : IsLedger s.asked none s.answers = rw (← e) h.ledger in
      record {
        listed = l;
        shown = refl;
        unmounted = λ q. absurd (cc (q, m));
        opened = λ q. refl;
        ledger = ask-IsLedger s.asked s.answers waiting;
        usable = h.usable;
      }

  open-IsAnswering :
      (initial : Text) (s : Builder)
      → s.mounted ≡ true
      → IsAnswering s
      → IsAnswering (open_dialog lower enc parser dec initial s)
  unfolding open_dialog
  open-IsAnswering initial s m h = elim (Option-cases s.pending) [
    | inr (p, e) ↦
        let waits : is_some s.pending ≡ true = rw e refl in rw waits (refuse-IsAnswering s h)
    | inl e ↦
        let free : is_some s.pending ≡ false = rw e refl in
        let parsed = parse_url lower parser dec initial in
        rw free (
          begin-IsAnswering (parsed_or parsed) s
            (parsed_or-IsListed parsed (parse_url-IsListed lower parser dec initial)) m e h)
  ]

  ticked-IsAnswering :
      (n : ℕ) (field : Option ℕ) (s : Builder) → IsAnswering s → IsAnswering (ticked n field s)
  unfolding ticked
  ticked-IsAnswering n field s h = elim (Bool-cases (is_number s.pending n)) [
    | inr e ↦ rw e h
    | inl e ↦ rw e (record {
      listed = h.listed;
      shown = h.shown;
      unmounted = h.unmounted;
      opened = λ q. elim (Option-cases s.pending) [
        | inl free ↦ absurd (cc (e, ap (λ p. is_number p n) free))
        | inr (p, waits) ↦ ap is_some waits
      ];
      ledger = h.ledger;
      usable = h.usable;
    })
  ]

  chosen-IsAnswering :
      (o : Option ProxyLayout) (s : Builder)
      → ((next : ProxyLayout) → o ≡ some next → In next layouts)
      → IsAnswering s
      → IsAnswering (chosen o s)
  chosen-IsAnswering none s l h = h
  chosen-IsAnswering (some next) s l h = record {
    listed = l next refl;
    shown = h.shown;
    unmounted = h.unmounted;
    opened = h.opened;
    ledger = h.ledger;
    usable = h.usable;
  }

  select_layout-IsAnswering :
      (name : Text) (s : Builder) → IsAnswering s → IsAnswering (select_layout name s)
  unfolding select_layout
  select_layout-IsAnswering name s h =
      let named : ProxyLayout → Bool = λ l. l.name == name in
      chosen-IsAnswering (find? named layouts) s (find?-In named layouts) h

  branch-IsAnswering :
      (b : Bool) (t s : Builder)
      → (b ≡ true → IsAnswering t)
      → IsAnswering s
      → IsAnswering (if b then t else s)
  branch-IsAnswering true t s k h = k refl
  branch-IsAnswering false t s k h = h

  submit-IsAnswering : (s : Builder) → IsAnswering s → IsAnswering (submit lower enc parser dec s)
  unfolding submit
  submit-IsAnswering s h =
      let built = build_url enc s.layout s.values in
      branch-IsAnswering built.valid (settle (some built.url) s) s
        (λ e. settle-IsAnswering (some built.url) s (s.layout, s.values, (h.listed, (refl, e))) h) h

  on_close-IsAnswering : (s : Builder) → IsAnswering s → IsAnswering (on_close s)
  unfolding on_close
  on_close-IsAnswering s h =
      branch-IsAnswering _ (settle none s) s (λ e. settle-IsAnswering none s tt h) h

  -- What changes neither the questions nor the layout.
  typed-IsAnswering :
      (values : BuilderValues) (s : Builder)
      → IsAnswering s
      → IsAnswering (record s { values = values })
  typed-IsAnswering values s h = record {
    listed = h.listed;
    shown = h.shown;
    unmounted = h.unmounted;
    opened = h.opened;
    ledger = h.ledger;
    usable = h.usable;
  }

  unmount-IsAnswering :
      (s : Builder) → IsAnswering s → IsAnswering (record (settle none s) { mounted = false })
  unfolding settle
  unmount-IsAnswering s h = record {
    listed = h.listed;
    shown = refl;
    unmounted = λ e. refl;
    opened = λ e. cc;
    ledger = resolve-IsLedger s.asked s.pending none s.answers h.ledger;
    usable = resolve-IsUsable s.pending none s.answers tt h.usable;
  }

  step-IsAnswering :
      (e : BuilderEvent) (s : Builder) → IsAnswering s → IsAnswering (step lower enc parser dec e s)
  step-IsAnswering (opens initial) s h =
      branch-IsAnswering s.mounted _ s (λ e. open-IsAnswering initial s e h) h
  step-IsAnswering (ticks n field) s h = ticked-IsAnswering n field s h
  step-IsAnswering (selects name) s h =
      branch-IsAnswering s.active _ s (λ e. select_layout-IsAnswering name s h) h
  step-IsAnswering (types name value) s h =
      branch-IsAnswering s.active _ s (λ e. typed-IsAnswering _ s h) h
  step-IsAnswering submits s h = branch-IsAnswering s.active _ s (λ e. submit-IsAnswering s h) h
  step-IsAnswering cancels s h =
      branch-IsAnswering s.active _ s (λ e. settle-IsAnswering none s tt h) h
  step-IsAnswering escapes s h = record {
    listed = h.listed;
    shown = h.shown;
    unmounted = h.unmounted;
    opened = λ e. cc;
    ledger = h.ledger;
    usable = h.usable;
  }
  step-IsAnswering closes s h = on_close-IsAnswering s h
  step-IsAnswering unmounts s h = unmount-IsAnswering s h
  step-IsAnswering (focuses at) s h = record {
    listed = h.listed;
    shown = h.shown;
    unmounted = h.unmounted;
    opened = h.opened;
    ledger = h.ledger;
    usable = h.usable;
  }

  run-keeps :
      (es : List BuilderEvent) (s : Builder)
      → IsAnswering s
      → IsAnswering (run lower enc parser dec es s)
  run-keeps [] s h = h
  run-keeps (e ∷ es) s h = run-keeps es _ (step-IsAnswering e s h)

  -- Whatever happens, in whatever order: a question is resolved exactly once, except for at most one
  -- that waits and is not resolved, and none waits once the dialog is gone; every answer is none or
  -- the URL of a layout with values for which it is valid; the form is active, on one of the layouts,
  -- exactly while a question waits, and the dialog is open for nothing else.
  pub run-IsUsable :
      (es : List BuilderEvent) → IsAnswering (run lower enc parser dec es new_builder)
  run-IsUsable es = run-keeps es new_builder (record {
    listed = inl refl;
    shown = refl;
    unmounted = λ e. refl;
    opened = λ e. cc;
    ledger = record { is_asked = tt; counts = λ n. ground arith };
    usable = tt;
  })
