-- ===== src/Dialogs/Answers.antt =====
-- Every question of the confirmation dialog is answered once.
use jumpway.Prelude.{
  ℕ, suc, Bool, true, false, not, ◌&&◌, List, [], ◌∷◌, Option, none, some, is_some, ◌≡◌, inl, inr,
  refl, ap, arith, Bool-cases, Option-cases, nat_beq_iff,
}
use jumpway.Dialogs.{is_number, IsLedger, ask-IsLedger, resolve-IsLedger, refuse-IsLedger}
use jumpway.Dialogs.Confirm.{
  ConfirmOptions, Confirm, no_dialog, register, unregister, settle, handle, ask_host, ticked,
  on_close, mount, unmount, ConfirmEvent, mounts, unmounts, asks, ticks, clicks, escapes, closes,
  focuses, click, step, run,
}

-- A question waits exactly while one is shown, never without a dialog, and is all that a dialog is
-- open for.
pub record IsAnswering (s : Confirm) : Type 0 where
  pub host_mounted : s.host ≡ s.mounted
  pub shown : is_some s.options ≡ is_some s.pending
  pub unmounted : is_some s.mounted ≡ false → s.pending ≡ none
  pub opened : s.is_open ≡ true → is_some s.pending ≡ true
  pub ledger : IsLedger s.asked s.pending s.answers

settle-IsAnswering : (value : Bool) (s : Confirm) → IsAnswering s → IsAnswering (settle value s)
unfolding settle
settle-IsAnswering value s h = record {
  host_mounted = h.host_mounted;
  shown = refl;
  unmounted = λ e. refl;
  opened = λ e. cc;
  ledger = resolve-IsLedger s.asked s.pending value s.answers h.ledger;
}

refuse-IsAnswering :
    (value : Bool) (s : Confirm)
    → IsAnswering s
    → IsAnswering (record s { asked = suc s.asked; answers = (s.asked, value) ∷ s.answers })
refuse-IsAnswering value s h = record {
  host_mounted = h.host_mounted;
  shown = h.shown;
  unmounted = h.unmounted;
  opened = h.opened;
  ledger = refuse-IsLedger s.asked s.pending value s.answers h.ledger;
}

handle-IsAnswering :
    (o : ConfirmOptions) (handler : ℕ) (s : Confirm)
    → s.host ≡ some handler
    → IsAnswering s
    → IsAnswering (handle o s)
unfolding handle
handle-IsAnswering o handler s at h = elim (Option-cases s.pending) [
  | inr (p, e) ↦
      let waits : is_some s.pending ≡ true = rw e refl in rw waits (refuse-IsAnswering false s h)
  | inl e ↦
      let free : is_some s.pending ≡ false = rw e refl in
      let l : IsLedger s.asked none s.answers = rw (← e) h.ledger in
      rw free (record {
        host_mounted = h.host_mounted;
        shown = refl;
        unmounted = λ q. absurd (cc (q, h.host_mounted, ap is_some at));
        opened = λ q. refl;
        ledger = ask-IsLedger s.asked s.answers l;
      })
]

ask-IsAnswering :
    (host : Option ℕ) (o : ConfirmOptions) (native : Bool) (s : Confirm)
    → s.host ≡ host
    → IsAnswering s
    → IsAnswering (ask_host host o native s)
ask-IsAnswering none o native s e h = refuse-IsAnswering native s h
ask-IsAnswering (some handler) o native s e h = handle-IsAnswering o handler s e h

ticked-IsAnswering : (n : ℕ) (s : Confirm) → IsAnswering s → IsAnswering (ticked n s)
unfolding ticked
ticked-IsAnswering n s h = elim (Bool-cases (is_number s.pending n)) [
  | inr e ↦ rw e h
  | inl e ↦ rw e (record {
    host_mounted = h.host_mounted;
    shown = h.shown;
    unmounted = h.unmounted;
    opened = λ q. elim (Option-cases s.pending) [
      | inl free ↦ absurd (cc (e, ap (λ p. is_number p n) free))
      | inr (p, waits) ↦ ap is_some waits
    ];
    ledger = h.ledger;
  })
]

mount-IsAnswering :
    (mounted : Option ℕ) (s : Confirm) → IsAnswering s → IsAnswering (mount mounted s)
unfolding register
mount-IsAnswering (some handler) s h = h
mount-IsAnswering none s h = record {
  host_mounted = refl;
  shown = h.shown;
  unmounted = λ q. cc;
  opened = h.opened;
  ledger = h.ledger;
}

unmount-IsAnswering :
    (mounted : Option ℕ) (s : Confirm)
    → s.mounted ≡ mounted
    → IsAnswering s
    → IsAnswering (unmount mounted s)
unfolding unregister settle
unmount-IsAnswering none s e h = h
unmount-IsAnswering (some handler) s e h =
    let own : is_number s.host handler ≡ true =
      rw (h.host_mounted, e) ((nat_beq_iff handler handler).1 refl) in
    rw own (record {
      host_mounted = refl;
      shown = refl;
      unmounted = λ q. refl;
      opened = λ q. cc;
      ledger = resolve-IsLedger s.asked s.pending false s.answers h.ledger;
    })

click-IsAnswering :
    (value : Bool) (o : Option ConfirmOptions) (s : Confirm)
    → IsAnswering s
    → IsAnswering (click value o s)
click-IsAnswering value none s h = h
click-IsAnswering value (some o) s h = settle-IsAnswering value s h

on_close-IsAnswering : (s : Confirm) → IsAnswering s → IsAnswering (on_close s)
unfolding on_close
on_close-IsAnswering s h = elim (Bool-cases (is_some s.pending && not s.is_open)) [
  | inl e ↦ rw e (settle-IsAnswering false s h)
  | inr e ↦ rw e h
]

step-IsAnswering : (e : ConfirmEvent) (s : Confirm) → IsAnswering s → IsAnswering (step e s)
step-IsAnswering mounts s h = mount-IsAnswering s.mounted s h
step-IsAnswering unmounts s h = unmount-IsAnswering s.mounted s refl h
step-IsAnswering (asks o native) s h = ask-IsAnswering s.host o native s refl h
step-IsAnswering (ticks n) s h = ticked-IsAnswering n s h
step-IsAnswering (clicks value) s h = click-IsAnswering value s.options s h
step-IsAnswering escapes s h = record {
  host_mounted = h.host_mounted;
  shown = h.shown;
  unmounted = h.unmounted;
  opened = λ q. cc;
  ledger = h.ledger;
}
step-IsAnswering closes s h = on_close-IsAnswering s h
step-IsAnswering (focuses at) s h = record {
  host_mounted = h.host_mounted;
  shown = h.shown;
  unmounted = h.unmounted;
  opened = h.opened;
  ledger = h.ledger;
}

run-keeps : (es : List ConfirmEvent) (s : Confirm) → IsAnswering s → IsAnswering (run es s)
run-keeps [] s h = h
run-keeps (e ∷ es) s h = run-keeps es (step e s) (step-IsAnswering e s h)

-- Whatever happens, in whatever order: a question is resolved exactly once, except for at most one
-- that waits and is not resolved; that one is shown, and none waits without a dialog; and the dialog
-- is open for nothing else.
pub run-IsAnswering : (es : List ConfirmEvent) → IsAnswering (run es no_dialog)
run-IsAnswering es = run-keeps es no_dialog (record {
  host_mounted = refl;
  shown = refl;
  unmounted = λ e. refl;
  opened = λ e. cc;
  ledger = record { is_asked = tt; counts = λ n. ground arith };
})
