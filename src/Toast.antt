-- ===== src/Toast.antt =====
-- app/web/ui/src/lib/toast.svelte.ts: the messages at the edge of the page. A timer is kept as the id of
-- its toast and the time at which it runs out; the time comes with each event.
pub mod Timers
use jumpway.Prelude.{
  ℕ, suc, ◌+◌, ◌≤◌, Bool, true, false, not, List, [], ◌∷◌, ◌++◌, map, Option, none, some, Text,
  nat_beq, leb, filter, find?, if◌then◌else◌,
}

pub data ToastKind : Type 0 where
  success info warning error : ToastKind

pub record Toast : Type 0 where
  pub id : ℕ
  pub kind : ToastKind
  pub message : Text

abbrev pub success_toast_ms : ℕ
success_toast_ms = 6_000

pub record Timer : Type 0 where
  pub id : ℕ
  pub due : ℕ

pub record Toasts : Type 0 where
  pub list : List Toast
  pub timers : List Timer
  pub sequence : ℕ

abbrev pub no_toasts : Toasts
no_toasts = record { list = []; timers = []; sequence = 0 }

abbrev pub is_toast : ℕ → Toast → Bool
is_toast id t = nat_beq t.id id

abbrev pub is_timer : ℕ → Timer → Bool
is_timer id t = nat_beq t.id id

unfoldable pub dismiss : ℕ → Toasts → Toasts
dismiss id s = record s {
  list = filter (λ t. not (is_toast id t)) s.list;
  timers = filter (λ t. not (is_timer id t)) s.timers;
}

-- `ttl` is the time to live, and `now` the time of the call.
unfoldable pub push : ToastKind → Text → Option ℕ → ℕ → Toasts → Toasts
push kind message ttl now s =
    let id = suc s.sequence in
    record {
      list = s.list ++ (record { id = id; kind = kind; message = message }) ∷ [];
      timers = elim ttl [
        | none ↦ s.timers
        | some ms ↦ s.timers ++ (record { id = id; due = now + ms }) ∷ []
      ];
      sequence = id;
    }

-- How long a toast of each kind lives.
abbrev pub ttl_of : ToastKind → Option ℕ
ttl_of success = some success_toast_ms
ttl_of info = some success_toast_ms
ttl_of warning = none
ttl_of error = none

-- `success`, `info`, `warning` and `error`
abbrev pub say : ToastKind → Text → ℕ → Toasts → Toasts
say kind message now s = push kind message (ttl_of kind) now s

-- The loop of `clear` over the ids that have a timer, and what follows it.
dismiss_all : List ℕ → Toasts → Toasts
unfolding dismiss
dismiss_all [] s = s
dismiss_all (id ∷ ids) s = dismiss_all ids (dismiss id s)

unfoldable pub clear : Toasts → Toasts
unfolding dismiss_all
clear s = record (dismiss_all (map (λ (t : Timer). t.id) s.timers) s) { list = [] }

pub data ToastEvent : Type 0 where
  says : ToastKind → Text → ToastEvent
  dismisses : ℕ → ToastEvent
  clears : ToastEvent

-- A timer that is due runs `dismiss`.
unfoldable pub expire : ℕ → Toasts → Toasts
unfolding dismiss_all
expire now s =
    dismiss_all (map (λ (t : Timer). t.id) (filter (λ (t : Timer). leb t.due now) s.timers)) s

abbrev pub step : ℕ → ToastEvent → Toasts → Toasts
step now (says kind message) s = say kind message now s
step now (dismisses id) s = dismiss id s
step now clears s = clear s

-- The timers that are due run before each event.
abbrev pub run : List (ℕ × ToastEvent) → Toasts → Toasts
run [] s = s
run ((now, e) ∷ es) s = run es (step now e (expire now s))
