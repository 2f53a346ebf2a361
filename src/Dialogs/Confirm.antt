-- ===== src/Dialogs/Confirm.antt =====
-- app/web/ui/src/lib/confirm.ts and components/ui/ConfirmDialog.svelte: questions with the answers yes
-- and no. A handler is the number of the dialog that registers it. The page holds one dialog at a time.
use jumpway.Prelude.{
  ℕ, suc, Bool, true, false, not, ◌&&◌, List, [], ◌∷◌, Option, none, some, is_some, Text,
  if◌then◌else◌,
}
use jumpway.Dialogs.{is_number, refocused, resolve}

pub record ConfirmOptions : Type 0 where
  pub title : Option Text
  pub message : Text
  pub confirm_label : Option Text
  pub cancel_label : Option Text
  pub danger : Bool

-- What has the focus.
pub data Focus : Type 0 where
  cancel_button confirm_button : Focus
  element : ℕ → Focus

-- `host` of confirm.ts and the variables of the dialog; `is_open` and `focus` are the document's.
pub record Confirm : Type 0 where
  pub host : Option ℕ
  pub mounted : Option ℕ
  pub mounts : ℕ
  pub options : Option ConfirmOptions
  pub pending : Option ℕ
  pub opener : Option Focus
  pub is_open : Bool
  pub focus : Option Focus
  pub asked : ℕ
  pub answers : List (ℕ × Bool)

abbrev pub no_dialog : Confirm
no_dialog = record {
  host = none;
  mounted = none;
  mounts = 0;
  options = none;
  pending = none;
  opener = none;
  is_open = false;
  focus = none;
  asked = 0;
  answers = [];
}

unfoldable pub register : ℕ → Confirm → Confirm
register handler s = record s { host = some handler }

unfoldable pub unregister : ℕ → Confirm → Confirm
unregister handler s = if is_number s.host handler then record s { host = none } else s

unfoldable pub settle : Bool → Confirm → Confirm
settle value s = record s {
  pending = none;
  options = none;
  is_open = false;
  focus = refocused s.opener s.focus;
  opener = none;
  answers = resolve s.pending value s.answers;
}

-- The handler that the dialog registers.
unfoldable pub handle : ConfirmOptions → Confirm → Confirm
handle request s =
    if is_some s.pending
    then record s { asked = suc s.asked; answers = (s.asked, false) ∷ s.answers }
    else record s {
      pending = some s.asked;
      opener = s.focus;
      options = some request;
      asked = suc s.asked;
    }

abbrev pub ask_host : Option ℕ → ConfirmOptions → Bool → Confirm → Confirm
ask_host none options native s = record s {
  asked = suc s.asked;
  answers = (s.asked, native) ∷ s.answers;
}
ask_host (some handler) options native s = handle options s

-- `native` is what `window.confirm` would answer.
abbrev pub confirm : ConfirmOptions → Bool → Confirm → Confirm
confirm options native s = ask_host s.host options native s

-- A destructive question has the focus on the button that says no.
abbrev default_button : Option ConfirmOptions → Option Focus → Option Focus
default_button none focus = focus
default_button (some request) focus =
    some (if request.danger then cancel_button else confirm_button)

-- The tick that follows the question of that number.
unfoldable pub ticked : ℕ → Confirm → Confirm
ticked n s =
    if is_number s.pending n
    then record s { is_open = true; focus = default_button s.options s.focus }
    else s

-- `onclose`: the event may come late.
unfoldable pub on_close : Confirm → Confirm
unfolding settle
on_close s = if is_some s.pending && not s.is_open then settle false s else s

-- `onMount`, in a page without the dialog.
abbrev pub mount : Option ℕ → Confirm → Confirm
mount (some handler) s = s
mount none s = register s.mounts (record s { mounted = some s.mounts; mounts = suc s.mounts })

-- The function that `onMount` returns.
abbrev pub unmount : Option ℕ → Confirm → Confirm
unmount none s = s
unmount (some handler) s = record (settle false (unregister handler s)) { mounted = none }

pub data ConfirmEvent : Type 0 where
  mounts unmounts : ConfirmEvent
  asks : ConfirmOptions → (native : Bool) → ConfirmEvent
  ticks : ℕ → ConfirmEvent
  -- A button of the question that is shown.
  clicks : Bool → ConfirmEvent
  -- The browser closes the dialog by Escape; the event of a closing comes later.
  escapes closes : ConfirmEvent
  focuses : Option Focus → ConfirmEvent

abbrev pub click : Bool → Option ConfirmOptions → Confirm → Confirm
click value none s = s
click value (some request) s = settle value s

abbrev pub step : ConfirmEvent → Confirm → Confirm
step mounts s = mount s.mounted s
step unmounts s = unmount s.mounted s
step (asks options native) s = confirm options native s
step (ticks n) s = ticked n s
step (clicks value) s = click value s.options s
step escapes s = record s { is_open = false }
step closes s = on_close s
step (focuses at) s = record s { focus = at }

abbrev pub run : List ConfirmEvent → Confirm → Confirm
run [] s = s
run (e ∷ es) s = run es (step e s)
