-- ===== src/Pages/Settings.antt =====
-- app/web/ui/src/routes/SettingsPage.svelte, the script: the forms of the web interface's address and of
-- the proxy bypass. `JSON.stringify` is a parameter for each; the fields are disabled while a task runs.
mod State
pub mod Writes
unfoldable pub use State.*
use jumpway.Prelude.{
  ℕ, suc, ◌-◌, Bool, true, false, not, ◌&&◌, ◌||◌, List, [], ◌∷◌, ◌++◌, Option, none, some, is_some,
  list, Text, text_eq, trim, decimal, ltb, nat_beq, if◌then◌else◌, ◌==◌,
}
use jumpway.Wire.{Address}
use jumpway.Way.Laws.{join}
use jumpway.Settings.{Urls, MovedLinkOptions, reachable_address, parse_port, read_lines}
use jumpway.Status.{Status}
use jumpway.Moved.{MovedState, begin_write, record_write, after_refresh, uncertain}
use jumpway.Api.{ApiError, is_saved, is_unreachable, is_aborted, Result, ok, failed}
use jumpway.Pages.{Saying, saved, warned, WriteFailure, write_failure, owns}

pub data FormsEvent : Type 0 where
  retries unmounts saves_bypass : FormsEvent
  saves_address : (requested : ℕ) → FormsEvent
  loaded : ℕ → Result (Address × NoProxy) → FormsEvent
  load_ends : ℕ → FormsEvent
  types_host types_port : Text → FormsEvent
  types_bypass : BypassDraft → FormsEvent
  address_ends bypass_ends : Option ApiError → FormsEvent
  refreshed : Option Status → FormsEvent
  -- Ctrl+S, and the form that has the focus.
  shortcut : (requested : ℕ) → Option Form → FormsEvent
  -- What the rest of the page does: other tasks, and the notice.
  others : (tasks : ℕ) → FormsEvent
  notices : MovedState → FormsEvent

-- How the two forms are compared with what is stored.
pub record Snapshots : Type 0 where
  pub address_text : AddressDraft → Text
  pub bypass_text : NoProxy → Text

-- `hostname` is `location.hostname`.
module _ (urls : Urls) (page : MovedLinkOptions) (hostname : Text) (texts : Snapshots) where
  abbrev pub address_snapshot : AddressDraft → Text
  address_snapshot d = texts.address_text (trimmed d)

  abbrev pub bypass_snapshot : BypassDraft → Text
  bypass_snapshot d = texts.bypass_text (read_bypass d)

  abbrev pub address_dirty : Forms → Bool
  address_dirty s = s.ready && not (address_snapshot s.address == s.address_baseline)

  abbrev pub bypass_dirty : Forms → Bool
  bypass_dirty s = s.ready && not (bypass_snapshot s.bypass == s.bypass_baseline)

  unfoldable pub adopt : Address → NoProxy → Forms → Forms
  adopt web no_proxy s = record s {
    address = address_from web;
    address_baseline = address_snapshot (address_from web);
    bypass = bypass_from no_proxy;
    bypass_baseline = bypass_snapshot (bypass_from no_proxy);
    ready = true;
  }

  unfoldable pub load_answered : ℕ → Result (Address × NoProxy) → Forms → Forms
  unfolding adopt
  load_answered own (ok value) s =
      let settled = record s { due = none } in
      if not (owns s.due own)
      then s
      else if owns s.controller own
      then adopt value.0 value.1 settled
      else settled
  load_answered own (failed reason) s =
      let settled = record s { due = none } in
      if not (owns s.due own)
      then s
      else if owns s.controller own && not (is_aborted reason)
      then record settled { load_error = some reason }
      else settled

  -- The address is on disk, and `afterWrite` has begun.
  unfoldable pub keep_address : Address → Bool → Saying → Forms → Forms
  keep_address body applied saying s = record s {
    saving_address = false;
    putting_address = none;
    address_baseline = address_snapshot s.address;
    said = s.said ++ saying ∷ [];
    moved = record_write (reachable_address body hostname) applied s.moved;
    moving = suc s.moving;
  }

  -- No answer came: the notice shows where the server may be, or else the form that it failed.
  unfoldable pub lose_address : Address → ApiError → Forms → Forms
  lose_address body reason s =
      let (notice, shown) = uncertain urls page (reachable_address body hostname) s.moved in
      record s {
        saving_address = false;
        putting_address = none;
        moved = notice;
        address_failure = if shown then s.address_failure else some (write_failure reason);
      }

  unfoldable pub address_failed : Address → ApiError → Forms → Forms
  unfolding keep_address lose_address
  address_failed body reason s =
      if is_unreachable reason
      then lose_address body reason s
      else if is_saved reason
      then keep_address body false (warned reason) s
      else record s {
        saving_address = false;
        putting_address = none;
        address_failure = some (write_failure reason);
      }

  abbrev pub settle_address : Option Address → Option ApiError → Forms → Forms
  settle_address none r s = s
  settle_address (some body) none s = keep_address body true saved s
  settle_address (some body) (some reason) s = address_failed body reason s

  unfoldable pub keep_bypass : Saying → Forms → Forms
  keep_bypass saying s = record s {
    saving_bypass = false;
    putting_bypass = none;
    bypass_baseline = bypass_snapshot s.bypass;
    said = s.said ++ saying ∷ [];
    refreshes = suc s.refreshes;
  }

  unfoldable pub bypass_failed : ApiError → Forms → Forms
  unfolding keep_bypass
  bypass_failed reason s = if is_saved reason then keep_bypass (warned reason) s else record s {
    saving_bypass = false;
    putting_bypass = none;
    bypass_failure = some (write_failure reason);
  }

  abbrev pub settle_bypass : Option NoProxy → Option ApiError → Forms → Forms
  settle_bypass none r s = s
  settle_bypass (some body) none s = keep_bypass saved s
  settle_bypass (some body) (some reason) s = bypass_failed reason s

  -- The answer of `status.refresh()` after the address was written.
  unfoldable pub moved_answered : Option Status → Forms → Forms
  moved_answered current s =
      if nat_beq s.moving 0
      then s
      else record s { moving = s.moving - 1; moved = (after_refresh urls page current s.moved).0 }

  unfoldable pub save_focused : ℕ → Option Form → Forms → Forms
  unfolding save_address save_bypass
  save_focused requested focus s = elim (focused_form focus (address_dirty s) (bypass_dirty s)) [
    | none ↦ s
    | some address_form ↦ save_address requested s
    | some bypass_form ↦ save_bypass s
  ]

  abbrev pub step : FormsEvent → Forms → Forms
  step retries s = retry s
  step unmounts s = unmount s
  step saves_bypass s = save_bypass s
  step (saves_address requested) s = save_address requested s
  step (loaded own r) s = load_answered own r s
  step (load_ends own) s = load_finished own s
  step (types_host host) s = edit_host host s
  step (types_port port) s = edit_port port s
  step (types_bypass d) s = edit_bypass d s
  step (address_ends r) s = settle_address s.putting_address r s
  step (bypass_ends r) s = settle_bypass s.putting_bypass r s
  step (refreshed current) s = moved_answered current s
  step (shortcut requested focus) s = save_focused requested focus s
  step (others tasks) s = record s { other_tasks = tasks }
  step (notices notice) s = record s { moved = notice }

  abbrev pub run : List FormsEvent → Forms → Forms
  run [] s = s
  run (e ∷ es) s = run es (step e s)
