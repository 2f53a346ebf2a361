-- ===== src/Pages/Settings/State.antt =====
-- app/web/ui/src/routes/SettingsPage.svelte: the variables of the page, typing, and saving up to the write.
use jumpway.Prelude.{
  ℕ, suc, Bool, true, false, not, ◌&&◌, ◌||◌, List, [], ◌∷◌, ◌++◌, Option, none, some, is_some,
  list, Text, text_eq, trim, decimal, ltb, if◌then◌else◌,
}
use jumpway.Wire.{Address}
use jumpway.Way.Laws.{join}
use jumpway.Settings.{parse_port, read_lines}
use jumpway.Moved.{MovedState, begin_write}
use jumpway.Api.{ApiError}
use jumpway.Pages.{Saying, WriteFailure, owns}

pub record NoProxy : Type 0 where
  pub list : Option (List Text)
  pub from_env : Option (List Text)
  pub from_file : Option (List Text)

pub record AddressDraft : Type 0 where
  pub host : Text
  pub port : Text

pub record BypassDraft : Type 0 where
  pub list : Text
  pub from_env : Text
  pub from_file : Text

-- `due` is the load that has not settled. `putting_address` and `putting_bypass` are the writes that run,
-- `moving` counts the calls that wait for the status after a write, and `sent` are the addresses so far.
pub record Forms : Type 0 where
  pub address : AddressDraft
  pub address_baseline : Text
  pub bypass : BypassDraft
  pub bypass_baseline : Text
  pub ready : Bool
  pub loading : Bool
  pub load_error : Option ApiError
  pub port_invalid : Bool
  pub saving_address : Bool
  pub saving_bypass : Bool
  pub address_failure : Option WriteFailure
  pub bypass_failure : Option WriteFailure
  pub controller : Option ℕ
  pub issued : ℕ
  pub due : Option ℕ
  pub putting_address : Option Address
  pub putting_bypass : Option NoProxy
  pub moving : ℕ
  pub other_tasks : ℕ
  pub moved : MovedState
  pub said : List Saying
  pub refreshes : ℕ
  pub sent : List Address

abbrev pub is_busy : Forms → Bool
is_busy s = ltb 0 s.other_tasks || is_some s.putting_address || is_some s.putting_bypass

-- What `addressSnapshot` and `bypassSnapshot` make texts of.
abbrev pub trimmed : AddressDraft → AddressDraft
trimmed d = record { host = trim d.host; port = trim d.port }

unfoldable pub read_bypass : BypassDraft → NoProxy
read_bypass d = record {
  list = some (read_lines d.list);
  from_env = some (read_lines d.from_env);
  from_file = some (read_lines d.from_file);
}

abbrev pub address_from : Address → AddressDraft
address_from web = record { host = web.host; port = decimal web.port }

abbrev pub bypass_from : NoProxy → BypassDraft
bypass_from no_proxy = record {
  list = join 10 (list no_proxy.list);
  from_env = join 10 (list no_proxy.from_env);
  from_file = join 10 (list no_proxy.from_file);
}

unfoldable pub load : Forms → Forms
load s = record s {
  controller = some (suc s.issued);
  due = some (suc s.issued);
  issued = suc s.issued;
  loading = true;
  load_error = none;
}

unfoldable pub load_finished : ℕ → Forms → Forms
load_finished own s =
    if owns s.controller own && not (is_some s.due)
    then record s { controller = none; loading = false }
    else s

-- What `onMount` returns.
unfoldable pub unmount : Forms → Forms
unmount s = record s { controller = none }

-- Typing in the fields; a new port is no longer shown as invalid.
unfoldable pub edit_host : Text → Forms → Forms
edit_host host s =
    if is_busy s || not s.ready
    then s
    else record s { address = record (s.address) { host = host } }

unfoldable pub edit_port : Text → Forms → Forms
edit_port port s =
    if is_busy s || not s.ready
    then s
    else record s { address = record (s.address) { port = port }; port_invalid = false }

unfoldable pub edit_bypass : BypassDraft → Forms → Forms
edit_bypass d s = if is_busy s || not s.ready then s else record s { bypass = d }

-- The button beside a load error.
unfoldable pub retry : Forms → Forms
unfolding load
retry s = if is_some s.load_error then load s else s

abbrev pub body_of : AddressDraft → ℕ → Address
body_of d port = record { host = trim d.host; port = port }

abbrev pub send_address : ℕ → Option ℕ → Forms → Forms
send_address requested none s = record s { port_invalid = true }
send_address requested (some port) s = record s {
  address_failure = none;
  moved = begin_write requested s.moved;
  saving_address = true;
  putting_address = some (body_of s.address port);
  sent = s.sent ++ body_of s.address port ∷ [];
}

-- `saveAddress` up to its write; `requested` is the number of the status poller's last load.
unfoldable pub save_address : ℕ → Forms → Forms
save_address requested s =
    if not s.ready || is_busy s || s.loading
    then s
    else send_address requested (parse_port s.address.port) s

unfoldable pub save_bypass : Forms → Forms
save_bypass s = if not s.ready || is_busy s || s.loading then s else record s {
  bypass_failure = none;
  saving_bypass = true;
  putting_bypass = some (read_bypass s.bypass);
}

-- The form that Ctrl+S submits: the one with the focus, or the only one with changes.
pub data Form : Type 0 where
  address_form bypass_form : Form

unfoldable pub focused_form : Option Form → Bool → Bool → Option Form
focused_form (some form) address_dirty bypass_dirty = some form
focused_form none true false = some address_form
focused_form none false true = some bypass_form
focused_form none _ _ = none

abbrev pub unopened : MovedState → Forms
unopened notice = record {
  address = record { host = []; port = [] };
  address_baseline = [];
  bypass = record { list = []; from_env = []; from_file = [] };
  bypass_baseline = [];
  ready = false;
  loading = false;
  load_error = none;
  port_invalid = false;
  saving_address = false;
  saving_bypass = false;
  address_failure = none;
  bypass_failure = none;
  controller = none;
  issued = 0;
  due = none;
  putting_address = none;
  putting_bypass = none;
  moving = 0;
  other_tasks = 0;
  moved = notice;
  said = [];
  refreshes = 0;
  sent = [];
}

-- The page as it is mounted.
unfoldable pub mounted : MovedState → Forms
unfolding load
mounted notice = load (unopened notice)
