-- ===== src/Moved.antt =====
-- app/web/ui/src/lib/moved.svelte.ts: the notice of where the page can be reopened. The variables of
-- the module are a record, and what it reads of the page (`location.host`, the language, the hash) an
-- argument of each operation.
pub mod Before
pub mod Links
pub mod Target
use jumpway.Prelude.{
  ℕ, Bool, true, false, not, ◌&&◌, ◌||◌, List, [], Option, none, some, is_some, Text, is_empty, leb,
  if◌then◌else◌, ◌==◌, text_eq,
}
use jumpway.Way.{nonempty}
use jumpway.Settings.{
  Urls, address_url, reported_address, same_address, moved_href, MovedLinkOptions,
}
use jumpway.Status.{Status}

pub record MovedLink : Type 0 where
  pub address : Text
  pub href : Text

pub data MovedNotice : Type 0 where
  moved maybe : MovedLink → MovedNotice
  unconfirmed : Option MovedLink → MovedNotice
  unknown : MovedNotice

pub record MovedState : Type 0 where
  pub notice : Option MovedNotice
  pub candidate : Text
  pub reloaded : Bool
  pub mark : ℕ

-- The variables as the module starts with them, and as `clear` leaves them.
abbrev pub cleared : MovedState
cleared = record { notice = none; candidate = []; reloaded = true; mark = 0 }

abbrev link_beq : MovedLink → MovedLink → Bool
link_beq a b = a.address == b.address && a.href == b.href

-- Equality of the texts that `JSON.stringify` gives.
abbrev notice_beq : MovedNotice → MovedNotice → Bool
notice_beq (moved a) (moved b) = link_beq a b
notice_beq (maybe a) (maybe b) = link_beq a b
notice_beq (unconfirmed none) (unconfirmed none) = true
notice_beq (unconfirmed (some a)) (unconfirmed (some b)) = link_beq a b
notice_beq unknown unknown = true
notice_beq _ _ = false

abbrev pub is_same : Option MovedNotice → MovedNotice → Bool
is_same none n = false
is_same (some m) n = notice_beq m n

-- `notice.link`
abbrev pub link_of : MovedNotice → Option MovedLink
link_of (moved l) = some l
link_of (maybe l) = some l
link_of (unconfirmed o) = o
link_of unknown = none

abbrev pub is_maybe : MovedNotice → Bool
is_maybe (maybe l) = true
is_maybe _ = false

-- `beginWrite`: the argument is the number of the last load that the status poller requested.
abbrev pub begin_write : ℕ → MovedState → MovedState
begin_write requested s = record s { mark = requested }

-- The first two lines of `afterWrite`.
abbrev pub record_write : Text → Bool → MovedState → MovedState
record_write at applied s = record s { candidate = at; reloaded = applied }

module _ (urls : Urls) (page : MovedLinkOptions) where
  unfoldable pub link_for : Text → Option MovedLink
  link_for at = elim (moved_href urls at page) [
    | none ↦ none
    | some href ↦ some (record { address = at; href = href })
  ]

  unfoldable pub claim : Text → Option MovedNotice
  claim at =
      if not (is_some (address_url urls at))
      then some unknown
      else elim (link_for at) [ none ↦ none | some l ↦ some (moved l) ]

  abbrev bound : Status → Text
  bound current =
      if current.running then reported_address urls current.address page.current_host else []

  abbrev or_link : Option MovedLink → Option MovedLink → Option MovedLink
  or_link none l = l
  or_link (some l') l = some l'

  abbrev settled_claim : Text → Option MovedNotice → Option MovedNotice
  settled_claim candidate none = none
  settled_claim candidate (some proof) = if nonempty candidate then claim candidate else some proof

  -- `undefined` is `none` outside.
  unfoldable pub from_status : Text → Status → Option MovedLink → Option (Option MovedNotice)
  from_status candidate current link =
      if not current.running
      then some (
          some
            (unconfirmed (or_link (if nonempty candidate then link_for candidate else none) link)))
      else if is_empty (bound current)
      then none
      else some (settled_claim candidate (claim (bound current)))

  unfoldable pub from_write : MovedState → Option MovedNotice
  from_write s =
      if not s.reloaded
      then some (unconfirmed (if nonempty s.candidate then link_for s.candidate else none))
      else if nonempty s.candidate
      then claim s.candidate
      else some unknown

  abbrev settled : Text → Option Status → Option (Option MovedNotice)
  settled candidate none = none
  settled candidate (some current) = from_status candidate current none

  -- `afterWrite` from the answer of `status.refresh()` on, and its result; the variables are set before
  -- the refresh is awaited.
  unfoldable pub after_refresh : Option Status → MovedState → MovedState × Bool
  after_refresh current s =
      let next : Option MovedNotice = elim (settled s.candidate current) [
        | none ↦ from_write s
        | some n ↦ n
      ] in
      (record s { notice = next }, is_some next)

  unfoldable pub uncertain : Text → MovedState → MovedState × Bool
  uncertain at s =
      let next : Option MovedNotice = elim (link_for at) [
        | none ↦ none
        | some l ↦ some (maybe l)
      ] in
      (record s { candidate = at; notice = next }, is_some next)

  abbrev reconciled : Option (Option MovedNotice) → MovedNotice → Option MovedNotice
  reconciled none shown = some shown
  reconciled (some next) shown = if is_same next shown then some shown else next

  unfoldable pub reconcile : Status → ℕ → MovedState → MovedState
  reconcile current request s = elim s.notice [
    | none ↦ s
    | some shown ↦
        if leb request s.mark || (is_maybe shown && not current.running) then s else record s {
          notice = reconciled (from_status s.candidate current (link_of shown)) shown;
        }
  ]
