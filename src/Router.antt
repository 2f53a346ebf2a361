-- ===== src/Router.antt =====
-- app/web/ui/src/lib/routes.ts and router.svelte.ts: which page a hash names, and the page that is
-- shown as the browser's history moves. `decodeURIComponent` and `URLSearchParams` are parameters. Of
-- the browser's history the entry that it is on is kept, its hash and the position it is stamped with.
pub mod Shown
pub mod Links
use jumpway.Prelude.{
  ℕ, suc, ◌+◌, Bool, true, false, not, ◌&&◌, ◌||◌, List, [], ◌∷◌, ◌++◌, Option, none, some, is_some,
  get_or, Text, codes, is_empty, includes, lookup, nat_beq, if◌then◌else◌, ◌==◌, text_eq,
}

pub data PageKind : Type 0 where
  overview new rule stats hosts connections settings yaml : PageKind

pub record Route : Type 0 where
  pub kind : PageKind
  pub hash : Text
  pub name : Option Text
  pub rule : Text

abbrev pub pages : List (Text × PageKind)
pages =
    (codes "#/", overview)
    ∷ (codes "#/new", new)
    ∷ (codes "#/stats", stats)
    ∷ (codes "#/hosts", hosts)
    ∷ (codes "#/connections", connections)
    ∷ (codes "#/settings", settings)
    ∷ (codes "#/yaml", yaml)
    ∷ []

abbrev pub home : Route
home = record { kind = overview; hash = codes "#/"; name = none; rule = [] }

-- What stands before the first `?`, and what stands after it.
abbrev pub path_of : Text → Text
path_of [] = []
path_of (c ∷ s) = if nat_beq c b'?' then [] else c ∷ path_of s

abbrev pub query_of : Text → Text
query_of [] = []
query_of (c ∷ s) = if nat_beq c b'?' then s else query_of s

abbrev pub after_prefix : Text → Text → Option Text
after_prefix [] s = some s
after_prefix (c ∷ p) [] = none
after_prefix (c ∷ p) (d ∷ s) = if nat_beq c d then after_prefix p s else none

-- `/^#\/rules\/([^/]+)$/`: the group of a match.
abbrev pub match_rule : Text → Option Text
match_rule path = elim (after_prefix (codes "#/rules/") path) [
  | none ↦ none
  | some s ↦ if is_empty s || includes b'/' s then none else some s
]

module _ (decode : Text → Option Text) (query_rule : Text → Text) where
  abbrev pub rule_page : Text → Text → Route
  rule_page canonical path = elim (match_rule path) [
    | none ↦ home
    | some component ↦ elim (decode component) [
      | none ↦ home
      | some name ↦ record { kind = rule; hash = canonical; name = some name; rule = [] }
    ]
  ]

  unfoldable pub route_for : Text → Route
  unfolding lookup
  route_for hash =
      let path = path_of hash in
      let query = query_of hash in
      let canonical = if is_empty query then path else path ++ (b'?' ∷ query) in
      if not (is_some (decode query)) then home else elim (lookup path pages) [
        | some kind ↦ record { kind = kind; hash = canonical; name = none; rule = query_rule query }
        | none ↦ rule_page canonical path
      ]

-- The variables of the router, whether it listens to the browser, the entry that the browser is on,
-- and the calls of `history.go`, each from one position to another.
pub record RouterState : Type 0 where
  pub route : Route
  pub accepted : ℕ
  pub expected : Option ℕ
  pub prompting : Bool
  pub epoch : ℕ
  pub listening : Bool
  pub location : Text
  pub position : Option ℕ
  pub went : List (ℕ × ℕ)

-- What a handler reads of the page: `dirty()`, `busy.value`, and the answer of `window.confirm`.
pub record View : Type 0 where
  pub dirty : Bool
  pub busy : Bool
  pub discards : Bool

abbrev is_at : Option ℕ → ℕ → Bool
is_at none idx = false
is_at (some i) idx = nat_beq i idx

-- The position that `sync` answers; it stamps the entry with it.
abbrev position_of : RouterState → ℕ
position_of s = get_or s.position (suc s.accepted)

abbrev sync : RouterState → RouterState
sync s = record s { position = some (position_of s) }

unfoldable pub canonicalise : ℕ → Text → RouterState → RouterState
canonicalise idx hash s =
    if s.location == hash && is_at s.position idx
    then s
    else record s { position = some idx; location = hash }

unfoldable pub restore : ℕ → RouterState → RouterState
restore idx s =
    if nat_beq s.accepted idx
    then canonicalise idx s.route.hash s
    else record s { expected = some s.accepted; went = (idx, s.accepted) ∷ s.went }

module _ (route_of : Text → Route) where
  unfoldable pub on_popstate : View → RouterState → RouterState
  on_popstate v s =
      let idx = position_of s in
      let to = route_of s.location in
      let synced = record (sync s) { expected = none } in
      if is_at s.expected idx || to.hash == s.route.hash
      then canonicalise idx s.route.hash (record synced { accepted = idx })
      else if v.busy || s.prompting || (v.dirty && not v.discards)
      then restore idx synced
      else canonicalise idx to.hash (record synced { route = to; accepted = idx })

  -- The browser goes to an entry; `popstate` follows.
  unfoldable pub pop : View → Text → Option ℕ → RouterState → RouterState
  pop v hash position s =
      let there = record s { location = hash; position = position } in
      if s.listening then on_popstate v there else there

  unfoldable pub start : RouterState → RouterState
  start s =
      let route = route_of s.location in
      let accepted = get_or s.position 0 in
      canonicalise accepted route.hash (record s {
        epoch = suc s.epoch;
        expected = none;
        route = route;
        accepted = accepted;
        listening = true;
      })

  -- The last lines of `navigate`.
  unfoldable pub commit : Bool → Route → RouterState → RouterState
  commit replace to s =
      let idx = if replace then position_of s else suc (position_of s) in
      record s { location = to.hash; position = some idx; route = to; accepted = idx }

  -- `navigate` up to its confirmation, or to its end where it asks for none.
  unfoldable pub navigate : View → Text → Bool → RouterState → RouterState
  navigate v hash replace s =
      let to = route_of hash in
      if to.hash == s.route.hash
      then (if is_some s.expected then s else canonicalise (position_of s) s.route.hash (sync s))
      else if v.busy || s.prompting || is_some s.expected
      then s
      else if v.dirty
      then record s { prompting = true }
      else commit replace to s

  -- The rest of a `navigate` that asked in epoch `started`, once the confirmation is answered.
  unfoldable pub confirmed : View → ℕ → Text → Bool → Bool → RouterState → RouterState
  confirmed v started hash replace ok s =
      if not (nat_beq s.epoch started)
      then s
      else if not ok || v.busy || is_some s.expected
      then record s { prompting = false }
      else commit replace (route_of hash) (record s { prompting = false })

-- The function that `start` returns.
unfoldable pub stop : RouterState → RouterState
stop s = record s { listening = false; epoch = suc s.epoch; prompting = false }
