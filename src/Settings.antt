-- ===== src/Settings.antt =====
-- app/web/ui/src/lib/settings.ts: the addresses and texts of the settings pages. The browser's `URL` is
-- a parameter. `writeFailure` is left out.
pub mod Lines
use jumpway.Prelude.{
  ℕ, ◌+◌, Bool, true, false, not, ◌&&◌, ◌||◌, List, [], ◌∷◌, ◌++◌, map, Option, none, some, Text,
  codes, trim, is_empty, is_space, includes, any, filter, decimal, read_decimal, leb, ltb, nat_beq,
  length, if◌then◌else◌, ◌==◌, text_eq, is_some,
}
use jumpway.Wire.{Address}
use jumpway.Way.{add_head, nonempty}
use jumpway.Endpoint.{or_text, loopback, starts_with_bracket, brackets}

-- `set.has(s)`
abbrev pub has : List Text → Text → Bool
has names s = any (λ n. n == s) names

abbrev pub wildcards : List Text
wildcards = codes "0.0.0.0" ∷ codes "::" ∷ codes "[::]" ∷ []

abbrev pub loopbacks : List Text
loopbacks = codes "127.0.0.1" ∷ codes "localhost" ∷ codes "[::1]" ∷ []

-- The address is '' when the server picks the port.
unfoldable pub reachable_address : Address → Text → Text
reachable_address a hostname =
    let bound = or_text a.host loopback in
    let host = if has wildcards bound then or_text hostname loopback else bound in
    let wrapped =
      if includes b':' host && not (starts_with_bracket host) then brackets host else host in
    if nat_beq a.port 0 then [] else wrapped ++ (b':' ∷ decimal a.port)

abbrev is_digit : ℕ → Bool
is_digit c = leb b'0' c && leb c b'9'

abbrev all_of : (ℕ → Bool) → Text → Bool
all_of p [] = true
all_of p (c ∷ s) = p c && all_of p s

-- `\d{1,5}`
abbrev is_port_text : Text → Bool
is_port_text s = nonempty s && leb (length s) 5 && all_of is_digit s

-- `[0-9a-f:.]`, in either case
abbrev is_v6_char : ℕ → Bool
is_v6_char c =
    is_digit c
    || (leb b'a' c && leb c b'f')
    || (leb b'A' c && leb c b'F')
    || nat_beq c b':'
    || nat_beq c b'.'

-- The class that a name or an IPv4 address consists of.
abbrev is_name_char : ℕ → Bool
is_name_char c = not (
    is_space c
    || leb c 0x1f
    || nat_beq c 0x7f
    || includes c (
        b'[' ∷ b']' ∷ b'/' ∷ b'\\' ∷ b'?' ∷ b'#' ∷ b'@' ∷ b':' ∷ b'"' ∷ b'\'' ∷ b'`' ∷ b'<' ∷ b'>'
        ∷ []))

-- The longest beginning of such characters, and the rest.
span : (ℕ → Bool) → Text → Text × Text
span p [] = ([], [])
span p (c ∷ s) = let (taken, rest) = span p s in if p c then (c ∷ taken, rest) else ([], c ∷ s)

-- What may follow the host: nothing, or a port. The port text, if there is one.
abbrev match_port : Text → Option (Option Text)
match_port [] = some none
match_port (c ∷ s) = if nat_beq c b':' && is_port_text s then some (some s) else none

abbrev match_v6 : Text × Text → Option (Option Text)
match_v6 ([], rest) = none
match_v6 (c ∷ host, []) = none
match_v6 (c ∷ host, d ∷ rest) = if nat_beq d b']' then match_port rest else none

abbrev match_name : Text × Text → Option (Option Text)
match_name ([], rest) = none
match_name (c ∷ host, rest) = match_port rest

-- `HOST_PORT.exec(address)`: the second group of a match.
unfoldable pub match_host_port : Text → Option (Option Text)
unfolding span is_space
match_host_port [] = none
match_host_port (c ∷ s) =
    if nat_beq c b'[' then match_v6 (span is_v6_char s) else match_name (span is_name_char (c ∷ s))

-- The browser's `URL`, as far as it is used: `parse` is the constructor, which may throw.
pub record Urls : Type 1 where
  pub Url : Type 0
  pub parse : Text → Option Url
  pub username : Url → Text
  pub password : Url → Text
  pub pathname : Url → Text
  pub search : Url → Text
  pub hash : Url → Text
  pub hostname : Url → Text
  pub port : Url → Text
  pub href : Url → Text
  pub set_hostname : Text → Url → Url
  pub set_lang : Text → Url → Url
  pub set_hash : Text → Url → Url

pub record MovedLinkOptions : Type 0 where
  pub current_host : Text
  pub lang : Option Text
  pub hash : Text

module _ (urls : Urls) where
  open urls use {Url}

  abbrev is_plain : Url → Bool
  is_plain u = not (
      nonempty (urls.username u)
      || nonempty (urls.password u)
      || not (urls.pathname u == codes "/")
      || nonempty (urls.search u)
      || nonempty (urls.hash u))

  abbrev is_usable_port : Option Text → Bool
  is_usable_port none = true
  is_usable_port (some s) = leb 1 (read_decimal s) && leb (read_decimal s) 65535

  abbrev plain_url : Text → Option Url
  plain_url at = elim (urls.parse (codes "http://" ++ at)) [
    | none ↦ none
    | some u ↦ if is_plain u then some u else none
  ]

  unfoldable pub address_url : Text → Option Url
  unfolding match_host_port
  address_url at = elim (match_host_port at) [
    | none ↦ none
    | some port ↦ if is_usable_port port then plain_url at else none
  ]

  abbrev pub canonical_host : Url → Text
  canonical_host u =
      if urls.hostname u == codes "localhost" then codes "127.0.0.1" else urls.hostname u

  abbrev pub at_origin : Option Url → Url → Url
  at_origin none u = u
  at_origin (some origin) u =
      if has wildcards (urls.hostname u) then urls.set_hostname (urls.hostname origin) u else u

  unfoldable pub listener_url : Text → Option Url → Option Url
  listener_url at origin = elim (address_url at) [
    | none ↦ none
    | some u ↦ some (at_origin origin u)
  ]

  abbrev pub same_port : Url → Url → Bool
  same_port a b = or_text (urls.port a) (codes "80") == or_text (urls.port b) (codes "80")

  abbrev pub same_origin : Option Url → Option Url → Bool
  same_origin (some listener) (some origin) =
      same_port listener origin && canonical_host listener == canonical_host origin
  same_origin _ _ = false

  unfoldable pub same_address : Text → Text → Bool
  same_address at current_host =
      let origin = address_url current_host in same_origin (listener_url at origin) origin

  abbrev answers_here : Option Url → Url → Bool
  answers_here none u = false
  answers_here (some origin) u = has loopbacks (urls.hostname u) && same_port u origin

  unfoldable pub reported_address : Text → Text → Text
  reported_address at current_host = elim (address_url at) [
    | none ↦ []
    | some u ↦ if answers_here (address_url current_host) u then current_host else at
  ]

  abbrev pub with_lang : Option Text → Url → Url
  with_lang none u = u
  with_lang (some lang) u = if is_empty lang then u else urls.set_lang lang u

  unfoldable pub moved_href : Text → MovedLinkOptions → Option Text
  moved_href at o = elim (listener_url at (address_url o.current_host)) [
    | none ↦ none
    | some u ↦
        if same_address at o.current_host
        then none
        else some (urls.href (urls.set_hash o.hash (with_lang o.lang u)))
  ]

-- `parsePort` of settings.ts
unfoldable pub parse_port : Text → Option ℕ
parse_port value =
    let trimmed = trim value in
    let port = read_decimal trimmed in
    if not (is_port_text trimmed) then none else if ltb 65535 port then none else some port

-- `value.split(/\r?\n/)`
unfoldable pub split_lines : Text → List Text
split_lines [] = [] ∷ []
split_lines (c ∷ []) = if nat_beq c 10 then [] ∷ [] ∷ [] else (c ∷ []) ∷ []
split_lines (c ∷ d ∷ s) =
    let after = split_lines s in
    let rest = split_lines (d ∷ s) in
    if nat_beq c 13 && nat_beq d 10
    then [] ∷ after
    else if nat_beq c 10
    then [] ∷ rest
    else add_head c rest

unfoldable pub read_lines : Text → List Text
unfolding split_lines
read_lines value = filter nonempty (map trim (split_lines value))
