-- ===== src/Hosts.antt =====
-- app/web/ui/src/lib/hosts.ts: the traffic of the hosts that the hops lead to. `aggregateHosts` is here up
-- to its map of hosts; Aggregates is the rest. The browser's `URL` is a parameter.
pub mod Once
pub mod Visits
pub mod Groups
pub mod Sums
pub mod Aggregates
use jumpway.Prelude.{
  ℕ, Bool, true, false, not, ◌&&◌, ◌||◌, List, [], ◌∷◌, ◌++◌, Option, none, some, is_some, get_or,
  list, Text, text_eq, codes, trim, is_empty, any, nat_beq, leb, lookup, insert, if◌then◌else◌,
  ◌==◌,
}
use jumpway.Endpoint.{or_text}
use jumpway.Way.{nonempty}
use jumpway.Stats.{Stats, UrlStats, Hop, RuleStats}

-- The browser's `URL`, as far as it is used here: `parse` is the constructor, which may throw.
pub record Parser : Type 1 where
  pub Url : Type 0
  pub parse : Text → Option Url
  pub protocol : Url → Text
  pub hostname : Url → Text
  pub port : Url → Text

pub data UseWay : Type 0 where
  listen forward : UseWay

abbrev way_beq : UseWay → UseWay → Bool
way_beq listen listen = true
way_beq forward forward = true
way_beq _ _ = false

pub record EndpointUse : Type 0 where
  pub rule : Text
  pub way : UseWay
  pub index : ℕ

pub record EndpointBucket (N : Type 0) : Type 0 where
  pub endpoint : Text
  pub urls : List Text
  pub uses : List EndpointUse
  pub samples : List (Stats N)

pub record HostBucket (N : Type 0) : Type 0 where
  pub host : Text
  pub rules : List Text
  pub endpoints : List (Text × EndpointBucket N)

abbrev pub use_beq : EndpointUse → EndpointUse → Bool
use_beq a b = a.rule == b.rule && way_beq a.way b.way && nat_beq a.index b.index

-- `set.add(x)`
abbrev pub add_text : Text → List Text → List Text
add_text x xs = if any (λ y. y == x) xs then xs else xs ++ x ∷ []

-- A use is listed once.
abbrev pub add_use : EndpointUse → List EndpointUse → List EndpointUse
add_use u us = if any (λ v. use_beq v u) us then us else us ++ u ∷ []

abbrev pub is_scheme_char : ℕ → Bool
is_scheme_char c =
    (leb b'a' c && leb c b'z')
    || (leb b'A' c && leb c b'Z')
    || (leb b'0' c && leb c b'9')
    || nat_beq c b'+'
    || nat_beq c b'.'
    || nat_beq c b'-'

-- What stands behind the colon of a scheme, if one ends here.
after_scheme : Text → Option Text
after_scheme [] = none
after_scheme (c ∷ s) =
    let rest = after_scheme s in
    if nat_beq c b':' then some s else if is_scheme_char c then rest else none

abbrev pub is_letter : ℕ → Bool
is_letter c = (leb b'a' c && leb c b'z') || (leb b'A' c && leb c b'Z')

-- `value.replace(/^[a-z][a-z\d+.-]*:/i, 'endpoint:')`
unfoldable pub replace_scheme : Text → Text
unfolding after_scheme
replace_scheme [] = []
replace_scheme (c ∷ s) =
    if not (is_letter c)
    then c ∷ s
    else elim (after_scheme s) [ none ↦ c ∷ s | some rest ↦ codes "endpoint:" ++ rest ]

module _ {N : Type 0} where
  abbrev pub new_host : Text → HostBucket N
  new_host name = record { host = name; rules = []; endpoints = [] }

  abbrev pub new_endpoint : Text → EndpointBucket N
  new_endpoint label = record { endpoint = label; urls = []; uses = []; samples = [] }

  abbrev pub host_of : Text → List (Text × HostBucket N) → HostBucket N
  host_of name hosts = get_or (lookup name hosts) (new_host name)

  abbrev pub endpoint_of : Text → HostBucket N → EndpointBucket N
  endpoint_of label host = get_or (lookup label host.endpoints) (new_endpoint label)

  abbrev pub extend : EndpointUse → UrlStats N → EndpointBucket N → EndpointBucket N
  extend u entry endpoint = record endpoint {
    urls = add_text entry.url endpoint.urls;
    samples = endpoint.samples ++ entry.stats ∷ [];
    uses = add_use u endpoint.uses;
  }

module _ (parser : Parser) where
  open parser use {Url}

  abbrev with_port : Text → Text → Text
  with_port shown port = if nonempty port then shown ++ b':' ∷ port else shown

  abbrev display_host : Text → Url → Text
  display_host raw url = elim (parser.parse (replace_scheme (trim raw))) [
    | none ↦ raw
    | some authority ↦
        with_port (parser.protocol url ++ codes "//" ++ parser.hostname url) (parser.port authority)
  ]

  -- `displayURL` of format.ts
  unfoldable pub display_url : Text → Text
  unfolding replace_scheme
  display_url raw = elim (parser.parse raw) [
    | none ↦ raw
    | some url ↦ if is_empty (parser.hostname url) then raw else display_host raw url
  ]

  -- The key of a host.
  unfoldable pub host_key : Text → Text
  host_key url = elim (parser.parse url) [ none ↦ url | some u ↦ or_text (parser.hostname u) url ]

  module _ {N : Type 0} where
    abbrev extend_host : EndpointUse → UrlStats N → HostBucket N → HostBucket N
    extend_host u entry host =
        let label = display_url entry.url in
        record host {
          rules = add_text u.rule host.rules;
          endpoints = insert label (extend u entry (endpoint_of label host)) host.endpoints;
        }

    -- One round of the innermost loop.
    unfoldable pub add_entry :
        EndpointUse → UrlStats N → List (Text × HostBucket N) → List (Text × HostBucket N)
    add_entry u entry hosts =
        let name = host_key entry.url in
        insert name (extend_host u entry (host_of name hosts)) hosts

    unfoldable pub add_urls :
        EndpointUse → List (UrlStats N) → List (Text × HostBucket N) → List (Text × HostBucket N)
    unfolding add_entry
    add_urls u [] hosts = hosts
    add_urls u (entry ∷ entries) hosts = add_urls u entries (add_entry u entry hosts)

    unfoldable pub add_hops :
        Text → UseWay → List (Hop N) → List (Text × HostBucket N) → List (Text × HostBucket N)
    unfolding add_urls
    add_hops rule way [] hosts = hosts
    add_hops rule way (hop ∷ hops) hosts =
        add_hops rule way hops
          (add_urls (record { rule = rule; way = way; index = hop.index }) (list hop.urls) hosts)

    unfoldable pub add_rules :
        List (RuleStats N) → List (Text × HostBucket N) → List (Text × HostBucket N)
    unfolding add_hops
    add_rules [] hosts = hosts
    add_rules (rule ∷ rules) hosts = add_rules rules (
        add_hops rule.name forward (list rule.forward)
          (add_hops rule.name listen (list rule.listen) hosts))

    -- The map of hosts once the loops are done.
    unfoldable pub host_buckets : Option (List (RuleStats N)) → List (Text × HostBucket N)
    unfolding add_rules
    host_buckets rules = add_rules (list rules) []
