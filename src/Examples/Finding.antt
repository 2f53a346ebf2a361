-- ===== src/Examples/Finding.antt =====
-- The hosts of a snapshot, and the search, at concrete texts.
use jumpway.Prelude.{
  ℕ, length, read_decimal, is_empty, true, List, [], ◌∷◌, drop, Option, none, some, is_some, get_or,
  list, Text, codes, text_eq, trim, any, filter, lookup, unique, In, if◌then◌else◌, ◌≡◌, ◌↔◌, ◌⊎◌,
  refl,
}
use jumpway.Api.{starts_with}
use jumpway.Stats.{Connection, Target, UrlStats, Hop, RuleStats}
use jumpway.Hosts.{Parser, host_key, host_buckets, host_of, endpoint_of}
use jumpway.Hosts.Visits.{visits, is_at, is_at_host, samples_of, urls_of, rules_of}
use jumpway.Hosts.Groups.{host_buckets-groups}
use jumpway.Search.{characters, fuzzy_match}
use jumpway.Search.Subsequence.{IsWithin, fuzzy_match_iff}
use jumpway.StatsRows.{visible_targets}
use jumpway.StatsRows.Targets.{IsVisible, visible_targets-IsVisible}
use jumpway.Connections.{RuleConnection}
use jumpway.Examples.Pages.{idle, web_stats}

-- URLs of the scheme `ssh` alone.
abbrev ssh : Parser
ssh = record {
  Url = Text;
  parse = λ s. if starts_with (codes "ssh://") s then some (drop 6 s) else none;
  protocol = λ u. codes "ssh:";
  hostname = λ u. u;
  port = λ u. [];
}

abbrev entry : Text → UrlStats ℕ
entry url = record { url = url; stats = idle }

abbrev one_hop : List (UrlStats ℕ) → Option (List (Hop ℕ))
one_hop urls = some ((record { index = 0; parent_index = 0; stats = idle; urls = some urls }) ∷ [])

-- Two rules with the host `a`, and a command.
abbrev seen : Option (List (RuleStats ℕ))
seen = some (
    (record web_stats { listen = one_hop (entry (codes "ssh://a") ∷ entry (codes "cmd:b") ∷ []) })
    ∷ (record web_stats { name = codes "lab"; forward = one_hop (entry (codes "ssh://a") ∷ []) })
    ∷ [])

key_test : host_key ssh (codes "ssh://a") ≡ codes "a"
unfolding host_key
key_test = refl

host_buckets-groups_example :
    let hosts = host_buckets ssh seen in
    let at_host = filter (is_at_host ssh (codes "a")) (visits (list seen)) in
    let found = filter (is_at ssh (codes "a") (codes "ssh://a")) (visits (list seen)) in
    (is_some (lookup (codes "a") hosts) ≡ any (is_at_host ssh (codes "a")) (visits (list seen)))
    × (is_some (lookup (codes "ssh://a") (host_of (codes "a") hosts).endpoints)
        ≡ any (is_at ssh (codes "a") (codes "ssh://a")) (visits (list seen)))
    × ((endpoint_of (codes "ssh://a") (host_of (codes "a") hosts)).samples ≡ samples_of found)
    × ((endpoint_of (codes "ssh://a") (host_of (codes "a") hosts)).urls ≡ unique (urls_of found))
    × ((host_of (codes "a") hosts).rules ≡ unique (rules_of at_host))
host_buckets-groups_example = host_buckets-groups ssh seen (codes "a") (codes "ssh://a")

abbrev addresses : List (Option Text)
addresses = none ∷ some (codes "127.0.0.1:18094") ∷ []

search_test : fuzzy_match (λ s. s) (codes " 1809") addresses ≡ true
unfolding fuzzy_match trim
search_test = refl

fuzzy_match_iff_example : (fuzzy_match (λ s. s) (codes " 1809") addresses ≡ true) ↔ (
    (trim (codes " 1809") ≡ [])
    ⊎ ((v : Option Text) × In v addresses
        × IsWithin (characters (trim (codes " 1809"))) (get_or v [])))
fuzzy_match_iff_example = fuzzy_match_iff (λ s. s) (codes " 1809") addresses

-- Instants written as numbers.
abbrev instant : Text → Option ℕ
instant s = if is_empty s then none else some (read_decimal s)

abbrev target : Text → Option Text → Target ℕ
target address last_active = record {
  address = address;
  via = [];
  stats = record idle { last_active = last_active };
}

abbrev targets : List (Target ℕ)
targets =
    target (codes "never") none
    ∷ target (codes "old") (some (codes "5"))
    ∷ target (codes "new") (some (codes "9"))
    ∷ []

targets_test :
    (visible_targets instant (some targets) 2).0
    ≡ target (codes "new") (some (codes "9")) ∷ target (codes "old") (some (codes "5")) ∷ []
unfolding visible_targets
targets_test = refl

visible_targets-IsVisible_example :
    IsVisible instant targets (visible_targets instant (some targets) 2).0 2
    × ((visible_targets instant (some targets) 2).1 ≡ length targets)
visible_targets-IsVisible_example = visible_targets-IsVisible instant (some targets) 2

abbrev call : Connection ℕ
call = record {
  id = 1;
  client = some (codes "127.0.0.1:5");
  process = none;
  target = codes "example:80";
  via = [];
  path = none;
  started = [];
  stats = idle;
}

abbrev calls : Option (List (RuleStats ℕ))
calls = some ((record web_stats { connections = some (call ∷ []) }) ∷ [])

abbrev web_call : RuleConnection ℕ
web_call = record { connection = call; rule = codes "web" }
