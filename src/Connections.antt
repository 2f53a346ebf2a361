-- ===== src/Connections.antt =====
-- app/web/ui/src/lib/connections.ts: the connections of all rules, and their search.
pub mod Filter
pub mod Sorting
pub mod Labels
use jumpway.Prelude.{
  Bool, true, false, not, ◌&&◌, ◌||◌, List, [], ◌∷◌, ◌++◌, map, Option, none, some, list, Text,
  text_eq, is_empty, filter, ◌==◌, if◌then◌else◌,
}
use jumpway.Stats.{Process, Connection, RuleStats}
use jumpway.Search.{fuzzy_match}

pub record RuleConnection (N : Type 0) : Type 0 where
  pub connection : Connection N
  pub rule : Text

abbrev pub process_name : Option Process → Option Text
process_name none = none
process_name (some p) = some p.name

module _ {N : Type 0} where
  abbrev pub connections_of : Text → List (Connection N) → List (RuleConnection N)
  connections_of name [] = []
  connections_of name (c ∷ connections) =
      (record { connection = c; rule = name }) ∷ connections_of name connections

  abbrev pub all_connections : List (RuleStats N) → List (RuleConnection N)
  all_connections [] = []
  all_connections (rule ∷ rules) =
      connections_of rule.name (list rule.connections) ++ all_connections rules

  unfoldable pub current_connections : Option (List (RuleStats N)) → List (RuleConnection N)
  current_connections rules = all_connections (list rules)

  -- What is searched of a connection.
  abbrev pub search_texts : RuleConnection N → List (Option Text)
  search_texts c =
      some c.connection.target
      ∷ c.connection.client
      ∷ some c.rule
      ∷ process_name c.connection.process
      ∷ []

  abbrev pub is_found : (Text → Text) → Text → Text → RuleConnection N → Bool
  is_found lower rule query c =
      (is_empty rule || c.rule == rule) && fuzzy_match lower query (search_texts c)

  unfoldable pub filter_connections :
      (Text → Text) → List (RuleConnection N) → Text → Text → List (RuleConnection N)
  unfolding fuzzy_match
  filter_connections lower connections rule query = filter (is_found lower rule query) connections
