-- ===== src/Connections/Sorting.antt =====
-- app/web/ui/src/lib/connections.ts: the labels of clients, and the sorting of connections by the keys that
-- the menu offers.
use jumpway.Prelude.{
  Bool, List, [], ◌∷◌, map, Option, some, get_or, Text, sort_by, above, IsOrder, or_else,
  above-IsOrder, or_else-IsOrder, on-IsOrder,
}
use jumpway.Endpoint.{or_text}
use jumpway.Format.{display_client}
use jumpway.Hosts.{Parser}
use jumpway.Search.{descending, ListSort}
use jumpway.Stats.{Stats, Process}
use jumpway.Traffic.{
  TrafficKey, rate_up, rate_down, peak_rate_up, peak_rate_down, up, down, last_up, last_down,
  traffic_sort_keys,
}
use jumpway.Sorting.{
  Comparisons, IsComparison, directed, directed-IsOrder, instant_of, number_of, IsStable,
  sort_by-IsStable,
}
use jumpway.Connections.{RuleConnection, process_name}

pub data ConnectionSortKey : Type 0 where
  started target client rule : ConnectionSortKey
  traffic : TrafficKey → ConnectionSortKey

abbrev pub default_connection_sort : ListSort ConnectionSortKey
default_connection_sort = record { key = started; direction = descending }

abbrev pub connection_sort_keys : List ConnectionSortKey
connection_sort_keys = started ∷ target ∷ client ∷ rule ∷ map traffic traffic_sort_keys

module _ (parser : Parser) where
  unfoldable pub client_label : Option Text → Option Process → Text
  unfolding display_client
  client_label from process =
      or_text (get_or (process_name process) []) (display_client parser from)

  module _ {N : Type 0} (c : Comparisons N) where
    abbrev by_text : (RuleConnection N → Text) → RuleConnection N → RuleConnection N → Bool
    by_text value left right = c.follows (value left) (value right)

    abbrev by_count : (Stats N → N) → RuleConnection N → RuleConnection N → Bool
    by_count field left right =
        c.exceeds (number_of c (some (field left.connection.stats)))
          (number_of c (some (field right.connection.stats)))

    abbrev by_time : (RuleConnection N → Option Text) → RuleConnection N → RuleConnection N → Bool
    by_time value left right = above (instant_of c (value left)) (instant_of c (value right))

    abbrev by_traffic : TrafficKey → RuleConnection N → RuleConnection N → Bool
    by_traffic rate_up = by_count (λ s. s.rate_up)
    by_traffic rate_down = by_count (λ s. s.rate_down)
    by_traffic peak_rate_up = by_count (λ s. s.peak_rate_up)
    by_traffic peak_rate_down = by_count (λ s. s.peak_rate_down)
    by_traffic up = by_count (λ s. s.up)
    by_traffic down = by_count (λ s. s.down)
    by_traffic last_up = by_time (λ r. r.connection.stats.last_up)
    by_traffic last_down = by_time (λ r. r.connection.stats.last_down)

    -- Whether a connection belongs behind another by a key.
    abbrev pub connection_behind : ConnectionSortKey → RuleConnection N → RuleConnection N → Bool
    connection_behind started = by_time (λ r. some r.connection.started)
    connection_behind target = by_text (λ r. r.connection.target)
    connection_behind client = by_text (λ r. client_label r.connection.client r.connection.process)
    connection_behind rule = by_text (λ r. r.rule)
    connection_behind (traffic key) = by_traffic key

    -- `left.id - right.id`
    abbrev pub id_behind : RuleConnection N → RuleConnection N → Bool
    id_behind left right = above left.connection.id right.connection.id

    abbrev pub in_turn : ListSort ConnectionSortKey → RuleConnection N → RuleConnection N → Bool
    in_turn sort = or_else (directed sort.direction (connection_behind sort.key)) id_behind

    unfoldable pub sort_connections :
        List (RuleConnection N) → ListSort ConnectionSortKey → List (RuleConnection N)
    sort_connections connections sort = sort_by (in_turn sort) connections

    module _ (law : IsComparison c) where
      by_count-IsOrder : (field : Stats N → N) → IsOrder (by_count field)
      by_count-IsOrder field =
          on-IsOrder (λ (r : RuleConnection N). number_of c (some (field r.connection.stats)))
            c.exceeds law.numbers

      by_time-IsOrder : (value : RuleConnection N → Option Text) → IsOrder (by_time value)
      by_time-IsOrder value = on-IsOrder (λ r. instant_of c (value r)) above above-IsOrder

      connection_behind-IsOrder : (key : ConnectionSortKey) → IsOrder (connection_behind key)
      connection_behind-IsOrder started = by_time-IsOrder (λ r. some r.connection.started)
      connection_behind-IsOrder target =
          on-IsOrder (λ (r : RuleConnection N). r.connection.target) c.follows law.texts
      connection_behind-IsOrder client =
          on-IsOrder
            (λ (r : RuleConnection N). client_label r.connection.client r.connection.process)
            c.follows law.texts
      connection_behind-IsOrder rule =
          on-IsOrder (λ (r : RuleConnection N). r.rule) c.follows law.texts
      connection_behind-IsOrder (traffic rate_up) = by_count-IsOrder (λ s. s.rate_up)
      connection_behind-IsOrder (traffic rate_down) = by_count-IsOrder (λ s. s.rate_down)
      connection_behind-IsOrder (traffic peak_rate_up) = by_count-IsOrder (λ s. s.peak_rate_up)
      connection_behind-IsOrder (traffic peak_rate_down) = by_count-IsOrder (λ s. s.peak_rate_down)
      connection_behind-IsOrder (traffic up) = by_count-IsOrder (λ s. s.up)
      connection_behind-IsOrder (traffic down) = by_count-IsOrder (λ s. s.down)
      connection_behind-IsOrder (traffic last_up) =
          by_time-IsOrder (λ r. r.connection.stats.last_up)
      connection_behind-IsOrder (traffic last_down) =
          by_time-IsOrder (λ r. r.connection.stats.last_down)

      -- Where differences of numbers and the collation are orders: the connections stand by the key in the
      -- direction that is asked for, those that it does not tell apart by their ids, the smaller first in
      -- either direction; and those of one id as they were given.
      pub sort_connections-IsStable :
          (connections : List (RuleConnection N)) (sort : ListSort ConnectionSortKey)
          → IsStable
              (or_else (directed sort.direction (connection_behind sort.key)) id_behind)
              connections
              (sort_connections connections sort)
      unfolding sort_connections
      sort_connections-IsStable connections sort = sort_by-IsStable (in_turn sort) connections (
          or_else-IsOrder (directed sort.direction (connection_behind sort.key)) id_behind
            (directed-IsOrder sort.direction (connection_behind sort.key)
              (connection_behind-IsOrder sort.key))
            (on-IsOrder (λ (r : RuleConnection N). r.connection.id) above above-IsOrder))
