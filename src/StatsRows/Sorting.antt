-- ===== src/StatsRows/Sorting.antt =====
-- app/web/ui/src/lib/statsRows.ts: the sorting of the rows.
use jumpway.Prelude.{
  ℕ, Bool, false, List, [], ◌∷◌, ◌++◌, map, Option, none, some, Text, text_eq, sort_by, IsOrder,
  above, above-IsOrder, on-IsOrder,
}
use jumpway.Search.{SortDirection, ascending, descending, ListSort}
use jumpway.Stats.{Stats}
use jumpway.StatsRows.{StatsRow}
use jumpway.Traffic.{
  TrafficKey, rate_up, rate_down, peak_rate_up, peak_rate_down, up, down, last_up, last_down,
  traffic_sort_keys,
}
use jumpway.Sorting.{
  Comparisons, IsComparison, directed, directed-IsOrder, instant_of, number_of, IsStable,
  sort_by-IsStable,
}

pub data RuleSortKey : Type 0 where
  configured name active dial_failures : RuleSortKey
  traffic : TrafficKey → RuleSortKey

abbrev pub default_rule_sort : ListSort RuleSortKey
default_rule_sort = record { key = configured; direction = ascending }

abbrev pub rule_sort_keys : List RuleSortKey
rule_sort_keys = configured ∷ name ∷ (map traffic traffic_sort_keys ++ active ∷ dial_failures ∷ [])

abbrev pub reverse_onto : {A : Type 0} → List A → List A → List A
reverse_onto acc [] = acc
reverse_onto acc (x ∷ xs) = reverse_onto (x ∷ acc) xs

-- `rows.slice().reverse()`
unfoldable pub reverse : {A : Type 0} → List A → List A
reverse xs = reverse_onto [] xs

module _ {N : Type 0} (c : Comparisons N) where
  abbrev stats_of : StatsRow N → Option (Stats N)
  stats_of row = elim row.entry [ none ↦ none | some entry ↦ some entry.stats ]

  -- A counter of a row.
  abbrev pub count_of : (Stats N → N) → StatsRow N → N
  count_of field row =
      number_of c (elim (stats_of row) [ none ↦ none | some stats ↦ some (field stats) ])

  abbrev pub time_of : (Stats N → Option Text) → StatsRow N → ℕ
  time_of field row = instant_of c (elim (stats_of row) [ none ↦ none | some stats ↦ field stats ])

  abbrev by_count : (Stats N → N) → StatsRow N → StatsRow N → Bool
  by_count field left right = c.exceeds (count_of field left) (count_of field right)

  abbrev by_time : (Stats N → Option Text) → StatsRow N → StatsRow N → Bool
  by_time field left right = above (time_of field left) (time_of field right)

  abbrev by_traffic : TrafficKey → StatsRow N → StatsRow N → Bool
  by_traffic rate_up = by_count (λ s. s.rate_up)
  by_traffic rate_down = by_count (λ s. s.rate_down)
  by_traffic peak_rate_up = by_count (λ s. s.peak_rate_up)
  by_traffic peak_rate_down = by_count (λ s. s.peak_rate_down)
  by_traffic up = by_count (λ s. s.up)
  by_traffic down = by_count (λ s. s.down)
  by_traffic last_up = by_time (λ s. s.last_up)
  by_traffic last_down = by_time (λ s. s.last_down)

  -- Whether a row belongs behind another; the configured order has no comparison.
  abbrev pub row_behind : RuleSortKey → StatsRow N → StatsRow N → Bool
  row_behind configured left right = false
  row_behind name left right = c.follows left.name right.name
  row_behind active left right = by_count (λ s. s.active) left right
  row_behind dial_failures left right = by_count (λ s. s.dial_failures) left right
  row_behind (traffic key) left right = by_traffic key left right

  abbrev in_order : SortDirection → List (StatsRow N) → List (StatsRow N)
  in_order ascending rows = rows
  in_order descending rows = reverse rows

  unfoldable pub sort_rows : List (StatsRow N) → ListSort RuleSortKey → List (StatsRow N)
  sort_rows rows sort = elim sort.key [
    | configured ↦ in_order sort.direction rows
    | key ↦ sort_by (directed sort.direction (row_behind key)) rows
  ]

  module _ (law : IsComparison c) where
    pub by_count-IsOrder : (field : Stats N → N) → IsOrder (by_count field)
    by_count-IsOrder field = on-IsOrder (count_of field) c.exceeds law.numbers

    by_time-IsOrder : (field : Stats N → Option Text) → IsOrder (by_time field)
    by_time-IsOrder field = on-IsOrder (time_of field) above above-IsOrder

    pub by_traffic-IsOrder : (key : TrafficKey) → IsOrder (by_traffic key)
    by_traffic-IsOrder rate_up = by_count-IsOrder (λ s. s.rate_up)
    by_traffic-IsOrder rate_down = by_count-IsOrder (λ s. s.rate_down)
    by_traffic-IsOrder peak_rate_up = by_count-IsOrder (λ s. s.peak_rate_up)
    by_traffic-IsOrder peak_rate_down = by_count-IsOrder (λ s. s.peak_rate_down)
    by_traffic-IsOrder up = by_count-IsOrder (λ s. s.up)
    by_traffic-IsOrder down = by_count-IsOrder (λ s. s.down)
    by_traffic-IsOrder last_up = by_time-IsOrder (λ s. s.last_up)
    by_traffic-IsOrder last_down = by_time-IsOrder (λ s. s.last_down)

    pub keyed :
        (direction : SortDirection) (key : RuleSortKey) (rows : List (StatsRow N))
        → IsOrder (row_behind key)
        → IsStable
            (directed direction (row_behind key))
            rows
            (sort_by (directed direction (row_behind key)) rows)
    keyed direction key rows o =
        sort_by-IsStable _ rows (directed-IsOrder direction (row_behind key) o)

    pub name-IsOrder : IsOrder (row_behind name)
    name-IsOrder = on-IsOrder (λ (r : StatsRow N). r.name) c.follows law.texts
