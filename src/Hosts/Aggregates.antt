-- ===== src/Hosts/Aggregates.antt =====
-- app/web/ui/src/lib/hosts.ts: the hosts with their sums, their order, and their search.
use jumpway.Prelude.{
  Bool, List, [], ◌∷◌, ◌++◌, map, Option, some, Text, filter, sort_by, IsOrder, IsSortedBy, or_else,
  or_else-IsOrder, on-IsOrder, sort_by-IsSortedBy,
}
use jumpway.Hosts.{Parser, EndpointUse, EndpointBucket, HostBucket, host_buckets}
use jumpway.Hosts.Sums.{sum_stats}
use jumpway.Search.{fuzzy_match, descending, ListSort}
use jumpway.Sorting.{
  Comparisons, IsComparison, directed, directed-IsOrder, IsStable, sort_by-IsStable,
}
use jumpway.Stats.{Stats, RuleStats}

pub record HostEndpoint (N : Type 0) : Type 0 where
  pub endpoint : Text
  pub urls : List Text
  pub uses : List EndpointUse
  pub stats : Stats N

pub record HostAggregate (N : Type 0) : Type 0 where
  pub host : Text
  pub rules : List Text
  pub stats : Stats N
  pub endpoints : List (HostEndpoint N)

pub data HostSortKey : Type 0 where
  traffic host rate active dial_failures latency : HostSortKey

abbrev pub default_host_sort : ListSort HostSortKey
default_host_sort = record { key = traffic; direction = descending }

abbrev pub host_sort_keys : List HostSortKey
host_sort_keys = traffic ∷ host ∷ rate ∷ active ∷ dial_failures ∷ latency ∷ []

-- `m.values()`
abbrev values : {K V : Type 0} → List (K × V) → List V
values [] = []
values ((key, value) ∷ entries) = value ∷ values entries

module _ {N : Type 0} where
  abbrev all_samples : List (EndpointBucket N) → List (Stats N)
  all_samples [] = []
  all_samples (bucket ∷ buckets) = bucket.samples ++ all_samples buckets

  unfoldable pub filter_hosts :
      (Text → Text) → List (HostAggregate N) → Text → List (HostAggregate N)
  unfolding fuzzy_match
  filter_hosts lower hosts query =
      filter
        (λ (h : HostAggregate N).
          fuzzy_match lower query
            (some h.host ∷ map (λ (e : HostEndpoint N). some e.endpoint) h.endpoints))
        hosts

module _ {N : Type 0} (c : Comparisons N) where
  abbrev pub total_bytes : Stats N → N
  total_bytes s = c.add s.up s.down

  -- `totalBytes(right) - totalBytes(left)`
  abbrev pub endpoint_behind : HostEndpoint N → HostEndpoint N → Bool
  endpoint_behind left right = c.exceeds (total_bytes right.stats) (total_bytes left.stats)

  abbrev by_bytes : HostAggregate N → HostAggregate N → Bool
  by_bytes left right = c.exceeds (total_bytes right.stats) (total_bytes left.stats)

  abbrev by_host : HostAggregate N → HostAggregate N → Bool
  by_host left right = c.follows_default left.host right.host

  abbrev pub aggregate_behind : HostAggregate N → HostAggregate N → Bool
  aggregate_behind = or_else by_bytes by_host

  abbrev pub summed : EndpointBucket N → HostEndpoint N
  summed b = record {
    endpoint = b.endpoint;
    urls = b.urls;
    uses = b.uses;
    stats = sum_stats c b.samples;
  }

  abbrev pub aggregated : HostBucket N → HostAggregate N
  aggregated b =
      let buckets = values b.endpoints in
      record {
        host = b.host;
        rules = b.rules;
        stats = sum_stats c (all_samples buckets);
        endpoints = sort_by endpoint_behind (map summed buckets);
      }

  unfoldable pub aggregate_hosts : Parser → Option (List (RuleStats N)) → List (HostAggregate N)
  unfolding host_buckets
  aggregate_hosts parser rules =
      sort_by aggregate_behind (map aggregated (values (host_buckets parser rules)))

  abbrev pub host_value : HostSortKey → HostAggregate N → N
  host_value traffic h = c.add h.stats.up h.stats.down
  host_value rate h = c.add h.stats.rate_up h.stats.rate_down
  host_value active h = h.stats.active
  host_value dial_failures h = h.stats.dial_failures
  host_value latency h = h.stats.avg_latency_ms
  host_value host h = c.zero

  -- Whether a host belongs behind another by a key.
  abbrev pub host_behind : HostSortKey → HostAggregate N → HostAggregate N → Bool
  host_behind host left right = c.follows left.host right.host
  host_behind key left right = c.exceeds (host_value key left) (host_value key right)

  unfoldable pub sort_hosts : List (HostAggregate N) → ListSort HostSortKey → List (HostAggregate N)
  sort_hosts hosts sort = sort_by (directed sort.direction (host_behind sort.key)) hosts

  module _ (law : IsComparison c) where
    host_behind-IsOrder : (key : HostSortKey) → IsOrder (host_behind key)
    host_behind-IsOrder host = on-IsOrder (λ (h : HostAggregate N). h.host) c.follows law.texts
    host_behind-IsOrder traffic = on-IsOrder (host_value traffic) c.exceeds law.numbers
    host_behind-IsOrder rate = on-IsOrder (host_value rate) c.exceeds law.numbers
    host_behind-IsOrder active = on-IsOrder (host_value active) c.exceeds law.numbers
    host_behind-IsOrder dial_failures = on-IsOrder (host_value dial_failures) c.exceeds law.numbers
    host_behind-IsOrder latency = on-IsOrder (host_value latency) c.exceeds law.numbers

    endpoint_behind-IsOrder : IsOrder endpoint_behind
    endpoint_behind-IsOrder =
        directed-IsOrder descending _
          (on-IsOrder (λ (e : HostEndpoint N). total_bytes e.stats) c.exceeds law.numbers)

    by_bytes-IsOrder : IsOrder by_bytes
    by_bytes-IsOrder =
        directed-IsOrder descending _
          (on-IsOrder (λ (h : HostAggregate N). total_bytes h.stats) c.exceeds law.numbers)

    aggregate_behind-IsOrder : IsOrder aggregate_behind
    aggregate_behind-IsOrder =
        or_else-IsOrder by_bytes by_host by_bytes-IsOrder
          (on-IsOrder (λ (h : HostAggregate N). h.host) c.follows_default law.default)

    -- Where differences of numbers and the collation are orders: the hosts stand by a key in the direction
    -- that is asked for, and those that it does not tell apart are the ones that were given, in the given
    -- order, in either direction.
    pub sort_hosts-IsStable :
        (hosts : List (HostAggregate N)) (sort : ListSort HostSortKey)
        → IsStable (directed sort.direction (host_behind sort.key)) hosts (sort_hosts hosts sort)
    unfolding sort_hosts
    sort_hosts-IsStable hosts sort =
        sort_by-IsStable _ hosts
          (directed-IsOrder sort.direction (host_behind sort.key) (host_behind-IsOrder sort.key))

    -- Where differences of numbers and the collation are orders: the hosts of a snapshot stand by their
    -- bytes, the most first, and those of as many bytes by their names.
    pub aggregate_hosts-IsSortedBy :
        (parser : Parser) (rules : Option (List (RuleStats N)))
        → IsSortedBy aggregate_behind (aggregate_hosts parser rules)
    unfolding aggregate_hosts
    aggregate_hosts-IsSortedBy parser rules =
        sort_by-IsSortedBy aggregate_behind aggregate_behind-IsOrder _
