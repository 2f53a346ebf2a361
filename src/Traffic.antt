-- ===== src/Traffic.antt =====
-- app/web/ui/src/lib/traffic.ts: the counters that a list can be sorted by, and their labels. A message is
-- named by its key.
use jumpway.Prelude.{
  ℕ, Bool, List, [], ◌∷◌, ◌++◌, Option, none, some, Text, codes, nat_beq, if◌then◌else◌,
}

pub data TrafficKey : Type 0 where
  rate_up rate_down peak_rate_up peak_rate_down up down last_up last_down : TrafficKey

pub record Direction : Type 0 where
  pub label : Text
  pub help : Text
  pub rate : TrafficKey
  pub peak : TrafficKey
  pub total : TrafficKey
  pub last : TrafficKey

abbrev pub upwards : Direction
upwards = record {
  label = codes "upload";
  help = codes "help.upload";
  rate = rate_up;
  peak = peak_rate_up;
  total = up;
  last = last_up;
}

abbrev pub downwards : Direction
downwards = record {
  label = codes "download";
  help = codes "help.download";
  rate = rate_down;
  peak = peak_rate_down;
  total = down;
  last = last_down;
}

abbrev pub directions : List Direction
directions = upwards ∷ downwards ∷ []

pub data TrafficMetric : Type 0 where
  rate peak total last : TrafficMetric

abbrev pub traffic_metrics : List TrafficMetric
traffic_metrics = rate ∷ peak ∷ total ∷ last ∷ []

abbrev pub metric_label : TrafficMetric → Text
metric_label rate = codes "nowShort"
metric_label peak = codes "peak"
metric_label total = codes "totalShort"
metric_label last = codes "lastShort"

abbrev pub metric_help : TrafficMetric → Text
metric_help rate = codes "help.now"
metric_help peak = codes "help.peak"
metric_help total = codes "help.total"
metric_help last = codes "help.last"

-- `direction[metric]`
abbrev pub key_at : Direction → TrafficMetric → TrafficKey
key_at d rate = d.rate
key_at d peak = d.peak
key_at d total = d.total
key_at d last = d.last

abbrev keys_from : List TrafficMetric → List TrafficKey
keys_from [] = []
keys_from (m ∷ ms) = key_at downwards m ∷ key_at upwards m ∷ keys_from ms

abbrev pub traffic_sort_keys : List TrafficKey
traffic_sort_keys = keys_from traffic_metrics

abbrev place_of : TrafficKey → ℕ
place_of rate_up = 0
place_of rate_down = 1
place_of peak_rate_up = 2
place_of peak_rate_down = 3
place_of up = 4
place_of down = 5
place_of last_up = 6
place_of last_down = 7

abbrev pub key_beq : TrafficKey → TrafficKey → Bool
key_beq a b = nat_beq (place_of a) (place_of b)

-- `translate` is `t` of a key without values.
module _ (translate : Text → Text) where
  abbrev label_among : TrafficKey → Direction → List TrafficMetric → Option Text
  label_among key d [] = none
  label_among key d (m ∷ ms) =
      let further = label_among key d ms in
      if key_beq (key_at d m) key
      then some (translate d.label ++ (codes " · " ++ translate (metric_label m)))
      else further

  abbrev label_in : TrafficKey → List Direction → Option Text
  label_in key [] = none
  label_in key (d ∷ ds) = elim (label_among key d traffic_metrics) [
    | some label ↦ some label
    | none ↦ label_in key ds
  ]

  -- None stands for the key itself, where it is no traffic counter.
  abbrev pub traffic_sort_label : TrafficKey → Option Text
  traffic_sort_label key = label_in key directions
