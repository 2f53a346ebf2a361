-- ===== src/Stats.antt =====
-- app/web/ui/src/lib/types.ts: the traffic counters that the server reports. `N` is the type of
-- JavaScript's numbers.
use jumpway.Prelude.{ℕ, Bool, Option, List, Text}

pub record Stats (N : Type 0) : Type 0 where
  pub up : N
  pub down : N
  pub rate_up : N
  pub rate_down : N
  pub peak_rate_up : N
  pub peak_rate_down : N
  pub active : N
  pub total : N
  pub dials : N
  pub dial_failures : N
  pub latency_ms : N
  pub avg_latency_ms : N
  pub last_active : Option Text
  pub last_up : Option Text
  pub last_down : Option Text

pub record UrlStats (N : Type 0) : Type 0 where
  pub url : Text
  pub stats : Stats N

pub record Hop (N : Type 0) : Type 0 where
  pub index : ℕ
  pub parent_index : ℕ
  pub stats : Stats N
  pub urls : Option (List (UrlStats N))

pub record Target (N : Type 0) : Type 0 where
  pub address : Text
  pub via : Text
  pub stats : Stats N

pub record PathHop : Type 0 where
  pub index : ℕ
  pub url : Text
  pub dialed : Bool

pub record Process : Type 0 where
  pub pid : ℕ
  pub name : Text

pub record Connection (N : Type 0) : Type 0 where
  pub id : ℕ
  pub client : Option Text
  pub process : Option Process
  pub target : Text
  pub via : Text
  pub path : Option (List PathHop)
  pub started : Text
  pub stats : Stats N

pub record RuleStats (N : Type 0) : Type 0 where
  pub name : Text
  pub stats : Stats N
  pub listen : Option (List (Hop N))
  pub forward : Option (List (Hop N))
  pub targets : Option (List (Target N))
  pub connections : Option (List (Connection N))
  pub targets_evicted : ℕ

pub record Snapshot (N : Type 0) : Type 0 where
  pub since : Text
  pub rules : Option (List (RuleStats N))
