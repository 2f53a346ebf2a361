-- ===== src/Status.antt =====
-- app/web/ui/src/lib/status.svelte.ts: what the pages show of a rule's state, and how many rules are
-- in each. `RuleStatus` is the one of types.ts.
pub mod Counts
use jumpway.Prelude.{
  ℕ, suc, Bool, true, false, List, [], ◌∷◌, map, Option, none, some, Text, text_eq, ltb, get_or,
  find?, list, length, ◌==◌, if◌then◌else◌,
}
use jumpway.Wire.{Rule, is_disabled}

pub record RuleStatus : Type 0 where
  pub name : Text
  pub address : Text
  pub target : Option Text
  pub remote : Bool
  pub running : Bool
  pub attempt : Option ℕ
  pub error : Option Text

-- What an answer of the status poller says of the program; `unreachable` is `ApiError.unreachable`.
pub record Status : Type 0 where
  pub address : Text
  pub running : Bool
  pub error : Option Text
  pub rules : Option (List RuleStatus)

pub data RuntimeState : Type 0 where
  running stopped unknown : RuntimeState

unfoldable pub runtime_state : (unreachable : Bool) → (running : Option Bool) → RuntimeState
runtime_state unreachable run =
    if unreachable
    then unknown
    else elim run [ none ↦ unknown | some true ↦ running | some false ↦ stopped ]

pub data RuleCardState : Type 0 where
  running retrying stopped unknown disabled : RuleCardState

unfoldable pub rule_state : RuleStatus → RuleCardState
rule_state s =
    if s.running
    then RuleCardState.running
    else if ltb 0 (get_or s.attempt 0)
    then retrying
    else RuleCardState.stopped

unfoldable pub card_state : Rule → Option RuleStatus → RuleCardState
unfolding rule_state
card_state rule runtime =
    if is_disabled rule
    then disabled
    else elim runtime [ none ↦ RuleCardState.unknown | some s ↦ rule_state s ]

pub record RuleStateCounts : Type 0 where
  pub total : ℕ
  pub running : ℕ
  pub retrying : ℕ
  pub stopped : ℕ
  pub unknown : ℕ
  pub disabled : ℕ

abbrev pub zero_counts : RuleStateCounts
zero_counts = record {
  total = 0;
  running = 0;
  retrying = 0;
  stopped = 0;
  unknown = 0;
  disabled = 0;
}

-- `counts[state]++`
count_one : RuleCardState → RuleStateCounts → RuleStateCounts
count_one running c = record c { running = suc c.running }
count_one retrying c = record c { retrying = suc c.retrying }
count_one stopped c = record c { stopped = suc c.stopped }
count_one unknown c = record c { unknown = suc c.unknown }
count_one disabled c = record c { disabled = suc c.disabled }

count_all : List RuleCardState → RuleStateCounts → RuleStateCounts
unfolding count_one
count_all [] c = c
count_all (s ∷ states) c = count_all states (count_one s c)

-- The states that are counted: of the configured rules, or of the runtime entries while the
-- configuration is not known.
abbrev pub counted_states : Option (List Rule) → Option (List RuleStatus) → List RuleCardState
counted_states none runtime = map rule_state (list runtime)
counted_states (some rules) runtime =
    map
      (λ (rule : Rule).
        card_state rule (find? (λ (s : RuleStatus). s.name == rule.name) (list runtime)))
      rules

unfoldable pub count_rule_states : Option (List Rule) → Option (List RuleStatus) → RuleStateCounts
unfolding count_all
count_rule_states rules runtime =
    let states = counted_states rules runtime in
    record (count_all states zero_counts) { total = length states }
