-- ===== src/Status/Counts.antt =====
-- The counts of the overview add up.
use jumpway.Prelude.{
  ap, ◌∙◌, ℕ, suc, ◌+◌, List, [], ◌∷◌, map, Option, none, some, list, length, filter, if◌then◌else◌,
  ◌≡◌, refl, arith, find?, ◌==◌, text_eq,
}
use jumpway.Wire.{Rule, is_disabled}
use jumpway.Status.{
  RuleStatus, RuleCardState, running, retrying, stopped, unknown, disabled, rule_state, card_state,
  RuleStateCounts, count_one, count_all, counted_states, zero_counts, count_rule_states,
}

length-map {ℓ κ} :
    {A : Type ℓ} {B : Type κ} (f : A → B) (xs : List A) → length (map f xs) ≡ length xs
length-map f [] = refl
length-map f (x ∷ xs) = ap suc (length-map f xs)

abbrev pub tally : RuleStateCounts → ℕ
tally c = c.running + c.retrying + c.stopped + c.unknown + c.disabled

tally-count_one : (s : RuleCardState) (c : RuleStateCounts) → tally (count_one s c) ≡ suc (tally c)
unfolding count_one
tally-count_one running c = omega arith
tally-count_one retrying c = omega arith
tally-count_one stopped c = omega arith
tally-count_one unknown c = omega arith
tally-count_one disabled c = omega arith

tally-count_all :
    (states : List RuleCardState) (c : RuleStateCounts)
    → tally (count_all states c) ≡ length states + tally c
unfolding count_all
tally-count_all [] c = omega arith
tally-count_all (s ∷ states) c =
    omega (arith, tally-count_all states (count_one s c), tally-count_one s c)

-- Whether a rule that is configured is shown as disabled depends on the rule alone.
card_state-disabled :
    (rule : Rule) (o : Option RuleStatus) (c : RuleStateCounts)
    → (count_one (card_state rule o) c).disabled
      ≡ (if is_disabled rule then suc c.disabled else c.disabled)
unfolding card_state count_one
card_state-disabled rule none c = ground arith
card_state-disabled rule (some s) c = ground arith

disabled-count_all :
    (rules : List Rule) (runtime : Option (List RuleStatus)) (c : RuleStateCounts)
    → (count_all (counted_states (some rules) runtime) c).disabled
      ≡ length (filter is_disabled rules) + c.disabled
unfolding count_all
disabled-count_all [] runtime c = omega arith
disabled-count_all (r ∷ rules) runtime c =
    let entry = find? (λ (s : RuleStatus). s.name == r.name) (list runtime) in
    ground (
      arith,
      card_state-disabled r entry c,
      disabled-count_all rules runtime (count_one (card_state r entry) c),
    )

-- The five counters add up to the total, which is the number of configured rules, or of runtime
-- entries while the configuration is unknown. Of configured rules exactly the disabled ones are
-- counted as disabled, whatever the runtime says.
pub count_rule_states-total :
    (rules : List Rule) (runtime : Option (List RuleStatus))
    → ((count_rule_states (some rules) runtime).total ≡ length rules)
      × ((count_rule_states none runtime).total ≡ length (list runtime))
      × (tally (count_rule_states (some rules) runtime) ≡ length rules)
      × (tally (count_rule_states none runtime) ≡ length (list runtime))
      × ((count_rule_states (some rules) runtime).disabled ≡ length (filter is_disabled rules))
unfolding count_rule_states
count_rule_states-total rules runtime =
    let shown = counted_states (some rules) runtime in
    let entries = counted_states none runtime in
    (
      length-map card rules,
      length-map entry_state (list runtime),
      tally-count_all shown zero_counts ∙ omega (arith, length-map card rules),
      tally-count_all entries zero_counts ∙ omega (arith, length-map entry_state (list runtime)),
      disabled-count_all rules runtime zero_counts ∙ omega arith,
    )
  where
    card : Rule → RuleCardState
    card rule = card_state rule (find? (λ (s : RuleStatus). s.name == rule.name) (list runtime))

    entry_state : RuleStatus → RuleCardState
    entry_state = rule_state
