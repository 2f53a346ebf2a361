-- ===== src/Connections/Filter.antt =====
-- Which connections are found.
use jumpway.Prelude.{
  true, List, [], ◌∷◌, Option, list, Text, text_eq, ==_iff, In, In-append_iff, In-filter_iff, ◌≡◌,
  ◌↔◌, ◌⊎◌, inl, inr, refl, sym, ap, arith,
}
use jumpway.Stats.{Connection, RuleStats}
use jumpway.Search.{fuzzy_match}
use jumpway.Connections.{
  RuleConnection, connections_of, all_connections, current_connections, search_texts, is_found,
  filter_connections,
}

module _ {N : Type 0} where
  -- A connection of one of the rules, under that rule's name.
  abbrev pub IsOf : RuleConnection N → List (RuleStats N) → Type 0
  IsOf c rules =
      (r : RuleStats N) × In r rules × In c.connection (list r.connections) × (c.rule ≡ r.name)

  In-connections_of_iff :
      (c : RuleConnection N) (name : Text) (connections : List (Connection N))
      → In c (connections_of name connections) ↔ (In c.connection connections × (c.rule ≡ name))
  In-connections_of_iff c name [] = (λ m. absurd m, λ m. absurd m.0)
  In-connections_of_iff c name (d ∷ connections) =
      let (to, from) = In-connections_of_iff c name connections in
      (
        λ m. elim m [
          | inl e ↦ (
            inl (ap (λ (x : RuleConnection N). x.connection) e),
            sym (ap (λ (x : RuleConnection N). x.rule) e),
          )
          | inr k ↦ let (there, same) = to k in (inr there, same)
        ],
        λ (m, same). elim m [ inl e ↦ inl (rw (e, same) refl) | inr k ↦ inr (from (k, same)) ],
      )

  In-all_connections_iff :
      (c : RuleConnection N) (rules : List (RuleStats N))
      → In c (all_connections rules) ↔ IsOf c rules
  In-all_connections_iff c [] = (λ m. absurd m, λ (r, m, k, e). absurd m)
  In-all_connections_iff c (rule ∷ rules) =
      let own = connections_of rule.name (list rule.connections) in
      let (to, from) = In-all_connections_iff c rules in
      let (split, join) = In-append_iff c own (all_connections rules) in
      let (to', from') = In-connections_of_iff c rule.name (list rule.connections) in
      (
        λ m. elim (split m) [
          | inl here ↦ let (k, e) = to' here in (rule, inl refl, k, e)
          | inr there ↦ let (r, m', k, e) = to there in (r, inr m', k, e)
        ],
        λ (r, m, k, e). elim m [
          | inl same ↦ join (inl (from' (rw same (k, e))))
          | inr there ↦ join (inr (from (r, there, k, e)))
        ],
      )

  is_found_iff :
      (lower : Text → Text) (rule query : Text) (c : RuleConnection N)
      → (is_found lower rule query c ≡ true)
        ↔ (((rule ≡ []) ⊎ (c.rule ≡ rule)) × (fuzzy_match lower query (search_texts c) ≡ true))
  is_found_iff lower [] query c = ground arith
  is_found_iff lower (d ∷ rule) query c = ground (arith, ==_iff c.rule (d ∷ rule))

  -- A connection is found exactly when it is one of a rule of the snapshot, under that rule's name, the
  -- rule that is chosen, if any, is its own, and the search finds its target, client, rule or process.
  filter_connections_iff :
      (lower : Text → Text) (rules : Option (List (RuleStats N))) (rule query : Text)
      (c : RuleConnection N)
      → In c (filter_connections lower (current_connections rules) rule query) ↔ (
          IsOf c (list rules)
          × ((rule ≡ []) ⊎ (c.rule ≡ rule))
          × (fuzzy_match lower query (search_texts c) ≡ true))
  unfolding filter_connections current_connections
  filter_connections_iff lower rules rule query c =
      let (to, from) = In-filter_iff (is_found lower rule query) c (all_connections (list rules)) in
      let (to', from') = In-all_connections_iff c (list rules) in
      let (to'', from'') = is_found_iff lower rule query c in
      (
        λ m. let (k, f) = to m in let (own, found) = to'' f in (to' k, own, found),
        λ (k, own, found). from (from' k, from'' (own, found)),
      )
