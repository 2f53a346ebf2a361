-- ===== src/Hosts/Groups.antt =====
-- The nested maps of hosts and endpoints against grouping the list of all entries.
use jumpway.Prelude.{
  Bool, false, ◌||◌, List, [], ◌∷◌, ◌++◌, append_assoc, append-nil, Option, is_some, list, Text,
  text_eq, any, filter, lookup, lookup-insert, unique, if◌then◌else◌, ◌==◌, ==_iff, Bool-cases, ◌≡◌,
  inl, inr, refl, sym, ap, ◌∙◌, arith,
}
use jumpway.Stats.{RuleStats}
use jumpway.Hosts.{
  Parser, EndpointBucket, HostBucket, add_text, display_url, host_key, new_endpoint, host_of,
  endpoint_of, extend, add_entry, host_buckets,
}
use jumpway.Hosts.Visits.{
  Visit, visits, collect, samples_of, urls_of, rules_of, is_at_host, is_at, add_all,
  add_rules-visits,
}
use jumpway.Hosts.Once.{add_texts, add_texts-unique}

or_false : (a : Bool) → a ≡ (a || false)
or_false a = ground arith

or_swap : (a b c : Bool) → ((a || b) || c) ≡ (b || (a || c))
or_swap a b c = ground arith

module _ {N : Type 0} where
  module _ (parser : Parser) where
    -- What one entry does to the endpoint under a host and a label.
    at-add_entry :
        (name label : Text) (v : Visit N) (hosts : List (Text × HostBucket N))
        → endpoint_of label (host_of name (add_entry parser v.at v.entry hosts)) ≡ (
            if is_at parser name label v
            then extend v.at v.entry (endpoint_of label (host_of name hosts))
            else endpoint_of label (host_of name hosts))
    unfolding add_entry
    at-add_entry name label v hosts =
        let key = host_key parser v.entry.url in
        let shown = display_url parser v.entry.url in
        elim (Bool-cases (key == name)) [
          | inl same ↦ elim (Bool-cases (shown == label)) [
            | inl here ↦
                rw
                  (
                    lookup-insert,
                    same,
                    lookup-insert,
                    here,
                    (==_iff key name).0 same,
                    (==_iff shown label).0 here,
                  )
                  refl
            | inr there ↦
                rw (lookup-insert, same, lookup-insert, there, (==_iff key name).0 same) refl
          ]
          | inr other ↦ rw (lookup-insert, other) refl
        ]

    rules-add_entry :
        (name : Text) (v : Visit N) (hosts : List (Text × HostBucket N))
        → (host_of name (add_entry parser v.at v.entry hosts)).rules ≡ (
            if is_at_host parser name v
            then add_text v.at.rule (host_of name hosts).rules
            else (host_of name hosts).rules)
    unfolding add_entry
    rules-add_entry name v hosts =
        let key = host_key parser v.entry.url in
        elim (Bool-cases (key == name)) [
          | inl same ↦ rw (lookup-insert, same, (==_iff key name).0 same) refl
          | inr other ↦ rw (lookup-insert, other) refl
        ]

    known-add_entry :
        (name : Text) (v : Visit N) (hosts : List (Text × HostBucket N))
        → is_some (lookup name (add_entry parser v.at v.entry hosts))
          ≡ (is_at_host parser name v || is_some (lookup name hosts))
    unfolding add_entry
    known-add_entry name v hosts = elim (Bool-cases (host_key parser v.entry.url == name)) [
      | inl same ↦ rw (lookup-insert, same) refl
      | inr other ↦ rw (lookup-insert, other) refl
    ]

    listed-add_entry :
        (name label : Text) (v : Visit N) (hosts : List (Text × HostBucket N))
        → is_some (lookup label (host_of name (add_entry parser v.at v.entry hosts)).endpoints)
          ≡ (is_at parser name label v || is_some (lookup label (host_of name hosts).endpoints))
    unfolding add_entry
    listed-add_entry name label v hosts =
        let key = host_key parser v.entry.url in
        let shown = display_url parser v.entry.url in
        elim (Bool-cases (key == name)) [
          | inl same ↦ elim (Bool-cases (shown == label)) [
            | inl here ↦ rw (lookup-insert, same, lookup-insert, here) refl
            | inr there ↦
                rw (lookup-insert, same, lookup-insert, there, (==_iff key name).0 same) refl
          ]
          | inr other ↦ rw (lookup-insert, other) refl
        ]

    at-add_all :
        (name label : Text) (vs : List (Visit N)) (hosts : List (Text × HostBucket N))
        → endpoint_of label (host_of name (add_all parser vs hosts))
          ≡ collect (endpoint_of label (host_of name hosts)) (filter (is_at parser name label) vs)
    unfolding add_all
    at-add_all name label [] hosts = refl
    at-add_all name label (v ∷ vs) hosts =
        let after = add_entry parser v.at v.entry hosts in
        elim (Bool-cases (is_at parser name label v)) [
          | inl here ↦
              rw (at-add_all name label vs after, at-add_entry name label v hosts, here) refl
          | inr there ↦
              rw (at-add_all name label vs after, at-add_entry name label v hosts, there) refl
        ]

    rules-add_all :
        (name : Text) (vs : List (Visit N)) (hosts : List (Text × HostBucket N))
        → (host_of name (add_all parser vs hosts)).rules
          ≡ add_texts (host_of name hosts).rules (rules_of (filter (is_at_host parser name) vs))
    unfolding add_all
    rules-add_all name [] hosts = refl
    rules-add_all name (v ∷ vs) hosts =
        let after = add_entry parser v.at v.entry hosts in
        elim (Bool-cases (is_at_host parser name v)) [
          | inl here ↦ rw (rules-add_all name vs after, rules-add_entry name v hosts, here) refl
          | inr there ↦ rw (rules-add_all name vs after, rules-add_entry name v hosts, there) refl
        ]

    known-add_all :
        (name : Text) (vs : List (Visit N)) (hosts : List (Text × HostBucket N))
        → is_some (lookup name (add_all parser vs hosts))
          ≡ (is_some (lookup name hosts) || any (is_at_host parser name) vs)
    unfolding add_all
    known-add_all name [] hosts = or_false (is_some (lookup name hosts))
    known-add_all name (v ∷ vs) hosts =
        known-add_all name vs (add_entry parser v.at v.entry hosts)
        ∙ ap (λ b. b || any (is_at_host parser name) vs) (known-add_entry name v hosts)
        ∙ or_swap (is_at_host parser name v) (is_some (lookup name hosts))
            (any (is_at_host parser name) vs)

    listed-add_all :
        (name label : Text) (vs : List (Visit N)) (hosts : List (Text × HostBucket N))
        → is_some (lookup label (host_of name (add_all parser vs hosts)).endpoints) ≡ (
            is_some (lookup label (host_of name hosts).endpoints)
            || any (is_at parser name label) vs)
    unfolding add_all
    listed-add_all name label [] hosts =
        or_false (is_some (lookup label (host_of name hosts).endpoints))
    listed-add_all name label (v ∷ vs) hosts =
        listed-add_all name label vs (add_entry parser v.at v.entry hosts)
        ∙ ap (λ b. b || any (is_at parser name label) vs) (listed-add_entry name label v hosts)
        ∙ or_swap (is_at parser name label v)
            (is_some (lookup label (host_of name hosts).endpoints))
            (any (is_at parser name label) vs)

module _ {N : Type 0} where
  collect-samples :
      (b : EndpointBucket N) (vs : List (Visit N))
      → (collect b vs).samples ≡ b.samples ++ samples_of vs
  collect-samples b [] = sym (append-nil b.samples)
  collect-samples b (v ∷ vs) =
      collect-samples (extend v.at v.entry b) vs
      ∙ append_assoc b.samples (v.entry.stats ∷ []) (samples_of vs)

  collect-urls :
      (b : EndpointBucket N) (vs : List (Visit N))
      → (collect b vs).urls ≡ add_texts b.urls (urls_of vs)
  collect-urls b [] = refl
  collect-urls b (v ∷ vs) = collect-urls (extend v.at v.entry b) vs

  -- The map that the loops build is that of all entries, grouped by their host and, under it, by their
  -- label: there is a host for a name, and an endpoint for a label, exactly where an entry has them; an
  -- endpoint holds the samples of exactly its entries, in their order, and their URLs, each once; and a
  -- host the rules of its entries, each once.
  pub host_buckets-groups :
      (parser : Parser) (rules : Option (List (RuleStats N))) (name label : Text)
      → let hosts = host_buckets parser rules in
        let at_host = filter (is_at_host parser name) (visits (list rules)) in
        let found = filter (is_at parser name label) (visits (list rules)) in
        (is_some (lookup name hosts) ≡ any (is_at_host parser name) (visits (list rules)))
        × (is_some (lookup label (host_of name hosts).endpoints)
            ≡ any (is_at parser name label) (visits (list rules)))
        × ((endpoint_of label (host_of name hosts)).samples ≡ samples_of found)
        × ((endpoint_of label (host_of name hosts)).urls ≡ unique (urls_of found))
        × ((host_of name hosts).rules ≡ unique (rules_of at_host))
  unfolding host_buckets lookup
  host_buckets-groups parser rules name label =
      let vs = visits (list rules) in
      let found = filter (is_at parser name label) vs in
      let whole = at-add_all parser name label vs [] in
      rw (add_rules-visits parser (list rules) []) (
        known-add_all parser name vs [],
        listed-add_all parser name label vs [],
        ap (λ (b : EndpointBucket N). b.samples) whole ∙ collect-samples (new_endpoint label) found,
        ap (λ (b : EndpointBucket N). b.urls) whole
            ∙ collect-urls (new_endpoint label) found
            ∙ add_texts-unique (urls_of found),
        rules-add_all parser name vs []
            ∙ add_texts-unique (rules_of (filter (is_at_host parser name) vs)),
      )
