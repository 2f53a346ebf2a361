-- ===== src/Hosts/Visits.antt =====
-- The nested loops of `aggregateHosts` as one loop over the list of all entries.
use jumpway.Prelude.{
  Bool, ◌&&◌, List, [], ◌∷◌, ◌++◌, map, list, Text, text_eq, ◌==◌, ◌≡◌, refl, sym, ap, ◌∙◌,
}
use jumpway.Stats.{Stats, UrlStats, Hop, RuleStats}
use jumpway.Hosts.{
  Parser, UseWay, listen, forward, EndpointUse, EndpointBucket, HostBucket, display_url, host_key,
  extend, add_entry, add_urls, add_hops, add_rules,
}

-- An entry of a hop, and where it stands.
pub record Visit (N : Type 0) : Type 0 where
  pub at : EndpointUse
  pub entry : UrlStats N

module _ {N : Type 0} where
  abbrev url_visits : EndpointUse → List (UrlStats N) → List (Visit N)
  url_visits u [] = []
  url_visits u (entry ∷ entries) = (record { at = u; entry = entry }) ∷ url_visits u entries

  abbrev hop_visits : Text → UseWay → List (Hop N) → List (Visit N)
  hop_visits rule way [] = []
  hop_visits rule way (hop ∷ hops) =
      url_visits (record { rule = rule; way = way; index = hop.index }) (list hop.urls)
      ++ hop_visits rule way hops

  -- All entries of a snapshot, in its order.
  abbrev pub visits : List (RuleStats N) → List (Visit N)
  visits [] = []
  visits (rule ∷ rules) =
      hop_visits rule.name listen (list rule.listen)
      ++ (hop_visits rule.name forward (list rule.forward) ++ visits rules)

  -- The endpoint that entries give, one after the other.
  abbrev pub collect : EndpointBucket N → List (Visit N) → EndpointBucket N
  collect b [] = b
  collect b (v ∷ vs) = collect (extend v.at v.entry b) vs

  abbrev pub samples_of : List (Visit N) → List (Stats N)
  samples_of vs = map (λ (v : Visit N). v.entry.stats) vs

  abbrev pub urls_of : List (Visit N) → List Text
  urls_of vs = map (λ (v : Visit N). v.entry.url) vs

  abbrev pub rules_of : List (Visit N) → List Text
  rules_of vs = map (λ (v : Visit N). v.at.rule) vs

  module _ (parser : Parser) where
    abbrev pub is_at_host : Text → Visit N → Bool
    is_at_host name v = host_key parser v.entry.url == name

    abbrev pub is_at : Text → Text → Visit N → Bool
    is_at name label v = is_at_host name v && display_url parser v.entry.url == label

    unfoldable pub add_all :
        List (Visit N) → List (Text × HostBucket N) → List (Text × HostBucket N)
    add_all [] hosts = hosts
    add_all (v ∷ vs) hosts = add_all vs (add_entry parser v.at v.entry hosts)

    add_all-append :
        (vs ws : List (Visit N)) (hosts : List (Text × HostBucket N))
        → add_all (vs ++ ws) hosts ≡ add_all ws (add_all vs hosts)
    unfolding add_all
    add_all-append [] ws hosts = refl
    add_all-append (v ∷ vs) ws hosts = add_all-append vs ws (add_entry parser v.at v.entry hosts)

    add_urls-visits :
        (u : EndpointUse) (entries : List (UrlStats N)) (hosts : List (Text × HostBucket N))
        → add_urls parser u entries hosts ≡ add_all (url_visits u entries) hosts
    unfolding add_all add_urls
    add_urls-visits u [] hosts = refl
    add_urls-visits u (entry ∷ entries) hosts =
        add_urls-visits u entries (add_entry parser u entry hosts)

    add_hops-visits :
        (rule : Text) (way : UseWay) (hops : List (Hop N)) (hosts : List (Text × HostBucket N))
        → add_hops parser rule way hops hosts ≡ add_all (hop_visits rule way hops) hosts
    unfolding add_all add_hops
    add_hops-visits rule way [] hosts = refl
    add_hops-visits rule way (hop ∷ hops) hosts =
        let u : EndpointUse = record { rule = rule; way = way; index = hop.index } in
        let here = url_visits u (list hop.urls) in
        add_hops-visits rule way hops (add_urls parser u (list hop.urls) hosts)
        ∙ ap (add_all (hop_visits rule way hops)) (add_urls-visits u (list hop.urls) hosts)
        ∙ sym (add_all-append here (hop_visits rule way hops) hosts)

    pub add_rules-visits :
        (rules : List (RuleStats N)) (hosts : List (Text × HostBucket N))
        → add_rules parser rules hosts ≡ add_all (visits rules) hosts
    unfolding add_all add_rules
    add_rules-visits [] hosts = refl
    add_rules-visits (rule ∷ rules) hosts =
        let heard = hop_visits rule.name listen (list rule.listen) in
        let sent = hop_visits rule.name forward (list rule.forward) in
        let first = add_hops parser rule.name listen (list rule.listen) hosts in
        add_rules-visits rules (add_hops parser rule.name forward (list rule.forward) first)
        ∙ ap (add_all (visits rules)) (
            add_hops-visits rule.name forward (list rule.forward) first
            ∙ ap (add_all sent) (add_hops-visits rule.name listen (list rule.listen) hosts))
        ∙ sym (
            add_all-append heard (sent ++ visits rules) hosts
            ∙ add_all-append sent (visits rules) (add_all heard hosts))
