-- ===== src/ReadRule/Sound.antt =====
-- What holds of every rule that `readRule` accepts, read off the rule alone.
use mathlib.Core.Path.{subst, subst₂}
use jumpway.Prelude.{
  sym, ◌∙◌, trim-IsTrimmed, ℕ, ◌≤◌, Bool, true, false, List, [], ◌∷◌, map, Option, none, some, Text,
  trim, is_empty, includes, filter, ◌≡◌, ◌≢◌, inl, inr, refl, arith, All, Bool-cases, list,
}
use jumpway.Wire.{Rule, WayHop}
use jumpway.Way.{hop, normalize_way, nonempty}
use jumpway.Way.Laws.{IsStored, serialize_way-IsStored, normalize_way-stored}
use jumpway.Endpoint.{is_forward}
use jumpway.Draft.{RuleDraft, UrlDraft, HopDraft, way_of}
use jumpway.ReadRule.Errors.{no_errors, ReadContext, ok}
use jumpway.ReadRule.Fields.{read_way, has_scheme, is_usable}
use jumpway.ReadRule.Fields.Clear.{
  HopOk, UrlOk, IsChannel, parse_channel-eq-some_iff, parse_port-eq-some_iff,
}
use jumpway.ReadRule.Rows.{row_entry, enabled_rows}
use jumpway.ReadRule.Rows.Clear.{read_rows-entries}
use jumpway.ReadRule.Stages.{TargetOk}
use jumpway.ReadRule.Accept.{IsAcceptable, ProtocolsOk}
use jumpway.ReadRule.Results.{IsRead, read_rule_iff}
use jumpway.ReadRule.{
  is_forwarding, is_virtual, listen_port, listen_channel, target_virtual, target_port,
  target_channel, built_rule, read_rule, stored_way, listen_hops, forward_hops,
}

map-nil : {A B : Type 0} (f : A → B) (xs : List A) → map f xs ≡ [] → xs ≡ []
map-nil f [] h = refl
map-nil f (x ∷ xs) h = ground arith

-- A stored hop: URLs that are trimmed and have a scheme, and at least one.
abbrev pub IsSavedHop : WayHop → Type 0
IsSavedHop h = IsStored h × All (λ s. has_scheme s ≡ true) h.lb

urls-scheme :
    (usable : Bool) (urls : List UrlDraft)
    → All (UrlOk usable) urls
    → All
        (λ s. has_scheme s ≡ true)
        (filter nonempty (map trim (map (λ (u : UrlDraft). u.value) urls)))
urls-scheme usable [] h = tt
urls-scheme usable (u ∷ urls) (k, h) = elim (Bool-cases (nonempty (trim u.value))) [
  | inl full ↦ rw full (ground arith, urls-scheme usable urls h)
  | inr blank ↦ rw blank (urls-scheme usable urls h)
]

way_of-scheme :
    (hops : List HopDraft)
    → All HopOk hops
    → All (λ (h : WayHop). All (λ s. has_scheme s ≡ true) h.lb) (way_of hops)
unfolding way_of
way_of-scheme [] h = tt
way_of-scheme (hd ∷ hops) (k, h) =
    let urls = filter nonempty (map trim (map (λ (u : UrlDraft). u.value) hd.urls)) in
    elim (Bool-cases (is_empty urls)) [
      | inl blank ↦ rw blank (way_of-scheme hops h)
      | inr full ↦ rw full (urls-scheme (is_usable hd) hd.urls k, way_of-scheme hops h)
    ]

All-both :
    {A : Type 0} (P Q : A → Type 0) (xs : List A) → All P xs → All Q xs → All (λ x. P x × Q x) xs
All-both P Q [] h k = tt
All-both P Q (x ∷ xs) (p, h) (q, k) = ((p, q), All-both P Q xs h k)

way_of-IsStored : (hops : List HopDraft) → All IsStored (way_of hops)
unfolding way_of
way_of-IsStored hops =
    serialize_way-IsStored
      (map (λ (h : HopDraft). hop (map (λ (u : UrlDraft). u.value) h.urls)) hops)

way_of-IsSavedHop : (hops : List HopDraft) → All HopOk hops → All IsSavedHop (way_of hops)
way_of-IsSavedHop hops h =
    All-both IsStored _ (way_of hops) (way_of-IsStored hops) (way_of-scheme hops h)

module _ (number : Text → Option ℕ) (d : RuleDraft) where
  normalize_way-stored_way : (way : List WayHop) → normalize_way (stored_way number d way) ≡ way
  unfolding normalize_way
  normalize_way-stored_way [] = refl
  normalize_way-stored_way (h ∷ way) = normalize_way-stored (h ∷ way)

-- What the server and the other pages rely on in a saved rule.
pub record IsWellFormed (rule : Rule) : Type 0 where
  pub named : (rule.name ≢ []) × (trim rule.name ≡ rule.name) × (includes b'/' rule.name ≡ false)
  pub listen_port_bound : rule.listen.port ≤ 65535
  pub listen_virtual :
      (c : Text)
      → rule.listen.virtual ≡ some c
      → IsChannel c × (rule.listen.port ≡ 0) × (rule.listen.host ≡ [])
  pub listen_way : All IsSavedHop (normalize_way rule.listen.way)
  pub forward_port :
      (p : ℕ) → rule.forward.port ≡ some p → (1 ≤ p) × (p ≤ 65535) × (rule.forward.virtual ≡ none)
  pub forward_virtual :
      (c : Text)
      → rule.forward.virtual ≡ some c
      → IsChannel c × (rule.forward.port ≡ none) × (rule.listen.virtual ≢ some c)
  pub forward_way : All IsSavedHop (normalize_way rule.forward.way)
  pub serves : is_forward rule ≡ false → list rule.listen.protocols ≢ []

module _ (number : Text → Option ℕ) (d : RuleDraft) where
  listen_channel_read :
      (lc : Text)
      → is_virtual d.listen.kind ≡ true
      → listen_channel number d ≡ some lc
      → IsChannel lc
  listen_channel_read lc k e = ((parse_channel-eq-some_iff d.listen.virtual lc).0 (ground arith)).1

  target_channel_read :
      (tc : Text)
      → target_virtual number d ≡ true
      → target_channel number d ≡ some tc
      → IsChannel tc
  target_channel_read tc k e = ((parse_channel-eq-some_iff d.target.virtual tc).0 (ground arith)).1

  listen_port_range : (lp : ℕ) → listen_port number d ≡ some lp → lp ≤ 65535
  listen_port_range lp e = ground (arith, parse_port-eq-some_iff number d.listen.port 0 lp)

  target_port_range :
      (tp : ℕ)
      → is_forwarding d ≡ true
      → target_virtual number d ≡ false
      → target_port number d ≡ some tp
      → (1 ≤ tp) × (tp ≤ 65535)
  target_port_range tp f k e = ground (arith, parse_port-eq-some_iff number d.target.port 1 tp)

  module _ {context : Option ReadContext} {rule : Rule} (a : IsAcceptable number d context)
      (r : IsRead number d rule) where
    built : Rule
    built = built_rule number d r.lp r.lc r.tp r.tc

    built_listen_port : built.listen.port ≤ 65535
    unfolding built built_rule
    built_listen_port = ground (arith, listen_port_range r.lp r.listen_port_read)

    built_listen_virtual :
        (c : Text)
        → built.listen.virtual ≡ some c
        → IsChannel c × (built.listen.port ≡ 0) × (built.listen.host ≡ [])
    unfolding built built_rule
    built_listen_virtual c e =
        let v : is_virtual d.listen.kind ≡ true = ground arith in
        let same : r.lc ≡ c = ground arith in
        (
          subst IsChannel same (listen_channel_read r.lc v r.listen_channel_read),
          ground arith,
          ground arith,
        )

    built_forward_port :
        (p : ℕ)
        → built.forward.port ≡ some p
        → (1 ≤ p) × (p ≤ 65535) × (built.forward.virtual ≡ none)
    unfolding built built_rule
    built_forward_port p e = ground (arith, target_port_range r.tp)

    built_forward_virtual :
        (c : Text)
        → built.forward.virtual ≡ some c
        → IsChannel c × (built.forward.port ≡ none) × (built.listen.virtual ≢ some c)
    unfolding built built_rule
    built_forward_virtual c e =
        let v : target_virtual number d ≡ true = ground arith in
        let same : r.tc ≡ c = ground arith in
        let channel = target_channel_read r.tc v r.target_channel_read in
        let no_loop : TargetOk (some r.tc) (some r.lc) =
          subst₂ TargetOk r.target_channel_read r.listen_channel_read a.targets.1 in
        (subst IsChannel same channel, ground arith, ground arith)

    built_mode : is_forward built ≡ is_forwarding d
    unfolding built built_rule is_forward
    built_mode = ground (
      arith,
      target_port_range r.tp,
      target_channel_read r.tc,
      r.target_port_read,
      r.target_channel_read,
    )

    built_serves : is_forwarding d ≡ false → list built.listen.protocols ≢ []
    unfolding built built_rule
    built_serves f e = (subst (ProtocolsOk number d) f a.protocols).0 (
        ground (
          arith,
          read_rows-entries d.listen.password d.listen.protocols [] no_errors,
          map-nil row_entry (enabled_rows d.listen),
        ))

    built-IsWellFormed : IsWellFormed built
    unfolding built built_rule read_way
    built-IsWellFormed = record {
      named = (a.entry.0.0, trim-IsTrimmed d.name, a.entry.0.1);
      listen_port_bound = built_listen_port;
      listen_virtual = built_listen_virtual;
      listen_way =
          subst (All IsSavedHop) (sym (normalize_way-stored_way number d _))
            (way_of-IsSavedHop (listen_hops number d) a.entry.3);
      forward_port = built_forward_port;
      forward_virtual = built_forward_virtual;
      forward_way =
          subst (All IsSavedHop) (sym (normalize_way-stored_way number d _))
            (way_of-IsSavedHop (forward_hops number d) a.targets.2);
      serves = λ f. built_serves (sym built_mode ∙ f);
    }

-- Every rule that is accepted is well formed, and it forwards exactly when the draft is in forward
-- mode.
pub read_rule-IsWellFormed :
    (number : Text → Option ℕ) (d : RuleDraft) (context : Option ReadContext) (rule : Rule)
    → read_rule number d context ≡ ok rule
    → IsWellFormed rule × (is_forward rule ≡ is_forwarding d)
unfolding built
read_rule-IsWellFormed number d context rule e =
    let (a, r) = (read_rule_iff number d context rule).0 e in
    rw r.built (built-IsWellFormed number d a r, built_mode number d a r)
