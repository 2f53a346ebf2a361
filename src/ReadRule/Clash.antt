-- ===== src/ReadRule/Clash.antt =====
-- An accepted rule has an address of its own among the listening rules.
use mathlib.Core.Path.{subst}
use jumpway.Prelude.{ℕ, true, List, [], ◌∷◌, Option, some, Text, is_empty, ◌≡◌, refl, arith}
use jumpway.Wire.{Rule, WayHop}
use jumpway.Way.{normalize_way}
use jumpway.Draft.{RuleDraft, virtual}
use jumpway.ReadRule.Errors.{no_errors, ReadContext, ok}
use jumpway.ReadRule.Fields.{read_way}
use jumpway.ReadRule.Fields.Clear.{IsChannel, parse_channel-eq-some_iff}
use jumpway.ReadRule.Stages.{HasNoClash}
use jumpway.ReadRule.Accept.{compared_address}
use jumpway.ReadRule.Results.{read_rule_iff}
use jumpway.ReadRule.{
  listen_port, listen_channel, listens, configured_address, built_rule, read_rule, stored_way,
  listen_hops,
}

is_empty-stored_way :
    (number : Text → Option ℕ) (d : RuleDraft) (way : List WayHop)
    → is_empty (normalize_way (stored_way number d way)) ≡ is_empty way
unfolding normalize_way
is_empty-stored_way number d [] = refl
is_empty-stored_way number d (h ∷ way) = refl

module _ (number : Text → Option ℕ) (d : RuleDraft) where
  channel_read :
      (lc : Text) → d.listen.kind ≡ virtual → listen_channel number d ≡ some lc → IsChannel lc
  channel_read lc k e = ((parse_channel-eq-some_iff d.listen.virtual lc).0 (rw k at e)).1

  -- A rule that listens is compared under the very text that `configuredAddress` gives for it.
  compared-built :
      (lp : ℕ) (lc : Text) (tp : ℕ) (tc : Text)
      → listen_port number d ≡ some lp
      → listen_channel number d ≡ some lc
      → listens (built_rule number d lp lc tp tc) ≡ true
      → compared_address number d
        ≡ some (configured_address (built_rule number d lp lc tp tc).listen)
  unfolding built_rule
  compared-built lp lc tp tc elp elc h = ground (
    arith,
    channel_read lc,
    is_empty-stored_way number d (read_way (listen_hops number d) no_errors).0,
  )

-- A rule that is accepted and listens has an address that no other listening rule has, that of the
-- rule itself as it is saved left aside, and that the web UI does not have on a port but 0.
pub read_rule-HasNoClash :
    (number : Text → Option ℕ) (d : RuleDraft) (context : ReadContext) (rule : Rule)
    → read_rule number d (some context) ≡ ok rule
    → listens rule ≡ true
    → HasNoClash context (configured_address rule.listen)
read_rule-HasNoClash number d context rule e h =
    let (a, r) = (read_rule_iff number d (some context) rule).0 e in
    let same =
      compared-built number d r.lp r.lc r.tp r.tc r.listen_port_read r.listen_channel_read
        (subst (λ (x : Rule). listens x ≡ true) r.built h) in
    rw r.built (rw same at a.address)
