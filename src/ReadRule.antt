-- ===== src/ReadRule.antt =====
-- app/web/ui/src/lib/ruleEditor.ts, `readRule`: the rule that a draft stands for, or what is wrong
-- with it. `errors` is passed from one check to the next in the order of the source.
pub mod Errors
pub mod Fields
pub mod Rows
mod Setters
pub mod Stages
pub mod Accept
pub mod Results
pub mod Sound
pub mod Clash
use jumpway.Prelude.{
  ℕ, Bool, true, false, not, ◌&&◌, ◌||◌, List, [], ◌∷◌, ◌++◌, map, Option, none, some, Text, trim,
  is_empty, includes, is_some, any, find?, list, get_or, nat_beq, if◌then◌else◌, ◌==◌, text_eq,
}
use jumpway.Wire.{
  WayNode, lb, WayHop, Address, Listen, Forward, Rule, filled, text, is_disabled, Protocol,
}
use jumpway.Way.{normalize_way, nonempty}
use jumpway.Endpoint.{virtual_address, join_host_port, is_text}
use jumpway.Draft.{
  Mode, proxy, forward, EndpointKind, address, virtual, RuleDraft, ListenDraft, TargetDraft,
  HopDraft,
}
use jumpway.ReadRule.Errors.{
  MessageKey, rule_name_required, rule_name_slash, rule_name_taken, invalid_port,
  invalid_forward_port, invalid_virtual_channel, virtual_self_loop, listen_address_taken,
  listen_address_web_ui, protocol_required, DraftErrors, no_errors, has_errors, ReadContext,
  ReadResult, ok, errors,
}
use jumpway.ReadRule.Fields.{parse_port, parse_channel, read_way}
use jumpway.ReadRule.Rows.{read_rows, read_auth, some_text}

abbrev pub is_forwarding : RuleDraft → Bool
is_forwarding d = elim d.mode [ proxy ↦ false | forward ↦ true ]

abbrev pub is_virtual : EndpointKind → Bool
is_virtual address = false
is_virtual virtual = true

-- `rule.name === name && rule.name !== context.self`
abbrev pub is_taken : Option ReadContext → Text → Bool
is_taken none name = false
is_taken (some c) name = any (λ (r : Rule). r.name == name && not (is_text c.self r.name)) c.others

pub check_name : Option ReadContext → Text → DraftErrors → DraftErrors
check_name context name e =
    if is_empty name
    then record e { name = some rule_name_required }
    else if includes b'/' name
    then record e { name = some rule_name_slash }
    else if is_taken context name
    then record e { name = some rule_name_taken }
    else e

abbrev pub listens : Rule → Bool
listens r =
    not (is_disabled r)
    && is_empty (normalize_way r.listen.way)
    && (not (nat_beq r.listen.port 0) || filled r.listen.virtual)

abbrev pub configured_address : Listen → Text
configured_address l =
    if filled l.virtual then virtual_address (text l.virtual) else join_host_port l.host l.port

-- The first rule that already listens on an address.
abbrev pub owner_of : ReadContext → Text → Option Rule
owner_of c at =
    find?
      (λ (r : Rule). not (is_text c.self r.name) && listens r && configured_address r.listen == at)
      c.others

abbrev pub is_web_ui : ReadContext → Text → Bool
is_web_ui c at = elim c.web_ui [
  | none ↦ false
  | some a ↦ not (nat_beq a.port 0) && join_host_port a.host a.port == at
]

-- `errors[field] = key`, where the field is that of the kind of entry.
abbrev put_listen : Bool → MessageKey → DraftErrors → DraftErrors
put_listen true key e = record e { listen_virtual = some key }
put_listen false key e = record e { listen_port = some key }

pub check_clash : ReadContext → Bool → Text → DraftErrors → DraftErrors
check_clash c listen_virtual at e = elim (owner_of c at) [
  | some owner ↦ record (put_listen listen_virtual listen_address_taken e) {
    listen_address_owner = some owner.name;
  }
  | none ↦ if is_web_ui c at then put_listen listen_virtual listen_address_web_ui e else e
]

-- The address of the entry, where a clash is possible: the draft is enabled, both fields are read,
-- and the entry is a channel or a port that is bound on this machine.
abbrev pub clash_address : RuleDraft → Option ℕ → Option Text → List WayHop → Option Text
clash_address d none channel way = none
clash_address d (some port) none way = none
clash_address d (some port) (some channel) way =
    if not d.enabled
    then none
    else if is_virtual d.listen.kind
    then some (virtual_address channel)
    else if not (nat_beq port 0) && is_empty way
    then some (join_host_port (trim d.listen.host) port)
    else none

pub check_address : Option ReadContext → Bool → Option Text → DraftErrors → DraftErrors
unfolding check_clash
check_address (some c) listen_virtual (some at) e = check_clash c listen_virtual at e
check_address _ listen_virtual _ e = e

-- A missing field of the draft, by the key that its refusal reports.
abbrev check_some {ℓ} : {A : Type ℓ} → Option A → DraftErrors → DraftErrors → DraftErrors
check_some none e bad = bad
check_some (some a) e bad = e

pub check_target_channel : Option Text → Option Text → DraftErrors → DraftErrors
check_target_channel none listen_channel e = record e {
  target_virtual = some invalid_virtual_channel;
}
check_target_channel (some channel) listen_channel e =
    if nonempty channel && is_text listen_channel channel
    then record e { target_virtual = some virtual_self_loop }
    else e

module _ (number : Text → Option ℕ) (d : RuleDraft) where
  abbrev pub listen_virtual : Bool
  listen_virtual = is_virtual d.listen.kind

  abbrev pub target_virtual : Bool
  target_virtual = is_forwarding d && is_virtual d.target.kind

  abbrev pub listen_port : Option ℕ
  listen_port = if listen_virtual then some 0 else parse_port number d.listen.port 0

  abbrev pub listen_channel : Option Text
  listen_channel = if listen_virtual then parse_channel d.listen.virtual else some []

  abbrev pub target_port : Option ℕ
  target_port =
      if is_forwarding d && not target_virtual then parse_port number d.target.port 1 else some 0

  abbrev pub target_channel : Option Text
  target_channel = if target_virtual then parse_channel d.target.virtual else some []

  -- The ways that are read: that of a channel is empty.
  abbrev pub listen_hops : List HopDraft
  listen_hops = if listen_virtual then [] else d.listen.way

  abbrev pub forward_hops : List HopDraft
  forward_hops = if target_virtual then [] else d.forward_way

  -- `errors` after the checks of the entry: name, port, channel and way.
  entry_errors : Option ReadContext → DraftErrors
  unfolding check_name
  entry_errors context =
      let e = check_name context (trim d.name) no_errors in
      let e = check_some listen_port e (record e { listen_port = some invalid_port }) in
      let e =
        check_some listen_channel e (record e { listen_virtual = some invalid_virtual_channel }) in
      (read_way listen_hops e).1

  -- `errors` after the checks of the protocols.
  protocol_errors : DraftErrors → DraftErrors
  protocol_errors e =
      let (protocols, e) = read_rows (is_forwarding d) d.listen.password d.listen.protocols [] e in
      let e =
        if not (is_forwarding d) && is_empty protocols
        then record e { protocols = some protocol_required }
        else e in
      if not (is_forwarding d) then read_auth d.listen e else e

  -- `errors` after the checks of the target.
  target_errors : DraftErrors → DraftErrors
  unfolding check_target_channel
  target_errors e =
      let e = check_some target_port e (record e { target_port = some invalid_forward_port }) in
      let e = check_target_channel target_channel listen_channel e in (read_way forward_hops e).1

  unfoldable pub all_errors : Option ReadContext → DraftErrors
  unfolding entry_errors protocol_errors target_errors check_address
  all_errors context =
      check_address context listen_virtual
        (clash_address d listen_port listen_channel (read_way listen_hops no_errors).0)
        (target_errors (protocol_errors (entry_errors context)))

  abbrev pub protocols_of : List Protocol
  protocols_of = (read_rows (is_forwarding d) d.listen.password d.listen.protocols [] no_errors).0

  abbrev pub stored_way : List WayHop → Option (List WayNode)
  stored_way way = if is_empty way then none else some (map (λ (h : WayHop). lb (some h.lb)) way)

  built_listen : ℕ → Text → Listen
  built_listen port channel = record {
    host = if listen_virtual then [] else trim d.listen.host;
    port = if listen_virtual then 0 else port;
    virtual = if listen_virtual then some channel else none;
    way = stored_way (read_way listen_hops no_errors).0;
    username = some_text (not (is_forwarding d)) d.listen.username;
    password = some_text (not (is_forwarding d)) d.listen.password;
    cipher = none;
    protocols = if is_forwarding d then none else some protocols_of;
  }

  built_forward : ℕ → Text → Forward
  built_forward port channel = record {
    host =
        if is_forwarding d && not target_virtual then some_text true (trim d.target.host) else none;
    port = if is_forwarding d && not target_virtual then some port else none;
    virtual = if target_virtual then some channel else none;
    way = stored_way (read_way forward_hops no_errors).0;
  }

  unfoldable pub built_rule : ℕ → Text → ℕ → Text → Rule
  unfolding built_listen built_forward
  built_rule listen_port listen_channel target_port target_channel = record {
    name = trim d.name;
    disabled = if d.enabled then none else some true;
    listen = built_listen listen_port listen_channel;
    forward = built_forward target_port target_channel;
  }

  -- The fields that were read, where all four were.
  read_fields : Option ℕ → Option Text → Option ℕ → Option Text → Option Rule
  unfolding built_rule
  read_fields (some lp) (some lc) (some tp) (some tc) = some (built_rule lp lc tp tc)
  read_fields _ _ _ _ = none

  unfoldable pub read_rule : Option ReadContext → ReadResult
  unfolding all_errors read_fields
  read_rule context =
      let e = all_errors context in
      elim (read_fields listen_port listen_channel target_port target_channel) [
        | none ↦ errors e
        | some rule ↦ if has_errors e then errors e else ok rule
      ]
