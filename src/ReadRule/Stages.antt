-- ===== src/ReadRule/Stages.antt =====
-- When the checks of `readRule` that concern the whole draft leave `errors` empty.
use jumpway.Prelude.{
  Bool, true, false, not, ◌&&◌, List, [], ◌∷◌, Option, none, some, Text, includes, any, find?,
  if◌then◌else◌, ◌==◌, ==_iff, text_eq, ◌≡◌, ◌≢◌, ◌⊎◌, inl, inr, ◌↔◌, refl, arith, All,
  Option-cases,
}
use jumpway.Wire.{Rule, Address}
use jumpway.Endpoint.{join_host_port, is_text}
use jumpway.ReadRule.Errors.{
  listen_address_taken, listen_address_web_ui, DraftErrors, IsClear, ReadContext,
  rule_name_required, rule_name_slash, rule_name_taken, invalid_virtual_channel, virtual_self_loop,
}
use jumpway.ReadRule.Setters.{
  set_name-has_errors, set_listen_port-has_errors, set_listen_virtual-has_errors,
  set_port_owner-has_errors, set_virtual_owner-has_errors, set_target_virtual-has_errors,
}
use jumpway.ReadRule.{
  put_listen, is_taken, check_name, listens, configured_address, owner_of, is_web_ui, check_clash,
  check_address, check_target_channel,
}

-- No other rule has the name, but for the saved copy of the rule itself.
abbrev pub IsFree : Option ReadContext → Text → Type 0
IsFree none name = Unit
IsFree (some c) name = All (λ (r : Rule). (r.name ≢ name) ⊎ (c.self ≡ some r.name)) c.others

is_text_iff : (o : Option Text) (s : Text) → (is_text o s ≡ true) ↔ (o ≡ some s)
is_text_iff none s = ground arith
is_text_iff (some s') s = ground (arith, ==_iff s' s)

is_taken_rules :
    (self : Option Text) (rules : List Rule) (name : Text)
    → (any (λ (r : Rule). r.name == name && not (is_text self r.name)) rules ≡ false)
      ↔ All (λ (r : Rule). (r.name ≢ name) ⊎ (self ≡ some r.name)) rules
is_taken_rules self [] name = (λ e. tt, λ h. refl)
is_taken_rules self (r ∷ rules) name =
    ground (arith, is_taken_rules self rules name, ==_iff r.name name, is_text_iff self r.name)

is_taken_iff : (c : Option ReadContext) (name : Text) → (is_taken c name ≡ false) ↔ IsFree c name
is_taken_iff none name = ground arith
is_taken_iff (some c) name = is_taken_rules c.self c.others name

-- A name is there, holds no slash, and is free.
abbrev pub NameOk : Option ReadContext → Text → Type 0
NameOk c name = (name ≢ []) × (includes b'/' name ≡ false) × IsFree c name

pub check_name-IsClear_iff :
    (c : Option ReadContext) (name : Text) (e : DraftErrors)
    → IsClear (check_name c name e) ↔ (IsClear e × NameOk c name)
unfolding check_name
check_name-IsClear_iff c name e = ground (
  arith,
  is_taken_iff c name,
  set_name-has_errors e rule_name_required,
  set_name-has_errors e rule_name_slash,
  set_name-has_errors e rule_name_taken,
)

-- The web UI has a port 0, or another address.
abbrev pub IsElsewhere : Option Address → Text → Type 0
IsElsewhere none at = Unit
IsElsewhere (some a) at = (a.port ≡ 0) ⊎ (join_host_port a.host a.port ≢ at)

-- No listening rule but the rule itself has the address, and the web UI does not have it either.
abbrev pub HasNoClash : ReadContext → Text → Type 0
HasNoClash c at =
    All
      (λ (r : Rule).
        (c.self ≡ some r.name) ⊎ (listens r ≡ false) ⊎ (configured_address r.listen ≢ at))
      c.others
    × IsElsewhere c.web_ui at

owner_of_rules :
    (self : Option Text) (rules : List Rule) (at : Text)
    → (find?
          (λ (r : Rule).
            not (is_text self r.name) && listens r && configured_address r.listen == at)
          rules
        ≡ none)
      ↔ All
          (λ (r : Rule).
            (self ≡ some r.name) ⊎ (listens r ≡ false) ⊎ (configured_address r.listen ≢ at))
          rules
owner_of_rules self [] at = (λ e. tt, λ h. refl)
owner_of_rules self (r ∷ rules) at = ground (
  arith,
  owner_of_rules self rules at,
  ==_iff (configured_address r.listen) at,
  is_text_iff self r.name,
)

web_ui_iff :
    (w : Option Address) (c : ReadContext) (at : Text)
    → c.web_ui ≡ w
    → (is_web_ui c at ≡ false) ↔ IsElsewhere w at
web_ui_iff none c at e = rw (e, is_web_ui) (ground arith)
web_ui_iff (some a) c at e =
    rw (e, is_web_ui) (ground (arith, ==_iff (join_host_port a.host a.port) at))

check_clash-IsClear_iff :
    (c : ReadContext) (v : Bool) (at : Text) (e : DraftErrors)
    → IsClear (check_clash c v at e)
      ↔ (IsClear e × (owner_of c at ≡ none) × (is_web_ui c at ≡ false))
unfolding check_clash
check_clash-IsClear_iff c v at e = elim (Option-cases (owner_of c at)) [
  | inl free ↦ rw (free, check_clash) (web_part v)
  | inr (owner, found) ↦ rw (found, check_clash) (owner_part v owner)
]
  where
    web_part :
        (v : Bool)
        → IsClear (if is_web_ui c at then put_listen v listen_address_web_ui e else e)
          ↔ (IsClear e × (◌≡◌ {A = Option Rule} none none) × (is_web_ui c at ≡ false))
    web_part true = ground (arith, set_listen_virtual-has_errors e listen_address_web_ui)
    web_part false = ground (arith, set_listen_port-has_errors e listen_address_web_ui)

    owner_part :
        (v : Bool) (owner : Rule)
        → IsClear (record (put_listen v listen_address_taken e) {
          listen_address_owner = some owner.name;
        })
          ↔ (IsClear e × (some owner ≡ none) × (is_web_ui c at ≡ false))
    owner_part true owner =
        ground (arith, set_virtual_owner-has_errors e listen_address_taken owner.name)
    owner_part false owner =
        ground (arith, set_port_owner-has_errors e listen_address_taken owner.name)

-- A clash is looked for where there is a context and an address.
abbrev pub AddressOk : Option ReadContext → Option Text → Type 0
AddressOk none at = Unit
AddressOk (some c) none = Unit
AddressOk (some c) (some at) = HasNoClash c at

pub check_address-IsClear_iff :
    (c : Option ReadContext) (v : Bool) (at : Option Text) (e : DraftErrors)
    → IsClear (check_address c v at e) ↔ (IsClear e × AddressOk c at)
unfolding check_address
check_address-IsClear_iff none v at e = (λ h. (h, tt), λ h. h.0)
check_address-IsClear_iff (some c) v none e = (λ h. (h, tt), λ h. h.0)
check_address-IsClear_iff (some c) v (some at) e = ground (
  arith,
  check_clash-IsClear_iff c v at e,
  owner_of_rules c.self c.others at,
  web_ui_iff c.web_ui c at refl,
)

-- The target is read, and is not the channel that the rule itself listens on.
abbrev pub TargetOk : Option Text → Option Text → Type 0
TargetOk none listen_channel = ⊥
TargetOk (some channel) listen_channel = (channel ≡ []) ⊎ (listen_channel ≢ some channel)

pub check_target_channel-IsClear_iff :
    (channel listen_channel : Option Text) (e : DraftErrors)
    → IsClear (check_target_channel channel listen_channel e)
      ↔ (IsClear e × TargetOk channel listen_channel)
unfolding check_target_channel
check_target_channel-IsClear_iff none lc e =
    ground (arith, set_target_virtual-has_errors e invalid_virtual_channel)
check_target_channel-IsClear_iff (some channel) lc e =
    ground (arith, is_text_iff lc channel, set_target_virtual-has_errors e virtual_self_loop)
