-- ===== src/ReadRule/Errors.antt =====
-- app/web/ui/src/lib/ruleEditor.ts, `DraftErrors` and what else `readRule` takes and returns.
use jumpway.Prelude.{
  ℕ, Bool, true, false, not, ◌||◌, List, [], ◌∷◌, Option, none, Text, is_empty, is_some, nat_beq,
  if◌then◌else◌, ◌≡◌,
}
use jumpway.Wire.{Address, Rule}
use jumpway.Draft.{ProtocolType, CredentialField}

-- The message keys that `readRule` uses.
pub data MessageKey : Type 0 where
  rule_name_required rule_name_slash rule_name_taken invalid_port invalid_forward_port : MessageKey
  invalid_virtual_channel virtual_self_loop listen_address_taken listen_address_web_ui : MessageKey
  hop_url_empty hop_url_no_scheme username_colon password_needs_username : MessageKey
  protocol_required cipher_required password_required : MessageKey

-- `urls` is keyed by the id of a row, and `protocol_errors` by protocol and field; both objects are
-- made at their first entry, so an empty list stands for the missing member.
pub record DraftErrors : Type 0 where
  pub name : Option MessageKey
  pub listen_port : Option MessageKey
  pub listen_virtual : Option MessageKey
  pub listen_address_owner : Option Text
  pub listen_username : Option MessageKey
  pub listen_password : Option MessageKey
  pub protocols : Option MessageKey
  pub protocol_errors : List ((ProtocolType × CredentialField) × MessageKey)
  pub ss_cipher : Option MessageKey
  pub ss_password : Option MessageKey
  pub target_port : Option MessageKey
  pub target_virtual : Option MessageKey
  pub urls : List (ℕ × MessageKey)

abbrev pub no_errors : DraftErrors
no_errors = record {
  name = none;
  listen_port = none;
  listen_virtual = none;
  listen_address_owner = none;
  listen_username = none;
  listen_password = none;
  protocols = none;
  protocol_errors = [];
  ss_cipher = none;
  ss_password = none;
  target_port = none;
  target_virtual = none;
  urls = [];
}

-- `Object.keys(errors).length`
unfoldable pub has_errors : DraftErrors → Bool
has_errors e =
    is_some e.name
    || is_some e.listen_port
    || is_some e.listen_virtual
    || is_some e.listen_address_owner
    || is_some e.listen_username
    || is_some e.listen_password
    || is_some e.protocols
    || not (is_empty e.protocol_errors)
    || is_some e.ss_cipher
    || is_some e.ss_password
    || is_some e.target_port
    || is_some e.target_virtual
    || not (is_empty e.urls)

-- An entry of `urls`: the last one written for an id is the one that stands.
abbrev pub put_url : ℕ → MessageKey → List (ℕ × MessageKey) → List (ℕ × MessageKey)
put_url id key [] = (id, key) ∷ []
put_url id key ((id', key') ∷ urls) =
    if nat_beq id' id then (id, key) ∷ urls else (id', key') ∷ put_url id key urls

abbrev pub type_beq : ProtocolType → ProtocolType → Bool
type_beq ProtocolType.http ProtocolType.http = true
type_beq ProtocolType.socks5 ProtocolType.socks5 = true
type_beq ProtocolType.socks4 ProtocolType.socks4 = true
type_beq ProtocolType.ssh ProtocolType.ssh = true
type_beq ProtocolType.ss ProtocolType.ss = true
type_beq _ _ = false

abbrev pub field_beq : CredentialField → CredentialField → Bool
field_beq CredentialField.username CredentialField.username = true
field_beq CredentialField.password CredentialField.password = true
field_beq _ _ = false

pub record ReadContext : Type 0 where
  pub others : List Rule
  pub self : Option Text
  pub web_ui : Option Address

pub data ReadResult : Type 0 where
  ok : Rule → ReadResult
  errors : DraftErrors → ReadResult

abbrev pub IsClear : DraftErrors → Type 0
IsClear e = has_errors e ≡ false
