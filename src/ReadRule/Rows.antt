-- ===== src/ReadRule/Rows.antt =====
-- app/web/ui/src/lib/ruleEditor.ts, the protocol rows of `readRule` and `readAuth`.
pub mod Clear
use jumpway.Prelude.{
  ℕ, Bool, true, false, not, ◌&&◌, ◌||◌, List, [], ◌∷◌, ◌++◌, Option, none, some, Text, is_empty,
  any, filter, includes, is_some, if◌then◌else◌,
}
use jumpway.Wire.{Protocol, filled}
use jumpway.Way.{nonempty}
use jumpway.Draft.{
  ProtocolType, CredentialField, username, password, type_text, shows, is_ss, ProtocolDraft,
  ListenDraft,
}
use jumpway.ReadRule.Errors.{
  MessageKey, cipher_required, password_required, username_colon, password_needs_username,
  DraftErrors, type_beq, field_beq,
}

abbrev pub some_text : Bool → Text → Option Text
some_text keep s = if keep && nonempty s then some s else none

abbrev pub row_entry : ProtocolDraft → Protocol
row_entry row = record {
  type = type_text row.type;
  username = some_text row.custom row.username;
  password = some_text row.custom row.password;
  cipher = some_text (is_ss row.type) row.cipher;
}

-- What a row of Shadowsocks may lack.
row_errors : Text → ProtocolDraft → DraftErrors → DraftErrors
row_errors shared row e =
    if not (is_ss row.type)
    then e
    else let e' =
        if nonempty row.cipher then e else record e { ss_cipher = some cipher_required } in
      if not (filled (row_entry row).password) && is_empty shared
      then record e' { ss_password = some password_required }
      else e'

-- The loop over the rows: the entries so far, and the errors.
unfoldable pub read_rows :
    Bool → Text → List ProtocolDraft → List Protocol → DraftErrors → List Protocol × DraftErrors
unfolding row_errors
read_rows forwarding shared [] entries e = (entries, e)
read_rows forwarding shared (row ∷ rows) entries e =
    let skip = forwarding || not row.enabled in
    read_rows forwarding shared rows (if skip then entries else entries ++ row_entry row ∷ [])
      (if skip then e else row_errors shared row e)

put_field :
    ProtocolType × CredentialField
    → MessageKey
    → List ((ProtocolType × CredentialField) × MessageKey)
    → List ((ProtocolType × CredentialField) × MessageKey)
put_field at key [] = (at, key) ∷ []
put_field at key ((at', key') ∷ es) =
    if type_beq at'.0 at.0 && field_beq at'.1 at.1
    then (at, key) ∷ es
    else (at', key') ∷ put_field at key es

report : ProtocolType → CredentialField → MessageKey → DraftErrors → DraftErrors
unfolding put_field
report type field key e =
    if shows type field
    then record e { protocol_errors = put_field (type, field) key e.protocol_errors }
    else e

-- One round of the loop of `readAuth`.
auth_row : ListenDraft → Bool → ProtocolDraft → DraftErrors → DraftErrors
unfolding report
auth_row l shared_for_ss row e =
    let own_username = if row.custom then row.username else [] in
    let own_password = if row.custom then row.password else [] in
    let e' = if includes b':' own_username then report row.type username username_colon e else e in
    if is_ss row.type
    then e'
    else if not (nonempty own_password || nonempty l.password)
        || nonempty own_username
        || nonempty l.username
    then e'
    else if nonempty own_password
    then report row.type (if shows row.type password then password else username)
        password_needs_username e'
    else if shared_for_ss
    then e'
    else record e' { listen_password = some password_needs_username }

auth_rows : ListenDraft → Bool → List ProtocolDraft → DraftErrors → DraftErrors
unfolding auth_row
auth_rows l shared_for_ss [] e = e
auth_rows l shared_for_ss (row ∷ rows) e =
    auth_rows l shared_for_ss rows (auth_row l shared_for_ss row e)

abbrev pub enabled_rows : ListenDraft → List ProtocolDraft
enabled_rows l = filter (λ (r : ProtocolDraft). r.enabled) l.protocols

-- Shadowsocks is enabled and takes the shared password.
abbrev pub shared_for_ss : ListenDraft → Bool
shared_for_ss l =
    any (λ (r : ProtocolDraft). is_ss r.type && not (r.custom && nonempty r.password))
      (enabled_rows l)

unfoldable pub read_auth : ListenDraft → DraftErrors → DraftErrors
unfolding auth_rows
read_auth l e =
    auth_rows l (shared_for_ss l) (enabled_rows l)
      (if includes b':' l.username then record e { listen_username = some username_colon } else e)
