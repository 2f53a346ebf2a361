-- ===== src/ReadRule/Rows/Clear.antt =====
-- When the protocol rows and `readAuth` refuse nothing, and which entries are read.
use jumpway.Prelude.{
  true, false, List, [], ◌∷◌, ◌++◌, map, some, Text, is_empty, filter, includes, ◌≡◌, ◌≢◌, ◌⊎◌, ◌↔◌,
  refl, sym, arith, All, append_assoc, append-nil,
}
use jumpway.Wire.{Protocol}
use jumpway.Draft.{
  ProtocolType, CredentialField, username, password, shows, is_ss, ProtocolDraft, ListenDraft,
}
use jumpway.ReadRule.Errors.{
  MessageKey, username_colon, password_needs_username, DraftErrors, has_errors, IsClear,
}
use jumpway.ReadRule.Rows.{
  row_entry, row_errors, read_rows, put_field, report, auth_row, auth_rows, enabled_rows,
  shared_for_ss, read_auth,
}

-- A row of Shadowsocks needs a cipher, and a password of its own or the shared one.
abbrev pub RowOk : Text → ProtocolDraft → Type 0
RowOk shared row =
    (is_ss row.type ≡ false)
    ⊎ ((row.cipher ≢ []) × (((row.custom ≡ true) × (row.password ≢ [])) ⊎ (shared ≢ [])))

row_errors-IsClear_iff :
    (shared : Text) (row : ProtocolDraft) (e : DraftErrors)
    → IsClear (row_errors shared row e) ↔ (IsClear e × RowOk shared row)
unfolding row_errors has_errors
row_errors-IsClear_iff shared row e = ground arith

abbrev on_rows : List ProtocolDraft → List ProtocolDraft
on_rows = filter (λ (r : ProtocolDraft). r.enabled)

append-cons : {A : Type 0} (xs ys : List A) (x : A) → (xs ++ x ∷ []) ++ ys ≡ xs ++ (x ∷ ys)
append-cons xs ys x = append_assoc xs (x ∷ []) ys

-- In proxy mode the entries of the enabled rows are read, in their order.
pub read_rows-entries :
    (shared : Text) (rows : List ProtocolDraft) (entries : List Protocol) (e : DraftErrors)
    → (read_rows false shared rows entries e).0 ≡ entries ++ map row_entry (on_rows rows)
unfolding read_rows
read_rows-entries shared [] entries e = sym (append-nil entries)
read_rows-entries shared (row ∷ rows) entries e = ground (
  arith,
  read_rows-entries shared rows entries e,
  read_rows-entries shared rows (entries ++ row_entry row ∷ []) (row_errors shared row e),
  append-cons entries (map row_entry (on_rows rows)) (row_entry row),
)

-- Only they can be refused.
pub read_rows-IsClear_iff :
    (shared : Text) (rows : List ProtocolDraft) (entries : List Protocol) (e : DraftErrors)
    → IsClear (read_rows false shared rows entries e).1
      ↔ (IsClear e × All (RowOk shared) (on_rows rows))
unfolding read_rows
read_rows-IsClear_iff shared [] entries e = (λ h. (h, tt), λ h. h.0)
read_rows-IsClear_iff shared (row ∷ rows) entries e = ground (
  arith,
  read_rows-IsClear_iff shared rows entries e,
  read_rows-IsClear_iff shared rows (entries ++ row_entry row ∷ []) (row_errors shared row e),
  row_errors-IsClear_iff shared row e,
)

-- In forward mode no row is read.
pub read_rows_forward :
    (shared : Text) (rows : List ProtocolDraft) (entries : List Protocol) (e : DraftErrors)
    → read_rows true shared rows entries e ≡ (entries, e)
unfolding read_rows
read_rows_forward shared [] entries e = refl
read_rows_forward shared (row ∷ rows) entries e = read_rows_forward shared rows entries e

-- The credentials of a row: its own user name holds no colon where the row shows it; and a password
-- needs a user name, but for Shadowsocks, which may take the shared password alone.
abbrev pub AuthOk : ListenDraft → ProtocolDraft → Type 0
AuthOk l row =
    ((row.custom ≡ false) ⊎ (is_ss row.type ≡ true) ⊎ (includes b':' row.username ≡ false))
    × ((is_ss row.type ≡ true)
        ⊎ ((row.custom ≡ true) × (row.username ≢ []))
        ⊎ (l.username ≢ [])
        ⊎ (((row.custom ≡ false) ⊎ (row.password ≡ []))
            × ((l.password ≡ []) ⊎ (shared_for_ss l ≡ true))))

put_field-cons :
    (at : ProtocolType × CredentialField) (key : MessageKey)
    (es : List ((ProtocolType × CredentialField) × MessageKey))
    → is_empty (put_field at key es) ≡ false
unfolding put_field
put_field-cons at key [] = refl
put_field-cons at key ((at', key') ∷ es) = ground arith

report-IsClear_iff :
    (type : ProtocolType) (field : CredentialField) (key : MessageKey) (e : DraftErrors)
    → IsClear (report type field key e) ↔ (IsClear e × (shows type field ≡ false))
unfolding report has_errors
report-IsClear_iff type field key e =
    ground (arith, put_field-cons (type, field) key e.protocol_errors)

set_password-has_errors :
    (e : DraftErrors)
    → has_errors (record e { listen_password = some password_needs_username }) ≡ true
unfolding has_errors
set_password-has_errors e = ground arith

auth_row-IsClear_iff :
    (l : ListenDraft) (row : ProtocolDraft) (e : DraftErrors)
    → IsClear (auth_row l (shared_for_ss l) row e) ↔ (IsClear e × AuthOk l row)
unfolding auth_row
auth_row-IsClear_iff l row e =
    let colon = report row.type username username_colon e in
    ground (
      arith,
      report-IsClear_iff row.type username username_colon e,
      report-IsClear_iff row.type username password_needs_username e,
      report-IsClear_iff row.type password password_needs_username e,
      report-IsClear_iff row.type username password_needs_username colon,
      report-IsClear_iff row.type password password_needs_username colon,
      set_password-has_errors e,
      set_password-has_errors colon,
    )

auth_rows-IsClear_iff :
    (l : ListenDraft) (rows : List ProtocolDraft) (e : DraftErrors)
    → IsClear (auth_rows l (shared_for_ss l) rows e) ↔ (IsClear e × All (AuthOk l) rows)
unfolding auth_rows
auth_rows-IsClear_iff l [] e = (λ h. (h, tt), λ h. h.0)
auth_rows-IsClear_iff l (row ∷ rows) e = ground (
  arith,
  auth_rows-IsClear_iff l rows (auth_row l (shared_for_ss l) row e),
  auth_row-IsClear_iff l row e,
)

set_username-has_errors :
    (e : DraftErrors) → has_errors (record e { listen_username = some username_colon }) ≡ true
unfolding has_errors
set_username-has_errors e = ground arith

pub read_auth-IsClear_iff :
    (l : ListenDraft) (e : DraftErrors)
    → IsClear (read_auth l e)
      ↔ (IsClear e × (includes b':' l.username ≡ false) × All (AuthOk l) (enabled_rows l))
unfolding read_auth
read_auth-IsClear_iff l e =
    let colon = record e { listen_username = some username_colon } in
    ground (
      arith,
      auth_rows-IsClear_iff l (enabled_rows l) e,
      auth_rows-IsClear_iff l (enabled_rows l) colon,
      set_username-has_errors e,
    )
