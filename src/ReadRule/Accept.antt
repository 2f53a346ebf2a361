-- ===== src/ReadRule/Accept.antt =====
-- Which drafts `readRule` accepts: the conditions, member by member, and that they are exact.
use jumpway.Prelude.{
  ℕ, Bool, true, false, List, [], ◌∷◌, map, Option, none, some, Text, trim, is_empty, includes,
  if◌then◌else◌, ◌≡◌, ◌≢◌, inl, inr, ◌↔◌, refl, arith, All, Bool-cases,
}
use jumpway.Draft.{RuleDraft}
use jumpway.ReadRule.Errors.{
  invalid_port, invalid_virtual_channel, invalid_forward_port, protocol_required, DraftErrors,
  no_errors, has_errors, IsClear, ReadContext,
}
use jumpway.ReadRule.Fields.{read_way}
use jumpway.ReadRule.Fields.Clear.{HopOk, read_hops-IsClear_iff}
use jumpway.ReadRule.Rows.{row_entry, read_rows, read_auth, enabled_rows}
use jumpway.ReadRule.Rows.Clear.{
  RowOk, AuthOk, read_rows-entries, read_rows-IsClear_iff, read_rows_forward, read_auth-IsClear_iff,
}
use jumpway.ReadRule.Setters.{
  set_listen_port-has_errors, set_listen_virtual-has_errors, set_protocols-has_errors,
  set_target_port-has_errors,
}
use jumpway.ReadRule.Stages.{
  NameOk, check_name-IsClear_iff, AddressOk, check_address-IsClear_iff, TargetOk,
  check_target_channel-IsClear_iff,
}
use jumpway.ReadRule.{
  is_forwarding, check_name, check_some, check_target_channel, clash_address, listen_virtual,
  listen_port, listen_channel, target_port, target_channel, listen_hops, forward_hops, entry_errors,
  protocol_errors, target_errors, all_errors,
}

check_some-IsClear_iff :
    {A : Type 0} (o : Option A) (e bad : DraftErrors)
    → has_errors bad ≡ true
    → IsClear (check_some o e bad) ↔ (IsClear e × (o ≢ none))
check_some-IsClear_iff none e bad h = ground arith
check_some-IsClear_iff (some a) e bad h = ground arith

is_empty-map {ℓ κ} :
    {A : Type ℓ} {B : Type κ} (f : A → B) (xs : List A) → is_empty (map f xs) ≡ is_empty xs
is_empty-map f [] = refl
is_empty-map f (x ∷ xs) = refl

no_errors-IsClear : IsClear no_errors
unfolding has_errors
no_errors-IsClear = refl

module _ (number : Text → Option ℕ) (d : RuleDraft) where
  -- The entry: its name, port, channel and way.
  abbrev pub EntryOk : Option ReadContext → Type 0
  EntryOk context =
      NameOk context (trim d.name)
      × (listen_port number d ≢ none)
      × (listen_channel number d ≢ none)
      × All HopOk (listen_hops number d)

  entry_errors-IsClear_iff :
      (context : Option ReadContext) → IsClear (entry_errors number d context) ↔ EntryOk context
  unfolding entry_errors read_way
  entry_errors-IsClear_iff context =
      let e1 = check_name context (trim d.name) no_errors in
      let b2 = record e1 { listen_port = some invalid_port } in
      let e2 = check_some (listen_port number d) e1 b2 in
      let b3 = record e2 { listen_virtual = some invalid_virtual_channel } in
      let e3 = check_some (listen_channel number d) e2 b3 in
      let (to1, from1) = check_name-IsClear_iff context (trim d.name) no_errors in
      let (to2, from2) =
        check_some-IsClear_iff (listen_port number d) e1 b2
          (set_listen_port-has_errors e1 invalid_port) in
      let (to3, from3) =
        check_some-IsClear_iff (listen_channel number d) e2 b3
          (set_listen_virtual-has_errors e2 invalid_virtual_channel) in
      let (to4, from4) = read_hops-IsClear_iff (listen_hops number d) e3 in
      (
        λ c4.
            let (c3, way) = to4 c4 in
            let (c2, channel) = to3 c3 in
            let (c1, port) = to2 c2 in ((to1 c1).1, port, channel, way),
        λ (named, port, channel, way).
            from4 (from3 (from2 (from1 (no_errors-IsClear, named), port), channel), way),
      )

  -- The protocols: a proxy serves at least one, and its rows and credentials are complete.
  abbrev pub ProtocolsOk : Bool → Type 0
  ProtocolsOk true = Unit
  ProtocolsOk false =
      (enabled_rows d.listen ≢ [])
      × All (RowOk d.listen.password) (enabled_rows d.listen)
      × (includes b':' d.listen.username ≡ false)
      × All (AuthOk d.listen) (enabled_rows d.listen)

  abbrev proxy_errors : DraftErrors → DraftErrors
  proxy_errors e =
      let (protocols, e) = read_rows false d.listen.password d.listen.protocols [] e in
      read_auth d.listen
        (if is_empty protocols then record e { protocols = some protocol_required } else e)

  -- The checks of a proxy, where the rows are read into `entries`.
  proxy_part : (e : DraftErrors) → IsClear (proxy_errors e) ↔ (IsClear e × ProtocolsOk false)
  proxy_part e =
      let read = read_rows false d.listen.password d.listen.protocols [] e in
      let bad = record (read.1) { protocols = some protocol_required } in
      ground (
        arith,
        read_rows-entries d.listen.password d.listen.protocols [] e,
        read_rows-IsClear_iff d.listen.password d.listen.protocols [] e,
        is_empty-map row_entry (enabled_rows d.listen),
        read_auth-IsClear_iff d.listen read.1,
        read_auth-IsClear_iff d.listen bad,
        set_protocols-has_errors read.1 protocol_required,
      )

  protocol_errors-IsClear_iff :
      (e : DraftErrors)
      → IsClear (protocol_errors number d e) ↔ (IsClear e × ProtocolsOk (is_forwarding d))
  unfolding protocol_errors
  protocol_errors-IsClear_iff e = elim (Bool-cases (is_forwarding d)) [
    | inl fwd ↦ rw (fwd, read_rows_forward) (λ c. (c, tt), λ h. h.0)
    | inr prx ↦ rw prx (proxy_part e)
  ]

  -- The target: its port, channel and way.
  abbrev pub TargetsOk : Type 0
  TargetsOk =
      (target_port number d ≢ none)
      × TargetOk (target_channel number d) (listen_channel number d)
      × All HopOk (forward_hops number d)

  target_errors-IsClear_iff :
      (e : DraftErrors) → IsClear (target_errors number d e) ↔ (IsClear e × TargetsOk)
  unfolding target_errors read_way
  target_errors-IsClear_iff e =
      let b1 = record e { target_port = some invalid_forward_port } in
      let e1 = check_some (target_port number d) e b1 in
      let e2 = check_target_channel (target_channel number d) (listen_channel number d) e1 in
      let (to1, from1) =
        check_some-IsClear_iff (target_port number d) e b1
          (set_target_port-has_errors e invalid_forward_port) in
      let (to2, from2) =
        check_target_channel-IsClear_iff (target_channel number d) (listen_channel number d) e1 in
      let (to3, from3) = read_hops-IsClear_iff (forward_hops number d) e2 in
      (
        λ c3.
            let (c2, way) = to3 c3 in
            let (c1, channel) = to2 c2 in let (c, port) = to1 c1 in (c, (port, channel, way)),
        λ (c, (port, channel, way)). from3 (from2 (from1 (c, port), channel), way),
      )

  -- The address of the entry, where one is compared with those of the other rules.
  abbrev pub compared_address : Option Text
  compared_address =
      clash_address d (listen_port number d) (listen_channel number d)
        (read_way (listen_hops number d) no_errors).0

  -- What a draft has to meet.
  pub record IsAcceptable (context : Option ReadContext) : Type 0 where
    pub entry : EntryOk context
    pub protocols : ProtocolsOk (is_forwarding d)
    pub targets : TargetsOk
    pub address : AddressOk context compared_address

  pub all_errors-IsClear_iff :
      (context : Option ReadContext) → IsClear (all_errors number d context) ↔ IsAcceptable context
  unfolding all_errors
  all_errors-IsClear_iff context =
      let e1 = entry_errors number d context in
      let e2 = protocol_errors number d e1 in
      let e3 = target_errors number d e2 in
      let (to1, from1) = entry_errors-IsClear_iff context in
      let (to2, from2) = protocol_errors-IsClear_iff e1 in
      let (to3, from3) = target_errors-IsClear_iff e2 in
      let (to4, from4) =
        check_address-IsClear_iff context (listen_virtual number d) compared_address e3 in
      (
        λ c4.
            let (c3, address) = to4 c4 in
            let (c2, targets) = to3 c3 in
            let (c1, protocols) = to2 c2 in
            record { entry = to1 c1; protocols = protocols; targets = targets; address = address },
        λ a. from4 (from3 (from2 (from1 a.entry, a.protocols), a.targets), a.address),
      )
