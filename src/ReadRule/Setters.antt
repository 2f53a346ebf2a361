-- ===== src/ReadRule/Setters.antt =====
-- An error that is written is there: one lemma for each member of `DraftErrors` that is assigned.
use jumpway.Prelude.{Text, some, true, ◌≡◌, arith}
use jumpway.ReadRule.Errors.{MessageKey, DraftErrors, has_errors}

module _ (e : DraftErrors) (key : MessageKey) where
  pub set_name-has_errors : has_errors (record e { name = some key }) ≡ true
  unfolding has_errors
  set_name-has_errors = ground arith

  pub set_listen_port-has_errors : has_errors (record e { listen_port = some key }) ≡ true
  unfolding has_errors
  set_listen_port-has_errors = ground arith

  pub set_listen_virtual-has_errors : has_errors (record e { listen_virtual = some key }) ≡ true
  unfolding has_errors
  set_listen_virtual-has_errors = ground arith

  pub set_port_owner-has_errors :
      (owner : Text)
      → has_errors (record e { listen_port = some key; listen_address_owner = some owner }) ≡ true
  unfolding has_errors
  set_port_owner-has_errors owner = ground arith

  pub set_virtual_owner-has_errors :
      (owner : Text)
      → has_errors (record e { listen_virtual = some key; listen_address_owner = some owner })
        ≡ true
  unfolding has_errors
  set_virtual_owner-has_errors owner = ground arith

  pub set_protocols-has_errors : has_errors (record e { protocols = some key }) ≡ true
  unfolding has_errors
  set_protocols-has_errors = ground arith

  pub set_target_port-has_errors : has_errors (record e { target_port = some key }) ≡ true
  unfolding has_errors
  set_target_port-has_errors = ground arith

  pub set_target_virtual-has_errors : has_errors (record e { target_virtual = some key }) ≡ true
  unfolding has_errors
  set_target_virtual-has_errors = ground arith
