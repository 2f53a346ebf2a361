-- ===== src/Examples/Drafts.antt =====
-- `readRule` and the drafts, at concrete rules.
use jumpway.Prelude.{
  arith, true, List, [], ◌∷◌, some, Text, codes, trim, decimal, text_beq, ◌≡◌, ◌↔◌, refl, NotIn,
}
use jumpway.Wire.{Rule}
use jumpway.Endpoint.{is_forward, join_host_port}
use jumpway.Draft.{way_of}
use jumpway.Draft.Duplicate.{duplicate_name, strip_copy, duplicate_name-free}
use jumpway.ReadRule.Errors.{has_errors, ok, errors}
use jumpway.ReadRule.Fields.{parse_port, has_scheme, read_way}
use jumpway.Way.{normalize_way}
use jumpway.ReadRule.Rows.{read_rows}
use jumpway.ReadRule.Stages.{HasNoClash}
use jumpway.ReadRule.Accept.{IsAcceptable}
use jumpway.ReadRule.Results.{IsRead, read_rule_iff, read_rule-errors}
use jumpway.ReadRule.Sound.{IsWellFormed, read_rule-IsWellFormed}
use jumpway.ReadRule.Clash.{read_rule-HasNoClash}
use jumpway.ReadRule.{is_forwarding, all_errors, built_rule, read_rule, configured_address, listens}
use jumpway.HopEditor.{HopEditor, HopEvent, adds_hop, moves_up, types, adds_url, run}
use jumpway.HopEditor.Ids.{IsNumbered, run-IsNumbered}
use jumpway.Examples.Data.{digits_only, context, tunnel_draft, clashing_draft}

abbrev pub tunnel : Rule
tunnel = built_rule digits_only tunnel_draft 2222 [] 22 []

-- The draft is accepted.
tunnel_accepted : read_rule digits_only tunnel_draft (some context) ≡ ok tunnel
unfolding read_rule has_errors parse_port has_scheme trim text_beq read_way way_of normalize_way
    join_host_port decimal read_rows
tunnel_accepted = refl

tunnel-listens : listens tunnel ≡ true
unfolding built_rule has_scheme trim way_of normalize_way read_way
tunnel-listens = refl

read_rule_iff_example : (read_rule digits_only tunnel_draft (some context) ≡ ok tunnel) ↔ (
    IsAcceptable digits_only tunnel_draft (some context) × IsRead digits_only tunnel_draft tunnel)
read_rule_iff_example = read_rule_iff digits_only tunnel_draft (some context) tunnel

read_rule-IsWellFormed_example :
    IsWellFormed tunnel × (is_forward tunnel ≡ is_forwarding tunnel_draft)
read_rule-IsWellFormed_example =
    read_rule-IsWellFormed digits_only tunnel_draft (some context) tunnel tunnel_accepted

read_rule-HasNoClash_example : HasNoClash context (configured_address tunnel.listen)
read_rule-HasNoClash_example =
    read_rule-HasNoClash digits_only tunnel_draft context tunnel tunnel_accepted tunnel-listens

-- The draft on the port of another rule is refused, and the owner is named.
clash_refused :
    read_rule digits_only clashing_draft (some context)
    ≡ errors (all_errors digits_only clashing_draft (some context))
unfolding read_rule all_errors has_errors parse_port has_scheme trim text_beq read_way way_of
    normalize_way join_host_port decimal read_rows
clash_refused = refl

clash_owner :
    (all_errors digits_only clashing_draft (some context)).listen_address_owner ≡ some (codes "web")
unfolding all_errors parse_port has_scheme trim text_beq read_way way_of normalize_way
    join_host_port decimal read_rows
clash_owner = refl

read_rule-errors_example :
    (has_errors (all_errors digits_only clashing_draft (some context)) ≡ true)
    × ¬ (IsAcceptable digits_only clashing_draft (some context))
read_rule-errors_example =
    read_rule-errors digits_only clashing_draft (some context)
      (all_errors digits_only clashing_draft (some context)) clash_refused

abbrev taken : List Text
taken = codes "web" ∷ codes "web-copy" ∷ codes "web-copy-2" ∷ []

web_copied : duplicate_name (codes "web-copy") taken ≡ some (codes "web-copy-3")
unfolding duplicate_name text_beq decimal
web_copied = refl

duplicate_name-free_example :
    (copy : Text) × (duplicate_name (codes "web-copy") taken ≡ some copy)
    × NotIn copy taken
    × (strip_copy copy ≡ strip_copy (codes "web-copy"))
duplicate_name-free_example = duplicate_name-free (codes "web-copy") taken

-- The rows of a way: a hop is added, moved and filled in, and a URL added to it.
abbrev one_hop : HopEditor
one_hop = record { hops = tunnel_draft.forward_way; errors = []; sequence = 2 }

one_hop-IsNumbered : IsNumbered one_hop
one_hop-IsNumbered = record { single = λ i. ground arith; free = λ i l. ground arith }

abbrev row_events : List HopEvent
row_events = adds_hop ∷ moves_up 1 ∷ types 0 0 4 (codes "ssh://b") ∷ adds_url 0 ∷ []

run-IsNumbered_example : IsNumbered (run row_events one_hop)
run-IsNumbered_example = run-IsNumbered row_events one_hop one_hop-IsNumbered
