-- ===== src/Pages/Connections.antt =====
-- app/web/ui/src/routes/ConnectionsPage.svelte, the script: the open connections, and how one is closed.
-- `calls` are the calls of `disconnectConnection` that have not settled; a row's toggle has the number of
-- its connection as the document's focus.
pub mod Calls
use jumpway.Prelude.{
  ℕ, suc, ◌+◌, Bool, true, false, not, ◌||◌, List, [], ◌∷◌, ◌++◌, map, Option, none, some, list,
  Text, text_eq, trim, any, filter, take, drop, is_empty, length, leb, nat_beq, if◌then◌else◌, ◌==◌,
}
use jumpway.Hosts.{Parser}
use jumpway.Search.{ListSort}
use jumpway.Sorting.{Comparisons}
use jumpway.Stats.{RuleStats}
use jumpway.Connections.{RuleConnection, current_connections, filter_connections}
use jumpway.Connections.Sorting.{ConnectionSortKey, default_connection_sort, sort_connections}
use jumpway.Api.{ApiError}

abbrev pub connection_page_size : ℕ
connection_page_size = 200

pub data ConnectionSaying : Type 0 where
  disconnected : ConnectionSaying
  failed_with : ApiError → ConnectionSaying

pub record ConnectionsPage : Type 0 where
  pub rule : Text
  pub query : Text
  pub sort : ListSort ConnectionSortKey
  pub limit : ℕ
  pub pending : List ℕ
  pub expanded : List ℕ
  pub calls : List ℕ
  pub said : List ConnectionSaying
  pub navigated : List Text
  pub focus : Option ℕ

abbrev pub open_page : ConnectionsPage
open_page = record {
  rule = [];
  query = [];
  sort = default_connection_sort;
  limit = connection_page_size;
  pending = [];
  expanded = [];
  calls = [];
  said = [];
  navigated = [];
  focus = none;
}

abbrev pub has : ℕ → List ℕ → Bool
has id ids = any (λ i. nat_beq i id) ids

abbrev pub without : ℕ → List ℕ → List ℕ
without id ids = filter (λ i. not (nat_beq i id)) ids

-- Another rule or query starts at the first page.
unfoldable pub set_rule : Text → ConnectionsPage → ConnectionsPage
set_rule rule s =
    if s.rule == rule then s else record s { rule = rule; limit = connection_page_size }

unfoldable pub set_query : Text → ConnectionsPage → ConnectionsPage
set_query query s =
    if s.query == query then s else record s { query = query; limit = connection_page_size }

-- The choice of a rule is also put into the address.
unfoldable pub select_rule : Text → ConnectionsPage → ConnectionsPage
unfolding set_rule
select_rule rule s =
    let chosen = set_rule rule s in record chosen { navigated = s.navigated ++ rule ∷ [] }

unfoldable pub toggle_row : ℕ → ConnectionsPage → ConnectionsPage
toggle_row id s = record s {
  expanded = if has id s.expanded then without id s.expanded else s.expanded ++ id ∷ [];
}

unfoldable pub disconnect : ℕ → ConnectionsPage → ConnectionsPage
disconnect id s =
    if has id s.pending
    then s
    else record s { pending = s.pending ++ id ∷ []; calls = s.calls ++ id ∷ [] }

abbrev saying_of : Option ApiError → ConnectionSaying
saying_of none = disconnected
saying_of (some reason) = failed_with reason

-- What follows the call of a connection, which may have failed.
unfoldable pub disconnect_ended : ℕ → Option ApiError → ConnectionsPage → ConnectionsPage
disconnect_ended id failure s =
    if has id s.calls
    then record s {
      pending = without id s.pending;
      calls = without id s.calls;
      said = s.said ++ saying_of failure ∷ [];
    }
    else s

module _ {N : Type 0} where
  -- The names that the menu offers: the chosen rule stays even when the snapshot does not know it.
  unfoldable pub rule_names : Option (List (RuleStats N)) → Text → List Text
  rule_names rules rule =
      let names = map (λ (e : RuleStats N). e.name) (list rules) in
      if is_empty rule || any (λ n. n == rule) names then names else names ++ rule ∷ []

  module _ (c : Comparisons N) (parser : Parser) (lower : Text → Text) where
    unfoldable pub sorted : Option (List (RuleStats N)) → ConnectionsPage → List (RuleConnection N)
    unfolding current_connections filter_connections sort_connections
    sorted rules s =
        sort_connections parser c
          (filter_connections lower (current_connections rules) s.rule s.query) s.sort

    unfoldable pub shown : Option (List (RuleStats N)) → ConnectionsPage → List (RuleConnection N)
    unfolding sorted
    shown rules s = take s.limit (sorted rules s)

    abbrev first_id : List (RuleConnection N) → Option ℕ
    first_id [] = none
    first_id (r ∷ rest) = some r.connection.id

    -- The button is there while rows are hidden. With the last page it goes, and the focus moves to the
    -- first row that it revealed.
    unfoldable pub show_more : Option (List (RuleStats N)) → ConnectionsPage → ConnectionsPage
    unfolding shown
    show_more rules s =
        let more = record s { limit = s.limit + connection_page_size } in
        if leb (length (sorted rules s)) (length (shown rules more))
        then record more { focus = first_id (drop (length (shown rules s)) (sorted rules s)) }
        else more

pub data ConnectionEvent : Type 0 where
  routes selects types : Text → ConnectionEvent
  sorts : ListSort ConnectionSortKey → ConnectionEvent
  toggles disconnects : ℕ → ConnectionEvent
  ends : ℕ → Option ApiError → ConnectionEvent

abbrev pub step : ConnectionEvent → ConnectionsPage → ConnectionsPage
step (routes rule) s = set_rule rule s
step (selects rule) s = select_rule rule s
step (types query) s = set_query query s
step (sorts sort) s = record s { sort = sort }
step (toggles id) s = toggle_row id s
step (disconnects id) s = disconnect id s
step (ends id failure) s = disconnect_ended id failure s

abbrev pub run : List ConnectionEvent → ConnectionsPage → ConnectionsPage
run [] s = s
run (e ∷ es) s = run es (step e s)
