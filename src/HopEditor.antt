-- ===== src/HopEditor.antt =====
-- app/web/ui/src/lib/components/rules/HopEditor.svelte, the script: the rows of a way. The buttons that
-- move a hop are disabled at the ends, so nothing is moved there; a row is named by its position.
pub mod Ids
use jumpway.Prelude.{
  ℕ, zero, suc, ◌-◌, Bool, true, false, not, List, [], ◌∷◌, ◌++◌, Option, none, some, Text, nat_beq,
  filter, if◌then◌else◌,
}
use jumpway.Draft.{UrlDraft, HopDraft, new_url, new_hop}
use jumpway.ReadRule.Errors.{MessageKey}

-- `errors` is the member `urls` of the draft's errors, and `sequence` the counter of row ids.
pub record HopEditor : Type 0 where
  pub hops : List HopDraft
  pub errors : List (ℕ × MessageKey)
  pub sequence : ℕ

-- `xs.splice(index, 1)`
abbrev pub remove_at : {A : Type 0} → ℕ → List A → List A
remove_at index [] = []
remove_at zero (x ∷ xs) = xs
remove_at (suc index) (x ∷ xs) = x ∷ remove_at index xs

-- The value at a position changes.
abbrev pub change_at : {A : Type 0} → ℕ → (A → A) → List A → List A
change_at index f [] = []
change_at zero f (x ∷ xs) = f x ∷ xs
change_at (suc index) f (x ∷ xs) = x ∷ change_at index f xs

-- The values at a position and behind it change places.
abbrev pub swap_at : {A : Type 0} → ℕ → List A → List A
swap_at index [] = []
swap_at index (x ∷ []) = x ∷ []
swap_at zero (x ∷ y ∷ xs) = y ∷ x ∷ xs
swap_at (suc index) (x ∷ y ∷ xs) = x ∷ swap_at index (y ∷ xs)

unfoldable pub clear_error : ℕ → HopEditor → HopEditor
clear_error id s = record s { errors = filter (λ e. not (nat_beq e.0 id)) s.errors }

unfoldable pub add_hop : HopEditor → HopEditor
unfolding new_hop
add_hop s =
    let (hop, sequence) = new_hop s.sequence ([] ∷ []) in
    record s { hops = s.hops ++ hop ∷ []; sequence = sequence }

unfoldable pub remove_hop : ℕ → HopEditor → HopEditor
remove_hop index s = record s { hops = remove_at index s.hops }

-- `move` with the offset -1, and with 1.
unfoldable pub move_up : ℕ → HopEditor → HopEditor
move_up zero s = s
move_up (suc index) s = record s { hops = swap_at index s.hops }

unfoldable pub move_down : ℕ → HopEditor → HopEditor
move_down index s = record s { hops = swap_at index s.hops }

abbrev pub push_url : UrlDraft → HopDraft → HopDraft
push_url url hop = record hop { urls = hop.urls ++ url ∷ [] }

unfoldable pub add_url : ℕ → HopEditor → HopEditor
unfolding new_url
add_url at s =
    let (url, sequence) = new_url s.sequence [] in
    record s { hops = change_at at (push_url url) s.hops; sequence = sequence }

abbrev pub drop_url : ℕ → HopDraft → HopDraft
drop_url index hop = record hop { urls = remove_at index hop.urls }

unfoldable pub remove_url : ℕ → ℕ → HopEditor → HopEditor
remove_url at index s = record s { hops = change_at at (drop_url index) s.hops }

abbrev pub write_url : Text → UrlDraft → UrlDraft
write_url value url = record url { value = value }

abbrev pub write_hop : ℕ → Text → HopDraft → HopDraft
write_hop index value hop = record hop { urls = change_at index (write_url value) hop.urls }

-- Typing in a row, and the result of the builder, if it has one; `id` is that of the row.
unfoldable pub set_url : ℕ → ℕ → ℕ → Text → HopEditor → HopEditor
unfolding clear_error
set_url at index id value s =
    clear_error id (record s { hops = change_at at (write_hop index value) s.hops })

unfoldable pub open_builder : ℕ → ℕ → ℕ → Option Text → HopEditor → HopEditor
unfolding set_url
open_builder at index id none s = s
open_builder at index id (some result) s = set_url at index id result s

pub data HopEvent : Type 0 where
  adds_hop : HopEvent
  removes_hop moves_up moves_down adds_url : ℕ → HopEvent
  removes_url : ℕ → ℕ → HopEvent
  types : ℕ → ℕ → ℕ → Text → HopEvent
  builds : ℕ → ℕ → ℕ → Option Text → HopEvent

abbrev pub step : HopEvent → HopEditor → HopEditor
step adds_hop s = add_hop s
step (removes_hop index) s = remove_hop index s
step (moves_up index) s = move_up index s
step (moves_down index) s = move_down index s
step (adds_url at) s = add_url at s
step (removes_url at index) s = remove_url at index s
step (types at index id value) s = set_url at index id value s
step (builds at index id result) s = open_builder at index id result s

abbrev pub run : List HopEvent → HopEditor → HopEditor
run [] s = s
run (e ∷ es) s = run es (step e s)
