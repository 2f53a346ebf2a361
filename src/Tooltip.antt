-- ===== src/Tooltip.antt =====
-- app/web/ui/src/lib/actions/tooltip.svelte.ts: the tooltip that the page shows for one element at a time. An
-- element is a number; its attribute `aria-describedby` is kept as the list of its tokens, none where it
-- is not there.
pub mod Owner
pub mod HelpTip
use jumpway.Prelude.{
  ℕ, zero, suc, ◌-◌, Bool, true, false, not, ◌&&◌, List, [], ◌∷◌, ◌++◌, Option, none, some, is_some,
  Text, codes, text_eq, any, filter, is_empty, nat_beq, if◌then◌else◌, ◌==◌,
}

abbrev pub tooltip_id : Text
tooltip_id = codes "tooltip"

-- `deferred` are the microtasks that wait, each with the element and the activation that it was given.
pub record Tooltip : Type 0 where
  pub text : Text
  pub owner : Option ℕ
  pub tokens : ℕ → List Text
  pub activation : ℕ
  pub deferred : List (ℕ × ℕ)
  pub hosts : ℕ
  pub listening : Bool

abbrev pub is_owner : ℕ → Option ℕ → Bool
is_owner node none = false
is_owner node (some owner) = nat_beq owner node

abbrev pub is_tooltip : Text → Bool
is_tooltip token = token == tooltip_id

abbrev pub with_token : List Text → List Text
with_token tokens = if any is_tooltip tokens then tokens else tokens ++ tooltip_id ∷ []

abbrev pub without_token : List Text → List Text
without_token tokens = filter (λ token. not (is_tooltip token)) tokens

unfoldable pub describe : ℕ → (ℕ → List Text) → ℕ → List Text
describe node tokens n = if nat_beq node n then with_token (tokens n) else tokens n

unfoldable pub undescribe : ℕ → (ℕ → List Text) → ℕ → List Text
undescribe node tokens n = if nat_beq node n then without_token (tokens n) else tokens n

abbrev pub undescribed : Option ℕ → (ℕ → List Text) → ℕ → List Text
undescribed none tokens = tokens
undescribed (some owner) tokens = undescribe owner tokens

unfoldable pub hide_tooltip : Tooltip → Tooltip
unfolding undescribe
hide_tooltip s = record s { tokens = undescribed s.owner s.tokens; owner = none; text = [] }

-- The owner before gives the tooltip up, unless it is the element itself.
abbrev pub given_up : Option ℕ → ℕ → (ℕ → List Text) → ℕ → List Text
given_up none node tokens = tokens
given_up (some owner) node tokens = if nat_beq owner node then tokens else undescribe owner tokens

unfoldable pub show : ℕ → Text → Tooltip → Tooltip
unfolding hide_tooltip describe
show node [] s = if is_owner node s.owner then hide_tooltip s else s
show node (c ∷ value) s = record s {
  tokens = describe node (given_up s.owner node s.tokens);
  owner = some node;
  text = c ∷ value;
}

unfoldable pub show_tooltip : ℕ → Text → Tooltip → Tooltip
unfolding show
show_tooltip node value s =
    show node value
      (record s { activation = if is_empty value then s.activation else suc s.activation })

unfoldable pub release_tooltip : ℕ → Tooltip → Tooltip
release_tooltip node s =
    if is_owner node s.owner
    then record s { deferred = s.deferred ++ (node, s.activation) ∷ [] }
    else s

-- The microtask that was queued first.
abbrev pub flush : List (ℕ × ℕ) → Tooltip → Tooltip
flush [] s = s
flush ((node, token) ∷ rest) s =
    let left = record s { deferred = rest } in
    if is_owner node s.owner && nat_beq s.activation token then hide_tooltip left else left

unfoldable pub retain : Tooltip → Tooltip
retain s = record s {
  hosts = suc s.hosts;
  listening = if nat_beq s.hosts 0 then true else s.listening;
}

-- What `retainTooltipListeners` returns; it runs once for each host.
abbrev pub release : ℕ → Tooltip → Tooltip
release zero s = s
release (suc n) s = record s { hosts = n; listening = if nat_beq n 0 then false else s.listening }

pub data TooltipEvent : Type 0 where
  -- The action on an element: it is set up, entered and left with a text, given another, and taken down.
  mounts : TooltipEvent
  enters updates : (node : ℕ) → Text → TooltipEvent
  leaves destroys : (node : ℕ) → TooltipEvent
  -- A scroll, a resize or Escape, where it is listened to.
  dismisses : TooltipEvent
  -- A microtask.
  runs : TooltipEvent

abbrev pub update : Bool → ℕ → Text → Tooltip → Tooltip
update false node value s = s
update true node value s = show node value s

abbrev pub dismiss : Bool → Tooltip → Tooltip
dismiss false s = s
dismiss true s = hide_tooltip s

abbrev pub step : TooltipEvent → Tooltip → Tooltip
step mounts s = retain s
step (enters node value) s = show_tooltip node value s
step (updates node value) s = update (is_owner node s.owner) node value s
step (leaves node) s = release_tooltip node s
step (destroys node) s = let left = release_tooltip node s in release left.hosts left
step dismisses s = dismiss s.listening s
step runs s = flush s.deferred s

abbrev pub run : List TooltipEvent → Tooltip → Tooltip
run [] s = s
run (e ∷ es) s = run es (step e s)

-- A page with elements that have tokens of their own.
abbrev pub hidden : (ℕ → List Text) → Tooltip
hidden tokens = record {
  text = [];
  owner = none;
  tokens = tokens;
  activation = 0;
  deferred = [];
  hosts = 0;
  listening = false;
}
