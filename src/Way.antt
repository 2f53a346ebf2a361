-- ===== src/Way.antt =====
-- app/web/ui/src/lib/way.ts: the chain of hops of a rule, as it is stored and as it is edited.
pub mod Laws
use jumpway.Prelude.{
  ℕ, Bool, true, false, not, List, [], ◌∷◌, map, Option, none, some, Text, trim, is_empty, filter,
  list, if◌then◌else◌, nat_beq,
}
use jumpway.Wire.{WayNode, bare, many, lb, WayHop}

-- `s.split(c)`: one part more than there are separators
abbrev pub add_head : ℕ → List Text → List Text
add_head c [] = (c ∷ []) ∷ []
add_head c (part ∷ parts) = (c ∷ part) ∷ parts

unfoldable pub split : ℕ → Text → List Text
split sep [] = [] ∷ []
split sep (c ∷ s) = if nat_beq c sep then [] ∷ split sep s else add_head c (split sep s)

node_urls : WayNode → List Text
node_urls (bare s) = split b'|' s
node_urls (many urls) = urls
node_urls (lb urls) = list urls

abbrev pub hop : List Text → WayHop
hop urls = record { lb = urls }

unfoldable pub normalize_way : Option (List WayNode) → List WayHop
unfolding node_urls split
normalize_way way = map (λ node. hop (node_urls node)) (list way)

-- `Boolean(s)` of a text
abbrev pub nonempty : Text → Bool
nonempty s = not (is_empty s)

unfoldable pub serialize_way : List WayHop → List WayHop
serialize_way hops =
    filter (λ h. not (is_empty h.lb)) (map (λ h. hop (filter nonempty (map trim h.lb))) hops)
