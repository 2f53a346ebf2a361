-- ===== src/Wire.antt =====
-- app/web/ui/src/lib/types.ts: the configuration that the pages and the server exchange. A member
-- that may be absent or null is an `Option`; a port is the natural number that the server sends.
use jumpway.Prelude.{ℕ, Option, none, some, Bool, false, not, List, Text, is_empty}

-- `WayNode`: one URL as a bare string, several as an array or as `{lb}`.
pub data WayNode : Type 0 where
  bare : Text → WayNode
  many : List Text → WayNode
  lb : Option (List Text) → WayNode

pub record WayHop : Type 0 where
  pub lb : List Text

pub record Address : Type 0 where
  pub host : Text
  pub port : ℕ

pub record Protocol : Type 0 where
  pub type : Text
  pub username : Option Text
  pub password : Option Text
  pub cipher : Option Text

pub record Listen : Type 0 where
  pub host : Text
  pub port : ℕ
  pub virtual : Option Text
  pub way : Option (List WayNode)
  pub username : Option Text
  pub password : Option Text
  pub cipher : Option Text
  pub protocols : Option (List Protocol)

pub record Forward : Type 0 where
  pub host : Option Text
  pub port : Option ℕ
  pub virtual : Option Text
  pub way : Option (List WayNode)

pub record Rule : Type 0 where
  pub name : Text
  pub disabled : Option Bool
  pub listen : Listen
  pub forward : Forward

-- `!!value` of a text that may be absent: neither absent nor empty
abbrev pub filled : Option Text → Bool
filled none = false
filled (some s) = not (is_empty s)

-- `text(value)` of format.ts, of a text that may be absent
abbrev pub text : Option Text → Text
text none = List.[]
text (some s) = s

abbrev pub is_disabled : Rule → Bool
is_disabled r = elim r.disabled [ none ↦ false | some b ↦ b ]
