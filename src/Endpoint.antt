-- ===== src/Endpoint.antt =====
-- app/web/ui/src/lib/rule.ts: where a rule listens and forwards to, and the virtual channels that
-- join rules. The labels of hops are in Shell.Chain.
pub mod Injective
pub mod Channels
use jumpway.Prelude.{
  ℕ, ◌+◌, Bool, true, false, not, ◌&&◌, ◌||◌, List, [], ◌∷◌, ◌++◌, Option, none, some, Text, codes,
  is_empty, is_space, includes, any, filter, decimal, if◌then◌else◌, nat_beq, ltb, ◌==◌, text_eq,
  get_or, unique,
}
use jumpway.Wire.{Rule, Listen, Forward, Address, filled, text, is_disabled}

unfoldable pub is_forward : Rule → Bool
is_forward r = ltb 0 (get_or r.forward.port 0) || filled r.forward.virtual

abbrev pub virtual_address : Text → Text
virtual_address channel = codes "virtual://" ++ channel

-- `/^[^\s/]+$/`
unfoldable pub is_virtual_channel : Text → Bool
is_virtual_channel channel =
    not (is_empty channel) && not (any (λ c. is_space c || nat_beq c b'/') channel)

abbrev pub or_text : Text → Text → Text
or_text [] d = d
or_text (c ∷ s) d = c ∷ s

abbrev pub loopback : Text
loopback = codes "127.0.0.1"

abbrev pub brackets : Text → Text
brackets s = b'[' ∷ (s ++ b']' ∷ [])

abbrev pub starts_with_bracket : Text → Bool
starts_with_bracket [] = false
starts_with_bracket (c ∷ s) = nat_beq c b'['

-- A port for display: a number, or what is typed in the editor.
pub data PortText : Type 0 where
  number : ℕ → PortText
  typed : Text → PortText

port_text : Option PortText → Text
port_text none = codes "0"
port_text (some (number n)) = decimal n
port_text (some (typed s)) = or_text s (codes "0")

unfoldable pub host_port : Option Text → Option PortText → Text
unfolding port_text decimal
host_port host port =
    let name = or_text (text host) loopback in
    let wrapped =
      if includes b':' name && not (starts_with_bracket name) then brackets name else name in
    wrapped ++ (b':' ∷ port_text port)

abbrev pub wrap : Text → Text
wrap name = if includes b':' name then brackets name else name

unfoldable pub join_host_port : Text → ℕ → Text
join_host_port host port = wrap (or_text host loopback) ++ (b':' ∷ decimal port)

unfoldable pub forward_target : Rule → Text
unfolding is_forward host_port
forward_target r =
    if filled r.forward.virtual
    then virtual_address (text r.forward.virtual)
    else if is_forward r
    then host_port r.forward.host (elim r.forward.port [ none ↦ none | some p ↦ some (number p) ])
    else []

unfoldable pub listen_address : Rule → Text
unfolding host_port
listen_address r =
    if filled r.listen.virtual
    then virtual_address (text r.listen.virtual)
    else host_port (some r.listen.host) (some (number r.listen.port))

pub data VirtualSide : Type 0 where
  listen forward : VirtualSide

abbrev pub counterpart : VirtualSide → VirtualSide
counterpart listen = forward
counterpart forward = listen

-- `rule[side].virtual`
abbrev pub channel_of : VirtualSide → Rule → Option Text
channel_of listen r = r.listen.virtual
channel_of forward r = r.forward.virtual

-- `o === s` of a text that may be absent
abbrev pub is_text : Option Text → Text → Bool
is_text none s = false
is_text (some s') s = s' == s

unfoldable pub virtual_peers : List Rule → VirtualSide → Text → Text → List Rule
virtual_peers rules side channel self =
    if is_empty channel
    then []
    else filter
        (λ r.
          not (is_disabled r)
          && not (r.name == self)
          && is_text (channel_of (counterpart side) r) channel)
        rules

-- What one rule adds to the channels.
channel_entry : VirtualSide → Text → Rule → List Text
channel_entry side self r =
    let channel = channel_of (counterpart side) r in
    if filled channel && not (r.name == self) then text channel ∷ [] else []

channel_entries : VirtualSide → Text → List Rule → List Text
unfolding channel_entry
channel_entries side self [] = []
channel_entries side self (r ∷ rules) = channel_entry side self r ++ channel_entries side self rules

unfoldable pub virtual_channels : List Rule → VirtualSide → Text → List Text
unfolding channel_entries
virtual_channels rules side self = unique (channel_entries side self rules)
