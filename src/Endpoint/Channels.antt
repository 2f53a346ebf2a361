-- ===== src/Endpoint/Channels.antt =====
-- Which rules are the peers of a channel, and which channels a side offers.
use jumpway.Prelude.{
  true, false, not, ◌&&◌, List, [], ◌∷◌, Option, none, some, Text, ◌==◌, ==_iff, text_eq, ◌≡◌, ◌≢◌,
  inl, inr, ◌↔◌, refl, arith, In, Distinct, In-append_iff, In-filter_iff, unique-Distinct,
  In-unique_iff,
}
use jumpway.Wire.{Rule, is_disabled}
use jumpway.Endpoint.{
  VirtualSide, counterpart, channel_of, is_text, virtual_peers, channel_entry, channel_entries,
  virtual_channels,
}

-- What makes a rule offer a channel to a side: another rule, at the other end of the channel.
abbrev pub Offers : VirtualSide → Text → Text → Rule → Type 0
Offers side self channel r =
    (channel_of (counterpart side) r ≡ some channel) × (channel ≢ []) × (r.name ≢ self)

-- The same of a rule that runs.
abbrev pub IsPeer : VirtualSide → Text → Text → Rule → Type 0
IsPeer side self channel r = (is_disabled r ≡ false) × Offers side self channel r

is_text_iff : (o : Option Text) (s : Text) → (is_text o s ≡ true) ↔ (o ≡ some s)
is_text_iff none s = ground arith
is_text_iff (some s') s = ground (arith, ==_iff s' s)

-- The peers of a channel are exactly the listed rules that are enabled, are at the other end of the
-- channel and do not have the name of the rule itself; a blank channel has none.
virtual_peers_iff :
    (rules : List Rule) (side : VirtualSide) (channel self : Text) (r : Rule)
    → In r (virtual_peers rules side channel self) ↔ (In r rules × IsPeer side self channel r)
unfolding virtual_peers
virtual_peers_iff rules side [] self r = (λ m. absurd m, λ m. absurd (m.1.1.1 refl))
virtual_peers_iff rules side (c ∷ cs) self r =
    let o = channel_of (counterpart side) r in
    ground (
      arith,
      In-filter_iff
          (λ r.
            not (is_disabled r)
            && not (r.name == self)
            && is_text (channel_of (counterpart side) r) (c ∷ cs))
          r rules,
      is_text_iff o (c ∷ cs),
      ==_iff r.name self,
    )

In-channel_entry_iff :
    (side : VirtualSide) (self channel : Text) (r : Rule)
    → In channel (channel_entry side self r) ↔ Offers side self channel r
unfolding channel_entry
In-channel_entry_iff side self channel r = ground (arith, ==_iff r.name self)

In-channel_entries_iff :
    (side : VirtualSide) (self channel : Text) (rules : List Rule)
    → In channel (channel_entries side self rules)
      ↔ ((r : Rule) × In r rules × Offers side self channel r)
unfolding channel_entries
In-channel_entries_iff side self channel [] = (λ m. absurd m, λ (r, m, o). absurd m)
In-channel_entries_iff side self channel (r ∷ rules) =
    let (to, from) = In-channel_entries_iff side self channel rules in
    let (split, glue) =
      In-append_iff channel (channel_entry side self r) (channel_entries side self rules) in
    (
      λ m. elim (split m) [
        | inl l ↦ (r, inl refl, (In-channel_entry_iff side self channel r).0 l)
        | inr k ↦ let (r', m', o) = to k in (r', inr m', o)
      ],
      λ (r', m, o). elim m [
        | inl e ↦ glue (inl ((In-channel_entry_iff side self channel r).1 (rw e o)))
        | inr k ↦ glue (inr (from (r', k, o)))
      ],
    )

-- A side is offered exactly the channels that another listed rule has at its other end, each once.
virtual_channels_iff :
    (rules : List Rule) (side : VirtualSide) (self : Text)
    → Distinct (virtual_channels rules side self)
      × ((channel : Text)
          → In channel (virtual_channels rules side self)
            ↔ ((r : Rule) × In r rules × Offers side self channel r))
unfolding virtual_channels
virtual_channels_iff rules side self = (
  unique-Distinct _,
  λ channel.
      let (to, from) = In-unique_iff channel (channel_entries side self rules) in
      let (back, forth) = In-channel_entries_iff side self channel rules in
      (λ m. back (to m), λ o. from (forth o)),
)
