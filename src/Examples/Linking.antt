-- ===== src/Examples/Linking.antt =====
-- The hashes that the pages link to, under a simple encoding.
use jumpway.Prelude.{
  ◌+◌, ◌-◌, [], ◌∷◌, map, drop, Option, none, some, is_empty, Text, codes, ◌≡◌, refl, ap, arith,
}
use jumpway.Router.{new, rule, route_for}
use jumpway.Router.Links.{
  connections, kind_of, rule_route, duplicate_route, stats_route, IsComponent, IsCodec,
  route_for-read,
}

-- An encoding that moves every character up, and a query that is a sign and the name.
shifted : Text → Text
shifted = map (λ c. c + 64)

back : Text → Text
back = map (λ c. c - 64)

back-shifted : (s : Text) → back (shifted s) ≡ s
unfolding back shifted
back-shifted [] = refl
back-shifted (c ∷ s) = ground (arith, back-shifted s)

shifted-IsComponent : (s : Text) → IsComponent (shifted s)
unfolding shifted
shifted-IsComponent [] = tt
shifted-IsComponent (c ∷ s) = (ground arith, shifted-IsComponent s)

shifted-filled : (s : Text) → is_empty (shifted s) ≡ is_empty s
unfolding shifted
shifted-filled [] = refl
shifted-filled (c ∷ s) = refl

abbrev decode_shifted : Text → Option Text
decode_shifted s = some (back s)

shifted-IsCodec : IsCodec shifted (b'=' ∷◌) (drop 1) decode_shifted
unfolding back
shifted-IsCodec = record {
  decoded = λ s w. ap some (back-shifted s);
  component = λ s w. shifted-IsComponent s;
  filled = λ s w. shifted-filled s;
  well_formed = λ s. refl;
  found = λ s w. refl;
  written = λ s. refl;
  blank = refl;
  none_found = refl;
}

abbrev web : Text
web = codes "a/b"

route_for-read_example :
    (route_for decode_shifted (drop 1) (rule_route shifted (b'=' ∷◌) web)
      ≡ record { kind = rule; hash = rule_route shifted (b'=' ∷◌) web; name = some web; rule = [] })
    × (route_for decode_shifted (drop 1) (duplicate_route shifted (b'=' ∷◌) web) ≡ record {
      kind = new;
      hash = duplicate_route shifted (b'=' ∷◌) web;
      name = none;
      rule = web;
    })
    × (route_for decode_shifted (drop 1) (stats_route shifted (b'=' ∷◌) connections web) ≡ record {
      kind = kind_of connections;
      hash = stats_route shifted (b'=' ∷◌) connections web;
      name = none;
      rule = web;
    })
    × ((route_for decode_shifted (drop 1) (stats_route shifted (b'=' ∷◌) connections [])).rule ≡ [])
route_for-read_example = route_for-read shifted-IsCodec connections web refl refl
