-- ===== src/Way/Laws.antt =====
-- What a serialized way looks like, and that reading it back and serializing it again is stable.
use jumpway.Prelude.{
  ℕ, true, false, List, [], ◌∷◌, ◌++◌, map, Option, some, Text, trim, is_empty, filter, nat_beq,
  ◌≡◌, refl, ap, All, trim-IsTrimmed, arith, Bool-cases, inl, inr,
}
use jumpway.Wire.{WayNode, bare, many, lb, WayHop}
use jumpway.Way.{split, normalize_way, nonempty, serialize_way}

-- A URL that is stored: trimmed, and not blank.
abbrev pub IsUsable : Text → Type 0
IsUsable s = (trim s ≡ s) × (nonempty s ≡ true)

-- A hop that is stored has a URL, and only usable ones.
abbrev pub IsStored : WayHop → Type 0
IsStored h = (is_empty h.lb ≡ false) × All IsUsable h.lb

pub filter-IsUsable : (urls : List Text) → All IsUsable (filter nonempty (map trim urls))
filter-IsUsable [] = tt
filter-IsUsable (u ∷ urls) = elim (Bool-cases (nonempty (trim u))) [
  | inl e ↦ rw e ((trim-IsTrimmed u, e), filter-IsUsable urls)
  | inr e ↦ rw e (filter-IsUsable urls)
]

pub serialize_way-IsStored : (hops : List WayHop) → All IsStored (serialize_way hops)
unfolding serialize_way
serialize_way-IsStored [] = tt
serialize_way-IsStored (h ∷ hops) =
    let urls = filter nonempty (map trim h.lb) in
    elim (Bool-cases (is_empty urls)) [
      | inl e ↦ rw e (serialize_way-IsStored hops)
      | inr e ↦ rw e ((e, filter-IsUsable h.lb), serialize_way-IsStored hops)
    ]

pub usable-id : (urls : List Text) → All IsUsable urls → filter nonempty (map trim urls) ≡ urls
usable-id [] h = refl
usable-id (u ∷ urls) ((t, n), h) = rw (t, n, usable-id urls h)

pub serialize_way_of_IsStored : (hops : List WayHop) → All IsStored hops → serialize_way hops ≡ hops
unfolding serialize_way
serialize_way_of_IsStored [] h = refl
serialize_way_of_IsStored (h ∷ hops) ((ne, us), hs) =
    rw (usable-id h.lb us, ne, serialize_way_of_IsStored hops hs)

-- How a way that was serialized comes back: each hop as `{lb}`.
abbrev pub stored : List WayHop → Option (List WayNode)
stored hops = some (map (λ h. lb (some h.lb)) hops)

pub normalize_way-stored : (hops : List WayHop) → normalize_way (stored hops) ≡ hops
unfolding normalize_way
normalize_way-stored [] = refl
normalize_way-stored (h ∷ hops) = ap (h ∷◌) (normalize_way-stored hops)

-- Reading back a way that was serialized and serializing it again gives the same way.
serialize_way-stable :
    (hops : List WayHop)
    → serialize_way (normalize_way (stored (serialize_way hops))) ≡ serialize_way hops
serialize_way-stable hops =
    rw normalize_way-stored (serialize_way_of_IsStored _ (serialize_way-IsStored hops))

-- `urls.join(sep)`
abbrev pub join : ℕ → List Text → Text
join sep [] = []
join sep (u ∷ []) = u
join sep (u ∷ v ∷ urls) = u ++ (sep ∷ join sep (v ∷ urls))

abbrev IsFree : ℕ → Text → Type 0
IsFree sep = All (λ c. nat_beq c sep ≡ false)

split-append : (sep : ℕ) (u s : Text) → IsFree sep u → split sep (u ++ (sep ∷ s)) ≡ u ∷ split sep s
unfolding split
split-append sep [] s h = ground arith
split-append sep (c ∷ u) s (n, h) = rw (n, split-append sep u s h)

split_of_IsFree : (sep : ℕ) (u : Text) → IsFree sep u → split sep u ≡ u ∷ []
unfolding split
split_of_IsFree sep [] h = refl
split_of_IsFree sep (c ∷ u) (n, h) = rw (n, split_of_IsFree sep u h)

pub split-join :
    (sep : ℕ) (u : Text) (urls : List Text)
    → All (IsFree sep) (u ∷ urls)
    → split sep (join sep (u ∷ urls)) ≡ u ∷ urls
split-join sep u [] (h, _) = split_of_IsFree sep u h
split-join sep u (v ∷ urls) (h, hs) =
    rw (split-append sep u (join sep (v ∷ urls)) h, split-join sep v urls hs)

-- A hop written as one text with `|` between its URLs reads as the array of them.
normalize_way-join :
    (u : Text) (urls : List Text)
    → All (IsFree b'|') (u ∷ urls)
    → normalize_way (some (bare (join b'|' (u ∷ urls)) ∷ []))
      ≡ normalize_way (some (many (u ∷ urls) ∷ []))
unfolding normalize_way
normalize_way-join u urls h = rw (split-join b'|' u urls h)
