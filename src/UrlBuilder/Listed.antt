-- ===== src/UrlBuilder/Listed.antt =====
-- The layouts that the URL builder finds for a text are those of its list.
use jumpway.Prelude.{
  Bool, List, [], ◌∷◌, Option, none, some, is_some, Text, text_eq, find?, ◌==◌, ◌≡◌, inl, inr,
  arith, In, Bool-cases, Option-cases, is_empty,
}
use jumpway.UrlBuilder.{
  BuilderValues, ProxyLayout, layouts, Parser, layout_for, alias, parse_url, parse_network,
  opaque_layout, cut_colon, without_last, command_field_of,
}

pub find?-In : {A : Type 0} (p : A → Bool) (xs : List A) (a : A) → find? p xs ≡ some a → In a xs
find?-In p [] a e = cc
find?-In p (x ∷ xs) a e = elim (Bool-cases (p x)) [
  | inl e' ↦ inl (cc (e, e'))
  | inr e' ↦ inr (find?-In p xs a (ground (arith, e, e')))
]

abbrev pub IsListed : Option (ProxyLayout × BuilderValues) → Type 0
IsListed none = Unit
IsListed (some found) = In found.0 layouts

module _ (lower : Text → Text) (parser : Parser) (dec : Text → Option Text) where
  layout_for-IsListed :
      (name : Text) (layout : ProxyLayout) → layout_for lower name ≡ some layout → In layout layouts
  unfolding layout_for
  layout_for-IsListed name layout e =
      find?-In (λ (l : ProxyLayout). l.name == alias (lower name)) layouts layout e

  opaque_layout-IsListed :
      (cut : Option (Text × Text)) → IsListed (opaque_layout lower parser dec cut)
  opaque_layout-IsListed none = tt
  opaque_layout-IsListed (some cut) = elim (Bool-cases (is_empty cut.0)) [
    | inl e ↦ rw e tt
    | inr e ↦ elim (Option-cases (layout_for lower cut.0)) [
      | inl q ↦ rw (e, q) tt
      | inr (layout, q) ↦ elim (Bool-cases (is_some (command_field_of layout))) [
        | inl c ↦ rw (e, q, c) (layout_for-IsListed cut.0 layout q)
        | inr c ↦ rw (e, q, c) tt
      ]
    ]
  ]

  parse_network-IsListed : (value : Text) → IsListed (parse_network lower parser dec value)
  parse_network-IsListed value = elim (Option-cases (parser.parse value)) [
    | inl e ↦ rw (IsListed, e) tt
    | inr (u, e) ↦ elim (Option-cases (layout_for lower (without_last (parser.protocol u)))) [
      | inl q ↦ rw (IsListed, e, q) tt
      | inr (layout, q) ↦ rw (IsListed, e, q) (layout_for-IsListed _ layout q)
    ]
  ]

  first-IsListed :
      (o n : Option (ProxyLayout × BuilderValues))
      → IsListed o
      → IsListed n
      → IsListed (elim o [ none ↦ n | some found ↦ some found ])
  first-IsListed none n h k = k
  first-IsListed (some found) n h k = h

  pub parse_url-IsListed : (value : Text) → IsListed (parse_url lower parser dec value)
  unfolding parse_url
  parse_url-IsListed value =
      first-IsListed (opaque_layout lower parser dec (cut_colon value))
        (parse_network lower parser dec value) (opaque_layout-IsListed (cut_colon value))
        (parse_network-IsListed value)
