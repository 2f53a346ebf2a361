-- ===== src/I18n/Agree.antt =====
-- The messages of the two languages go by the same keys and ask for the same values.
use jumpway.Prelude.{
  ℕ, zero, suc, Bool, true, false, ◌&&◌, List, [], ◌∷◌, ◌++◌, Option, none, some, is_some, get_or,
  Text, text_eq, any, any-In, length, lookup, text_beq, ◌==◌, ==_iff, ◌≡◌, refl, ap, inl, inr,
  arith, In, Bool-cases,
}
use jumpway.I18n.English.{en}
use jumpway.I18n.Chinese.{zh}
use jumpway.I18n.{Language, english, chinese, messages, match_name, placeholder, fill, value_of, t}

-- The names of the values that a text asks for, each as often as it is there.
names_from : ℕ → Text → List Text
unfolding match_name
names_from skip [] = []
names_from (suc skip) (c ∷ s) = names_from skip s
names_from zero (c ∷ s) = elim (placeholder c s) [
  | none ↦ names_from zero s
  | some name ↦ name ∷ names_from (suc (length name)) s
]

unfoldable pub names : Text → List Text
unfolding names_from
names s = names_from zero s

module _ (f g : Text → Text) where
  -- One step of a replacement, by whether a name stands here.
  fill_piece :
      (o : Option Text) (c : ℕ) (s : Text)
      → (((name : Text) → In name (names_from zero s) → f name ≡ g name)
          → fill f zero s ≡ fill g zero s)
      → ((w : Text)
          → ((name : Text) → In name (names_from (suc (length w)) s) → f name ≡ g name)
          → fill f (suc (length w)) s ≡ fill g (suc (length w)) s)
      → ((name : Text)
          → In name
              (elim o [ none ↦ names_from zero s | some w ↦ w ∷ names_from (suc (length w)) s ])
          → f name ≡ g name)
      → elim o [ none ↦ c ∷ fill f zero s | some w ↦ f w ++ fill f (suc (length w)) s ]
        ≡ elim o [ none ↦ c ∷ fill g zero s | some w ↦ g w ++ fill g (suc (length w)) s ]
  fill_piece none c s plain skipped h = ap (c ∷◌) (plain h)
  fill_piece (some w) c s plain skipped h =
      rw (h w (inl refl)) (ap (g w ++◌) (skipped w (λ name m. h name (inr m))))

  -- A text is filled by what its names are given, and by nothing else.
  fill-names_from :
      (skip : ℕ) (s : Text)
      → ((name : Text) → In name (names_from skip s) → f name ≡ g name)
      → fill f skip s ≡ fill g skip s
  unfolding names_from fill
  fill-names_from skip [] h = refl
  fill-names_from (suc skip) (c ∷ s) h = fill-names_from skip s h
  fill-names_from zero (c ∷ s) h =
      fill_piece (placeholder c s) c s (fill-names_from zero s)
        (λ w. fill-names_from (suc (length w)) s) h

abbrev includes_all : List Text → List Text → Bool
includes_all [] ys = true
includes_all (x ∷ xs) ys = any (λ y. y == x) ys && includes_all xs ys

abbrev agree : List (Text × Text) → List (Text × Text) → Bool
agree [] [] = true
agree (x ∷ xs) (y ∷ ys) =
    (x.0 == y.0)
    && includes_all (names y.1) (names x.1)
    && includes_all (names x.1) (names y.1)
    && agree xs ys
agree _ _ = false

en-agree-zh : agree en zh ≡ true
unfolding names en zh text_beq
en-agree-zh = refl

en-agree-en : agree en en ≡ true
unfolding names en text_beq
en-agree-en = refl

includes_all-In : (xs ys : List Text) (x : Text) → includes_all xs ys ≡ true → In x xs → In x ys
includes_all-In [] ys x e m = absurd m
includes_all-In (a ∷ xs) ys x e m = elim (Bool-cases (any (λ y. y == a) ys)) [
  | inr out ↦ absurd (ground (arith, e, out))
  | inl found ↦ elim m [
    | inl q ↦ (any-In x ys).0 (rw⁻¹ q found)
    | inr rest ↦ includes_all-In xs ys x (ground (arith, e, found)) rest
  ]
]

abbrev pub message : Text → List (Text × Text) → Text
message key xs = get_or (lookup key xs) []

-- The key has a message in both tables or in none, and the second asks for nothing that the first does not.
abbrev IsShared : Text → List (Text × Text) → List (Text × Text) → Type 0
IsShared key xs ys =
    (is_some (lookup key ys) ≡ is_some (lookup key xs))
    × ((name : Text) → In name (names (message key ys)) → In name (names (message key xs)))

agree-IsShared : (key : Text) (xs ys : List (Text × Text)) → agree xs ys ≡ true → IsShared key xs ys
unfolding lookup
agree-IsShared key [] [] e = (refl, λ name m. m)
agree-IsShared key [] (y ∷ ys) e = absurd (cc e)
agree-IsShared key (x ∷ xs) [] e = absurd (cc e)
agree-IsShared key (x ∷ xs) (y ∷ ys) e =
    let same : x.0 ≡ y.0 = ground (arith, e, ==_iff x.0 y.0) in
    let covered : includes_all (names y.1) (names x.1) ≡ true = ground (arith, e) in
    let rest : agree xs ys ≡ true = ground (arith, e) in
    elim (Bool-cases (y.0 == key)) [
      | inl q ↦
          rw (same, q) (refl, λ name m. includes_all-In (names y.1) (names x.1) name covered m)
      | inr q ↦ rw (same, q) (agree-IsShared key xs ys rest)
    ]

messages-IsShared : (language : Language) (key : Text) → IsShared key en (messages language)
messages-IsShared english key = agree-IsShared key en en en-agree-en
messages-IsShared chinese key = agree-IsShared key en zh en-agree-zh

-- Every language has a message for exactly the keys of the English table, and what `t` answers for a key
-- depends on no values but those that the English message asks for.
pub t-names :
    (language : Language) (key : Text) (values other : Text → Option Text)
    → ((name : Text) → In name (names (message key en)) → values name ≡ other name)
    → (is_some (lookup key (messages language)) ≡ is_some (lookup key en))
      × (t language key values ≡ t language key other)
unfolding t names
t-names language key values other h =
    let (same, asked) = messages-IsShared language key in
    (
      same,
      fill-names_from (value_of values) (value_of other) zero
          (get_or (lookup key (messages language)) [])
          (λ name m. ap (λ o. get_or o []) (h name (asked name m))),
    )
