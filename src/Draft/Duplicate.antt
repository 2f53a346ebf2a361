-- ===== src/Draft/Duplicate.antt =====
-- app/web/ui/src/lib/ruleEditor.ts, `duplicateName`. Its loop has no bound in the source: it takes
-- fuel here, one round more than there are taken names, and never uses it up.
use jumpway.Prelude.{
  ℕ, zero, suc, ◌≤◌, ◌<◌, Bool, true, false, not, ◌&&◌, List, [], ◌∷◌, ◌++◌, Text, codes, any,
  decimal, decimal-ne-nil, decimal-IsDigit, IsDigit, All, append_assoc, decimal-injective,
  if◌then◌else◌, ◌==◌, ==_iff, text_eq, text_beq, leb, nat_beq, filter, ◌≡◌, ◌≢◌, ◌↔◌, inl, inr,
  refl, length, arith, Bool-cases, In, NotIn, Option, none, some,
}

abbrev is_digit : ℕ → Bool
is_digit c = leb b'0' c && leb c b'9'

abbrev all_digits : Text → Bool
all_digits [] = true
all_digits (c ∷ s) = is_digit c && all_digits s

abbrev suffix : Text
suffix = codes "-copy"

-- What follows `prefix` in `s`, if `s` begins with it.
abbrev after : Text → Text → Option Text
after [] s = some s
after (c ∷ p) [] = none
after (c ∷ p) (d ∷ s) = if nat_beq c d then after p s else none

-- `(-\d+)?$`
abbrev is_count : Text → Bool
is_count [] = true
is_count (c ∷ []) = false
is_count (c ∷ d ∷ s) = nat_beq c b'-' && all_digits (d ∷ s)

-- `-copy(-\d+)?$` at this place
abbrev ends_copy : Text → Bool
ends_copy s = elim (after suffix s) [ none ↦ false | some rest ↦ is_count rest ]

-- `s.replace(/-copy(-\d+)?$/, '')`
unfoldable pub strip_copy : Text → Text
strip_copy [] = []
strip_copy (c ∷ s) = if ends_copy (c ∷ s) then [] else c ∷ strip_copy s

abbrev has : List Text → Text → Bool
has names s = any (λ x. x == s) names

abbrev numbered : Text → ℕ → Text
numbered base n = base ++ (b'-' ∷ decimal n)

-- The loop; `none` means that the fuel ran out.
next_free : ℕ → List Text → Text → ℕ → Option Text
next_free zero names base n = none
next_free (suc fuel) names base n =
    let rest = next_free fuel names base (suc n) in
    if not (has names (numbered base n)) then some (numbered base n) else rest

unfoldable pub duplicate_name : Text → List Text → Option Text
unfolding next_free strip_copy decimal text_beq
duplicate_name name taken =
    let base = strip_copy name ++ suffix in
    let loop = next_free (suc (length taken)) taken base 2 in
    if not (has taken base) then some base else loop

test_first : duplicate_name (codes "web") [] ≡ some (codes "web-copy")
unfolding duplicate_name
test_first = refl

test_second :
    duplicate_name (codes "web-copy") (codes "web" ∷ codes "web-copy" ∷ [])
    ≡ some (codes "web-copy-2")
unfolding duplicate_name
test_second = refl

-- No digits run over the suffix.
all_digits-suffix : (x t : Text) → all_digits (x ++ (suffix ++ t)) ≡ false
all_digits-suffix [] t = refl
all_digits-suffix (c ∷ x) t = ground (arith, all_digits-suffix x t)

is_count-suffix : (x t : Text) → is_count (x ++ (suffix ++ t)) ≡ false
is_count-suffix [] t = refl
is_count-suffix (c ∷ []) t = ground arith
is_count-suffix (c ∷ d ∷ x) t = ground (arith, all_digits-suffix x t)

-- A suffix that starts earlier would overlap the last one.
ends_copy-suffix : (c : ℕ) (u t : Text) → ends_copy (c ∷ (u ++ (suffix ++ t))) ≡ false
ends_copy-suffix c [] t = ground arith
ends_copy-suffix c (c1 ∷ []) t = ground arith
ends_copy-suffix c (c1 ∷ c2 ∷ []) t = ground arith
ends_copy-suffix c (c1 ∷ c2 ∷ c3 ∷ []) t = ground arith
ends_copy-suffix c (c1 ∷ c2 ∷ c3 ∷ c4 ∷ u) t = ground (arith, is_count-suffix u t)

strip_copy-suffix : (s t : Text) → is_count t ≡ true → strip_copy (s ++ (suffix ++ t)) ≡ s
unfolding strip_copy
strip_copy-suffix [] t h = ground arith
strip_copy-suffix (c ∷ s) t h = rw (ends_copy-suffix c s t, strip_copy-suffix s t h)

append-injective : (s t u : Text) → s ++ t ≡ s ++ u → t ≡ u
append-injective [] t u e = e
append-injective (c ∷ s) t u e = append-injective s t u (ground arith)

numbered-injective : (base : Text) (m n : ℕ) → numbered base m ≡ numbered base n → m ≡ n
numbered-injective base m n e =
    decimal-injective m n
      (ground (arith, append-injective base (b'-' ∷ decimal m) (b'-' ∷ decimal n)))

has_iff : (names : List Text) (s : Text) → (has names s ≡ true) ↔ In s names
has_iff [] s = (λ e. cc, λ m. absurd m)
has_iff (x ∷ names) s = ground (arith, has_iff names s, ==_iff x s)

abbrev without : Text → List Text → List Text
without s = filter (λ x. not (x == s))

length-without-le : (s : Text) (names : List Text) → length (without s names) ≤ length names
length-without-le s [] = omega arith
length-without-le s (x ∷ names) = ground (arith, length-without-le s names)

length-without-lt :
    (s : Text) (names : List Text) → has names s ≡ true → length (without s names) < length names
length-without-lt s [] h = cc
length-without-lt s (x ∷ names) h = elim (Bool-cases (x == s)) [
  | inl e ↦ rw e (omega (arith, length-without-le s names))
  | inr e ↦ rw e (omega (arith, length-without-lt s names (rw e at h)))
]

has-without : (s t : Text) (names : List Text) → s ≢ t → has (without s names) t ≡ has names t
has-without s t [] ne = refl
has-without s t (x ∷ names) ne = ground (arith, has-without s t names ne, ==_iff x s, ==_iff x t)

-- The loop reads of the names only which candidates from `n` on are among them.
next_free-congr :
    (fuel : ℕ) (names names' : List Text) (base : Text) (n : ℕ)
    → ((m : ℕ) → n ≤ m → has names (numbered base m) ≡ has names' (numbered base m))
    → next_free fuel names base n ≡ next_free fuel names' base n
unfolding next_free
next_free-congr zero names names' base n h = refl
next_free-congr (suc fuel) names names' base n h =
    rw (
      h n (omega arith),
      next_free-congr fuel names names' base (suc n) (λ m le. h m (omega arith)),
    )

-- One round more than there are names is enough: a taken candidate is one name less.
next_free-Finds :
    (fuel : ℕ) (names : List Text) (base : Text) (n : ℕ)
    → length names < fuel
    → (m : ℕ) × (next_free fuel names base n ≡ some (numbered base m))
      × (has names (numbered base m) ≡ false)
      × (n ≤ m)
unfolding next_free
next_free-Finds zero names base n h = absurd (omega arith)
next_free-Finds (suc fuel) names base n h = elim (Bool-cases (has names (numbered base n))) [
  | inr free ↦ rw free (n, refl, free, omega arith)
  | inl taken ↦
      let fewer = without (numbered base n) names in
      let (m, found, free, le) =
        next_free-Finds fuel fewer base (suc n)
          (omega (arith, length-without-lt (numbered base n) names taken)) in
      let same : (k : ℕ) → suc n ≤ k → has fewer (numbered base k) ≡ has names (numbered base k) =
        λ k lt.
          has-without (numbered base n) (numbered base k) names
            (λ e. absurd (omega (arith, numbered-injective base n k e))) in
      rw taken (
        m,
        rw (← next_free-congr fuel fewer names base (suc n) same) found,
        rw (same m le) at free,
        omega arith,
      )
]

all_digits_of_All : (s : Text) → All IsDigit s → all_digits s ≡ true
all_digits_of_All [] h = refl
all_digits_of_All (c ∷ s) (d, h) = ground (arith, all_digits_of_All s h)

is_count_of_digits : (s : Text) → s ≢ [] → all_digits s ≡ true → is_count (b'-' ∷ s) ≡ true
is_count_of_digits [] ne h = absurd (ne refl)
is_count_of_digits (c ∷ s) ne h = h

strip_copy-numbered : (s : Text) (n : ℕ) → strip_copy (numbered (s ++ suffix) n) ≡ s
strip_copy-numbered s n = rw append_assoc (
    strip_copy-suffix s (b'-' ∷ decimal n) (
      is_count_of_digits (decimal n) (decimal-ne-nil n)
        (all_digits_of_All (decimal n) (decimal-IsDigit n))))

strip_copy-plain : (s : Text) → strip_copy (s ++ suffix) ≡ s
strip_copy-plain s = strip_copy-suffix s [] refl

not_has : (names : List Text) (s : Text) → has names s ≡ false → NotIn s names
not_has names s h m = ground (arith, has_iff names s)

-- The suggested name of a copy is always found. It is not taken, and it counts from the original
-- name: dropping the suffix from it gives what dropping it from the name gives.
pub duplicate_name-free :
    (name : Text) (taken : List Text)
    → (copy : Text) × (duplicate_name name taken ≡ some copy)
      × NotIn copy taken
      × (strip_copy copy ≡ strip_copy name)
unfolding duplicate_name
duplicate_name-free name taken =
    let base = strip_copy name ++ suffix in
    elim (Bool-cases (has taken base)) [
      | inr free ↦ rw free (base, refl, not_has taken base free, strip_copy-plain (strip_copy name))
      | inl used ↦
          let (m, found, free, le) =
            next_free-Finds (suc (length taken)) taken base 2 (omega arith) in
          rw used (
            numbered base m,
            found,
            not_has taken (numbered base m) free,
            strip_copy-numbered (strip_copy name) m,
          )
    ]
