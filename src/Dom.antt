-- ===== src/Dom.antt =====
-- app/web/ui/src/lib/dom.ts: the id of an element, from any key.
pub mod Injective
use jumpway.Prelude.{
  ℕ, zero, suc, ◌+◌, ◌-◌, ◌*◌, ◌/◌, ◌%◌, Bool, ◌&&◌, ◌||◌, List, [], ◌∷◌, ◌++◌, map, Text, leb,
  nat_beq, if◌then◌else◌,
}
use jumpway.Search.{characters}

-- `/[A-Za-z0-9-]/`
abbrev pub is_plain : ℕ → Bool
is_plain c =
    (leb b'A' c && leb c b'Z')
    || (leb b'a' c && leb c b'z')
    || (leb b'0' c && leb c b'9')
    || nat_beq c b'-'

-- `char.codePointAt(0)`
abbrev pub code_point : Text → ℕ
code_point [] = 0
code_point (c ∷ []) = c
code_point (c ∷ d ∷ s) = 0x10000 + ((c - 0xd800) * 0x400 + (d - 0xdc00))

abbrev pub hex_digit : ℕ → ℕ
hex_digit d = if leb d 9 then d + 48 else d + 87

-- The first argument bounds the number of digits.
hex_digits : ℕ → ℕ → Text
hex_digits zero n = []
hex_digits (suc f) n =
    let rest = hex_digits f (n / 16) in
    if leb n 15 then hex_digit n ∷ [] else rest ++ hex_digit (n % 16) ∷ []

-- `n.toString(16)`; a number has at most as many digits as its value and one more.
unfoldable pub hex : ℕ → Text
unfolding hex_digits
hex n = hex_digits (suc n) n

abbrev pub escape_point : ℕ → Text
escape_point n = if is_plain n then n ∷ [] else b'_' ∷ (hex n ++ b'_' ∷ [])

-- `key.replace(/[^A-Za-z0-9-]/gu, ...)`, over the code points of the key.
unfoldable pub escape : List ℕ → Text
unfolding hex
escape [] = []
escape (n ∷ ns) = escape_point n ++ escape ns

unfoldable pub code_points : Text → List ℕ
code_points key = map code_point (characters key)

unfoldable pub element_id : Text → Text → Text
unfolding escape code_points
element_id prefix key = prefix ++ (b'-' ∷ escape (code_points key))
