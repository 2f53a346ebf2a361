-- ===== src/Dom/Injective.antt =====
-- The id of an element tells its key.
use jumpway.Prelude.{
  ℕ, zero, suc, ◌+◌, ◌-◌, ◌*◌, ◌/◌, ◌%◌, ◌≤◌, ◌<◌, true, false, ◌&&◌, List, [], ◌∷◌, ◌++◌, Option,
  none, some, Text, leb, nat_beq, if◌then◌else◌, ◌≡◌, ◌∙◌, refl, sym, ap, inl, inr, arith, All,
  All-append, Bool-cases, append_assoc,
}
use jumpway.Search.{characters, is_high, is_low}
use jumpway.Dom.{is_plain, code_point, hex_digit, hex_digits, hex, escape, code_points, element_id}

abbrev hex_value : ℕ → ℕ
hex_value c = if leb c 57 then c - 48 else c - 87

abbrev read_hex : ℕ → Text → ℕ
read_hex acc [] = acc
read_hex acc (c ∷ s) = read_hex (acc * 16 + hex_value c) s

read_hex-concat :
    (acc : ℕ) (s : Text) (c : ℕ) → read_hex acc (s ++ c ∷ []) ≡ read_hex acc s * 16 + hex_value c
read_hex-concat acc [] c = refl
read_hex-concat acc (d ∷ s) c = read_hex-concat (acc * 16 + hex_value d) s c

hex_value-hex_digit : (d : ℕ) → d ≤ 15 → hex_value (hex_digit d) ≡ d
hex_value-hex_digit d h = ground arith

read-hex_digits : (f n : ℕ) → n < f → read_hex 0 (hex_digits f n) ≡ n
unfolding hex_digits
read-hex_digits zero n h = absurd (omega arith)
read-hex_digits (suc f) n h = elim (Bool-cases (leb n 15)) [
  | inl e ↦ rw e (ground arith)
  | inr e ↦ rw e (
      ground (
        arith,
        read_hex-concat 0 (hex_digits f (n / 16)) (hex_digit (n % 16)),
        hex_value-hex_digit (n % 16),
        read-hex_digits f (n / 16),
      ))
]

read_hex-hex : (n : ℕ) → read_hex 0 (hex n) ≡ n
unfolding hex
read_hex-hex n = read-hex_digits (suc n) n (omega arith)

-- No digit is an underscore.
abbrev IsInner : ℕ → Type 0
IsInner c = nat_beq c b'_' ≡ false

hex_digit-IsInner : (d : ℕ) → d ≤ 15 → IsInner (hex_digit d)
hex_digit-IsInner d h = ground arith

hex_digits-IsInner : (f n : ℕ) → All IsInner (hex_digits f n)
unfolding hex_digits
hex_digits-IsInner zero n = tt
hex_digits-IsInner (suc f) n = elim (Bool-cases (leb n 15)) [
  | inl e ↦ rw e (hex_digit-IsInner n (ground arith), tt)
  | inr e ↦ rw e (
      All-append IsInner (hex_digits f (n / 16)) _ (hex_digits-IsInner f (n / 16))
        (hex_digit-IsInner (n % 16) (omega arith), tt))
]

-- The code points behind an escaped text; a number within underscores is kept while it is read.
decode : Option ℕ → Text → List ℕ
decode none [] = []
decode none (c ∷ s) =
    let plain = c ∷ decode none s in
    let escaped = decode (some 0) s in if nat_beq c b'_' then escaped else plain
decode (some n) [] = []
decode (some n) (c ∷ s) =
    let closed = n ∷ decode none s in
    let further = decode (some (n * 16 + hex_value c)) s in
    if nat_beq c b'_' then closed else further

decode-digits :
    (acc : ℕ) (ds s : Text)
    → All IsInner ds
    → decode (some acc) (ds ++ b'_' ∷ s) ≡ read_hex acc ds ∷ decode none s
unfolding decode
decode-digits acc [] s h = refl
decode-digits acc (d ∷ ds) s (e, h) = rw e (decode-digits (acc * 16 + hex_value d) ds s h)

plain-IsInner : (n : ℕ) → is_plain n ≡ true → IsInner n
plain-IsInner n e = ground arith

decode-escape : (ns : List ℕ) → decode none (escape ns) ≡ ns
unfolding decode escape hex
decode-escape [] = refl
decode-escape (n ∷ ns) = elim (Bool-cases (is_plain n)) [
  | inl e ↦ rw (e, plain-IsInner n e) (ap (n ∷◌) (decode-escape ns))
  | inr e ↦
      rw (e, append_assoc (hex n) (b'_' ∷ []) (escape ns))
        (decode-digits 0 (hex n) (escape ns) (hex_digits-IsInner (suc n) n)
          ∙ ap (◌∷ decode none (escape ns)) (read_hex-hex n)
          ∙ ap (n ∷◌) (decode-escape ns))
]

-- What code points stand for, in units of 16 bits.
abbrev units : ℕ → Text
units n =
    if leb 0x10000 n
    then (0xd800 + (n - 0x10000) / 0x400) ∷ (0xdc00 + (n - 0x10000) % 0x400) ∷ []
    else n ∷ []

from_points : List ℕ → Text
from_points [] = []
from_points (n ∷ ns) = units n ++ from_points ns

abbrev pub IsUnits : Text → Type 0
IsUnits = All (λ c. c < 0x10000)

units-pair : (c d : ℕ) → is_high c && is_low d ≡ true → units (code_point (c ∷ d ∷ [])) ≡ c ∷ d ∷ []
units-pair c d h = ground arith

units-one : (c : ℕ) → c < 0x10000 → units c ≡ c ∷ []
units-one c h = ground arith

from_points-code_points : (key : Text) → IsUnits key → from_points (code_points key) ≡ key
unfolding from_points code_points characters
from_points-code_points [] h = refl
from_points-code_points (c ∷ []) (l, h) = rw (units-one c l) refl
from_points-code_points (c ∷ d ∷ s) (l, (k, h)) = elim (Bool-cases (is_high c && is_low d)) [
  | inl e ↦ rw (e, units-pair c d e) (ap (λ r. c ∷ d ∷ r) (from_points-code_points s h))
  | inr e ↦ rw (e, units-one c l) (ap (c ∷◌) (from_points-code_points (d ∷ s) (k, h)))
]

suffix_of : (prefix s t : Text) → prefix ++ s ≡ prefix ++ t → s ≡ t
suffix_of [] s t e = e
suffix_of (c ∷ prefix) s t e = suffix_of prefix s t (cc e)

-- Under one prefix, two keys of UTF-16 code units have the same id only if they are the same key.
pub element_id-injective :
    (prefix key other : Text)
    → IsUnits key
    → IsUnits other
    → element_id prefix key ≡ element_id prefix other
    → key ≡ other
unfolding element_id
element_id-injective prefix key other h k e =
    let escaped : escape (code_points key) ≡ escape (code_points other) =
      cc (suffix_of prefix _ _ e) in
    let points : code_points key ≡ code_points other =
      sym (decode-escape (code_points key))
      ∙ ap (decode none) escaped
      ∙ decode-escape (code_points other) in
    sym (from_points-code_points key h) ∙ ap from_points points ∙ from_points-code_points other k
