-- ===== src/Prelude/Decimals.antt =====
-- `String(n)` of a natural number, and what reading it back gives.
use Prim.Native.Nat.{ℕ, zero, suc, ◌+◌, ◌-◌, ◌*◌, ◌/◌, ◌%◌, ◌≤◌, ◌<◌}
use mathlib.Core.Path.{◌≡◌, refl, sym, ap, ◌∙◌}
use mathlib.Core.Logic.{inl, inr, ◌≢◌}
use mathlib.Core.List.{[], ◌∷◌, ◌++◌}
use native.Mathlib.Omega.{arith}
use jumpway.Prelude.Tests.{leb, if◌then◌else◌, Bool-cases}
use jumpway.Prelude.Lists.{All, All-append}
use jumpway.Prelude.Texts.{Text, codes}

-- The first argument bounds the number of digits.
print_digits : ℕ → ℕ → Text
print_digits zero n = []
print_digits (suc f) n =
    let rest = print_digits f (n / 10) in
    if leb n 9 then (n + 48) ∷ [] else rest ++ (n % 10 + 48) ∷ []

-- A number has at most as many digits as its value and one more.
unfoldable pub decimal : ℕ → Text
unfolding print_digits
decimal n = print_digits (suc n) n

abbrev read_from : ℕ → Text → ℕ
read_from acc [] = acc
read_from acc (c ∷ s) = read_from (acc * 10 + (c - 48)) s

abbrev pub read_decimal : Text → ℕ
read_decimal = read_from 0

read_from-concat :
    (acc : ℕ) (s : Text) (c : ℕ) → read_from acc (s ++ c ∷ []) ≡ read_from acc s * 10 + (c - 48)
read_from-concat acc [] c = refl
read_from-concat acc (d ∷ s) c = read_from-concat (acc * 10 + (d - 48)) s c

read-print_digits : (f n : ℕ) → n < f → read_decimal (print_digits f n) ≡ n
unfolding print_digits
read-print_digits zero n h = absurd (omega arith)
read-print_digits (suc f) n h = elim (Bool-cases (leb n 9)) [
  | inl e ↦ rw e (ground arith)
  | inr e ↦ rw e (
      ground (
        arith,
        read_from-concat 0 (print_digits f (n / 10)) (n % 10 + 48),
        read-print_digits f (n / 10),
      ))
]

-- Printing loses nothing.
pub read_decimal-decimal : (n : ℕ) → read_decimal (decimal n) ≡ n
unfolding decimal
read_decimal-decimal n = read-print_digits (suc n) n (omega arith)

pub decimal-injective : (m n : ℕ) → decimal m ≡ decimal n → m ≡ n
decimal-injective m n e = sym (read_decimal-decimal m) ∙ ap read_decimal e ∙ read_decimal-decimal n

abbrev pub IsDigit : ℕ → Type 0
IsDigit c = (48 ≤ c) × (c ≤ 57)

print_digits-IsDigit : (f n : ℕ) → All IsDigit (print_digits f n)
unfolding print_digits
print_digits-IsDigit zero n = tt
print_digits-IsDigit (suc f) n = elim (Bool-cases (leb n 9)) [
  | inl e ↦ rw e (ground arith)
  | inr e ↦ rw e (
      All-append IsDigit (print_digits f (n / 10)) _ (print_digits-IsDigit f (n / 10))
        ((omega arith, omega arith), tt))
]

pub decimal-IsDigit : (n : ℕ) → All IsDigit (decimal n)
unfolding decimal
decimal-IsDigit n = print_digits-IsDigit (suc n) n

append_one-ne-nil : (s : Text) (c : ℕ) → s ++ c ∷ [] ≢ []
append_one-ne-nil [] c = cc
append_one-ne-nil (x ∷ s) c = cc

pub decimal-ne-nil : (n : ℕ) → decimal n ≢ []
unfolding decimal print_digits
decimal-ne-nil n = elim (Bool-cases (leb n 9)) [
  | inl e ↦ rw e (λ q. cc)
  | inr e ↦ rw e (append_one-ne-nil _ _)
]

decimal_test : decimal 65535 ≡ codes "65535"
unfolding decimal
decimal_test = refl
