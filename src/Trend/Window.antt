-- ===== src/Trend/Window.antt =====
-- A series is the window of the last samples.
use jumpway.Prelude.{
  ℕ, zero, suc, ◌+◌, ◌-◌, ◌≤◌, ◌<◌, List, [], ◌∷◌, ◌++◌, Option, none, some, length, length-append,
  length-drop, drop, list, ltb, ◌≡◌, refl, sym, ap, ◌∙◌, arith, Bool-cases, inl, inr, append_assoc,
  append-nil,
}
use jumpway.Trend.{trend_samples, append}

-- The last `n` elements.
abbrev pub last : {A : Type 0} → ℕ → List A → List A
last n xs = drop (length xs - n) xs

drop-append :
    {A : Type 0} (n : ℕ) (xs ys : List A) → n ≤ length xs → drop n (xs ++ ys) ≡ drop n xs ++ ys
drop-append zero xs ys h = refl
drop-append (suc n) [] ys h = absurd (omega arith)
drop-append (suc n) (x ∷ xs) ys h = drop-append n xs ys (omega arith)

drop-nil : {A : Type 0} (m : ℕ) (xs : List A) → xs ≡ [] → drop m xs ≡ []
drop-nil zero xs e = e
drop-nil (suc m) xs e = rw e

drop-drop : {A : Type 0} (m n k : ℕ) (xs : List A) → n + m ≡ k → drop m (drop n xs) ≡ drop k xs
drop-drop m zero k xs e = let same : m ≡ k = omega arith in rw same
drop-drop m (suc n) zero xs e = absurd (omega arith)
drop-drop m (suc n) (suc k) [] e = drop-nil m [] refl
drop-drop m (suc n) (suc k) (x ∷ xs) e = drop-drop m n k xs (omega arith)

pub append-last :
    {A : Type 0} (s : List A) (x : A) → append (some s) x ≡ last trend_samples (s ++ x ∷ [])
unfolding append
append-last s x = elim (Bool-cases (ltb trend_samples (length (s ++ x ∷ [])))) [
  | inl full ↦ rw full
  | inr room ↦
      let none_over : length (s ++ x ∷ []) - trend_samples ≡ 0 = ground arith in
      rw (room, none_over)
]

last-step :
    {A : Type 0} (n : ℕ) (xs : List A) (x : A)
    → 0 < n
    → last n (last n xs ++ x ∷ []) ≡ last n (xs ++ x ∷ [])
last-step n xs x h =
    let len = length-append xs (x ∷ []) in
    let len' = length-append (last n xs) (x ∷ []) in
    let cut = length-drop (length xs - n) xs in
    rw (← drop-append (length xs - n) xs (x ∷ []) (omega arith)) (
      drop-drop _ (length xs - n) _ (xs ++ x ∷ [])
        (omega (arith, length-drop (length xs - n) (xs ++ x ∷ []))))

-- Samples that are recorded one after the other.
pub appends : {A : Type 0} → List A → List A → List A
appends s [] = s
appends s (x ∷ xs) = appends (append (some s) x) xs

-- However many samples are appended one after the other to a series that is a window, the series is
-- the window of the last sixty of all of them.
appends-last :
    {A : Type 0} (history xs : List A)
    → appends (last trend_samples history) xs ≡ last trend_samples (history ++ xs)
unfolding appends
appends-last history [] = ap (last trend_samples) (sym (append-nil history))
appends-last history (x ∷ xs) =
    ap (λ s. appends s xs)
      (append-last (last trend_samples history) x ∙ last-step trend_samples history x (omega arith))
    ∙ appends-last (history ++ x ∷ []) xs
    ∙ ap (last trend_samples) (append_assoc history (x ∷ []) xs)

pub length-last : {A : Type 0} (n : ℕ) (xs : List A) → length (last n xs) ≤ n
length-last n xs = omega (arith, length-drop (length xs - n) xs)

append-none : {A : Type 0} (x : A) → append none x ≡ append (some []) x
unfolding append
append-none x = refl

-- One record: the window of what was there and the new sample.
pub append-window :
    {A : Type 0} (o : Option (List A)) (x : A) → append o x ≡ last trend_samples (list o ++ x ∷ [])
append-window none x = append-none x ∙ append-last [] x
append-window (some s) x = append-last s x
