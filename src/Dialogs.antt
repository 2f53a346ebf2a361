-- ===== src/Dialogs.antt =====
-- app/web/ui/src/lib/components/ui/ConfirmDialog.svelte and components/rules/UrlBuilderDialog.svelte:
-- the two dialogs that answer a question with a promise. A promise is kept as the number of its
-- question, and its resolution as an entry of a log, the latest first.
pub mod Confirm
pub mod Answers
pub mod Builder
pub mod Usable
use jumpway.Prelude.{
  ℕ, suc, Bool, false, ◌+◌, ◌<◌, List, [], ◌∷◌, Option, none, some, nat_beq, ltb, if◌then◌else◌,
  ◌≡◌, inl, inr, refl, arith,
}

abbrev pub is_number : Option ℕ → ℕ → Bool
is_number none n = false
is_number (some m) n = nat_beq m n

-- The focus goes back to what had it, if anything had.
abbrev pub refocused : {E : Type 0} → Option E → Option E → Option E
refocused (some back) focus = some back
refocused none focus = focus

-- How often the promise of a question was resolved.
abbrev pub times : {V : Type 0} → ℕ → List (ℕ × V) → ℕ
times n [] = 0
times n (a ∷ rest) = (if nat_beq a.0 n then 1 else 0) + times n rest

-- How often it should have been, when so many were asked and one of them may be waiting.
abbrev pub due : ℕ → Option ℕ → ℕ → ℕ
due asked none n = if ltb n asked then 1 else 0
due asked (some p) n = if nat_beq p n then 0 else if ltb n asked then 1 else 0

abbrev pub IsAsked : ℕ → Option ℕ → Type 0
IsAsked asked none = Unit
IsAsked asked (some p) = p < asked

module _ {V : Type 0} where
  -- The question that waits was asked and is not answered; every other was answered exactly once.
  pub record IsLedger (asked : ℕ) (pending : Option ℕ) (answers : List (ℕ × V)) : Type 0 where
    pub is_asked : IsAsked asked pending
    pub counts : (n : ℕ) → times n answers ≡ due asked pending n

  abbrev pub resolve : Option ℕ → V → List (ℕ × V) → List (ℕ × V)
  resolve none value answers = answers
  resolve (some p) value answers = (p, value) ∷ answers

  pub ask-IsLedger :
      (asked : ℕ) (answers : List (ℕ × V))
      → IsLedger asked none answers
      → IsLedger (suc asked) (some asked) answers
  ask-IsLedger asked answers h = record {
    is_asked = omega arith;
    counts = λ n. ground (arith, h.counts n);
  }

  pub resolve-IsLedger :
      (asked : ℕ) (pending : Option ℕ) (value : V) (answers : List (ℕ × V))
      → IsLedger asked pending answers
      → IsLedger asked none (resolve pending value answers)
  resolve-IsLedger asked none value answers h = h
  resolve-IsLedger asked (some p) value answers h = record {
    is_asked = tt;
    counts = λ n. ground (arith, h.counts n, h.is_asked);
  }

  -- A question that is answered at once, whether another waits or not.
  pub refuse-IsLedger :
      (asked : ℕ) (pending : Option ℕ) (value : V) (answers : List (ℕ × V))
      → IsLedger asked pending answers
      → IsLedger (suc asked) pending ((asked, value) ∷ answers)
  refuse-IsLedger asked none value answers h = record {
    is_asked = tt;
    counts = λ n. ground (arith, h.counts n);
  }
  refuse-IsLedger asked (some p) value answers h = record {
    is_asked = ground (arith, h.is_asked);
    counts = λ n. ground (arith, h.counts n, h.is_asked);
  }
