-- ===== src/Prelude/Maps.antt =====
-- `Map` of JavaScript as an association list in the order of insertion.
use mathlib.Core.Path.{◌≡◌, refl}
use mathlib.Core.List.{List, [], ◌∷◌}
use mathlib.Core.Option.{Option, none, some}
use native.Mathlib.Omega.{arith}
use jumpway.Prelude.Tests.{if◌then◌else◌, Comparable, ◌==◌, ==_iff}

module _ {K V : Type 0} ⦃c : Comparable K⦄ where
  -- `m.get(k)`: the first entry of the key.
  unfoldable pub lookup : K → List (K × V) → Option V
  lookup key [] = none
  lookup key (entry ∷ entries) =
      let further = lookup key entries in if entry.0 == key then some entry.1 else further

  -- `m.set(k, v)`: a key that is there keeps its place, a new one goes last.
  unfoldable pub insert : K → V → List (K × V) → List (K × V)
  insert key new [] = (key, new) ∷ []
  insert key new (entry ∷ entries) =
      let further = entry ∷ insert key new entries in
      if entry.0 == key then (entry.0, new) ∷ entries else further

  -- What is found after a `set`: the new value for its key, and nothing else has changed.
  pub lookup-insert :
      (key other : K) (new : V) (entries : List (K × V))
      → lookup other (insert key new entries)
        ≡ (if key == other then some new else lookup other entries)
  unfolding lookup insert
  lookup-insert key other new [] = refl
  lookup-insert key other new (entry ∷ entries) = ground (
    arith,
    ==_iff key other,
    ==_iff entry.0 key,
    ==_iff entry.0 other,
    lookup-insert key other new entries,
  )
