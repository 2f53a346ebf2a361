-- ===== src/Sorting.antt =====
-- What the sorts of statsRows.ts, hosts.ts and connections.ts under app/web/ui/src/lib share: the comparison
-- of values and the direction. `localeCompare` with numeric collation, `Date.parse` and the numbers of the
-- counters are parameters.
use jumpway.Prelude.{
  ℕ, [], Bool, List, Option, none, some, get_or, Text, filter, sort_by, ties, IsOrder, IsSortedBy,
  sort_by-IsSortedBy, filter-sort_by, ◌≡◌,
}
use jumpway.Search.{SortDirection, ascending, descending}

-- `or_zero x` is `x || 0`; `exceeds x y` is that `x - y` is positive; `follows s t` that
-- `s.localeCompare(t, language, { numeric: true })` is, and `follows_default s t` without the options. `parse` gives the number of milliseconds from the first instant that a `Date`
-- can hold.
pub record Comparisons (N : Type 0) : Type 0 where
  pub zero : N
  pub add : N → N → N
  pub subtract : N → N → N
  pub times : N → N → N
  pub divide : N → N → N
  pub or_zero : N → N
  pub exceeds : N → N → Bool
  pub follows : Text → Text → Bool
  pub follows_default : Text → Text → Bool
  pub parse : Text → Option ℕ

-- The differences of numbers have the sign of an order, and a collation is one.
pub record IsComparison {N : Type 0} (c : Comparisons N) : Type 0 where
  pub numbers : IsOrder c.exceeds
  pub texts : IsOrder c.follows
  pub default : IsOrder c.follows_default

-- The instant 0 of `Date`.
abbrev pub epoch : ℕ
epoch = 8_640_000_000_000_000

-- `compare(left, right) * direction`
abbrev pub directed : {A : Type 0} → SortDirection → (A → A → Bool) → A → A → Bool
directed ascending behind x y = behind x y
directed descending behind x y = behind y x

module _ {N : Type 0} (c : Comparisons N) where
  -- `Date.parse(text(value)) || 0`
  abbrev pub instant_of : Option Text → ℕ
  instant_of value = get_or (c.parse (get_or value [])) epoch

  -- `Number(value) || 0`
  abbrev pub number_of : Option N → N
  number_of none = c.zero
  number_of (some n) = c.or_zero n

module _ {A : Type 0} where
  pub directed-IsOrder :
      (direction : SortDirection) (behind : A → A → Bool)
      → IsOrder behind
      → IsOrder (directed direction behind)
  directed-IsOrder ascending behind o = record {
    asymmetric = o.asymmetric;
    connected = o.connected;
  }
  directed-IsOrder descending behind o = record {
    asymmetric = λ x y. o.asymmetric y x;
    connected = λ x y z h k. o.connected z y x k h;
  }

  -- A list in the order of a comparison, where values that are not told apart stay as they were.
  pub record IsStable (behind : A → A → Bool) (given sorted : List A) : Type 0 where
    pub ordered : IsSortedBy behind sorted
    pub same : (a : A) → filter (ties behind a) sorted ≡ filter (ties behind a) given

  pub sort_by-IsStable :
      (behind : A → A → Bool) (xs : List A)
      → IsOrder behind
      → IsStable behind xs (sort_by behind xs)
  sort_by-IsStable behind xs o = record {
    ordered = sort_by-IsSortedBy behind o xs;
    same = λ a. filter-sort_by behind o a xs;
  }
