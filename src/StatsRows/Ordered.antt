-- ===== src/StatsRows/Ordered.antt =====
-- What `sortRows` of app/web/ui/src/lib/statsRows.ts promises.
use jumpway.Prelude.{
  ℕ, Bool, false, List, [], ◌∷◌, ◌++◌, append_assoc, append-nil, sort_by, Option, none, some, Text,
  IsOrder, above, get_or, ◌≡◌, ◌≢◌, refl, sym, ap, ◌∙◌, inl, inr, Option-cases,
}
use mathlib.Core.Path.{fun_ext, subst}
use jumpway.Search.{SortDirection, ascending, descending}
use jumpway.Stats.{Stats}
use jumpway.StatsRows.{StatsRow}
use jumpway.Traffic.{
  TrafficKey, rate_up, rate_down, peak_rate_up, peak_rate_down, up, down, last_up, last_down,
}
use jumpway.Sorting.{Comparisons, IsComparison, IsStable, directed, epoch}
use jumpway.StatsRows.Sorting.{
  RuleSortKey, configured, name, active, dial_failures, traffic, row_behind, sort_rows, reverse,
  reverse_onto, count_of, time_of, name-IsOrder, keyed, by_count-IsOrder, by_traffic-IsOrder,
}

-- The last first.
abbrev pub mirrored : {A : Type 0} → List A → List A
mirrored [] = []
mirrored (x ∷ xs) = mirrored xs ++ x ∷ []

-- What a row is sorted by.
pub data Reading (N : Type 0) : Type 0 where
  place : Reading N
  text : (StatsRow N → Text) → Reading N
  number : (Stats N → N) → Reading N
  instant : (Stats N → Option Text) → Reading N

abbrev pub reading_of : {N : Type 0} → RuleSortKey → Reading N
reading_of configured = place
reading_of name = text (λ r. r.name)
reading_of active = number (λ s. s.active)
reading_of dial_failures = number (λ s. s.dial_failures)
reading_of (traffic rate_up) = number (λ s. s.rate_up)
reading_of (traffic rate_down) = number (λ s. s.rate_down)
reading_of (traffic peak_rate_up) = number (λ s. s.peak_rate_up)
reading_of (traffic peak_rate_down) = number (λ s. s.peak_rate_down)
reading_of (traffic up) = number (λ s. s.up)
reading_of (traffic down) = number (λ s. s.down)
reading_of (traffic last_up) = instant (λ s. s.last_up)
reading_of (traffic last_down) = instant (λ s. s.last_down)

module _ {N : Type 0} (c : Comparisons N) where
  -- A counter of a row, zero without an entry.
  abbrev pub amount : (Stats N → N) → StatsRow N → N
  amount field row = elim row.entry [ none ↦ c.zero | some entry ↦ c.or_zero (field entry.stats) ]

  -- An instant of a row, that of 1970 where its text names none, or without an entry.
  abbrev pub moment : (Stats N → Option Text) → StatsRow N → ℕ
  moment field row =
      get_or (c.parse (elim row.entry [ none ↦ [] | some entry ↦ get_or (field entry.stats) [] ]))
        epoch

  -- The first row reads more than the second.
  abbrev pub reads_more : Reading N → StatsRow N → StatsRow N → Bool
  reads_more place x y = false
  reads_more (text read) x y = c.follows (read x) (read y)
  reads_more (number field) x y = c.exceeds (amount field x) (amount field y)
  reads_more (instant field) x y = above (moment field x) (moment field y)

  -- By what is read: a stable sort, in which ascending no row stands before one that reads less, and
  -- descending none before one that reads more; otherwise the rows as they are, or the last first.
  abbrev pub IsRowOrder : Reading N → SortDirection → List (StatsRow N) → List (StatsRow N) → Type 0
  IsRowOrder place ascending rows sorted = sorted ≡ rows
  IsRowOrder place descending rows sorted = sorted ≡ mirrored rows
  IsRowOrder reading ascending rows sorted = IsStable (λ x y. reads_more reading x y) rows sorted
  IsRowOrder reading descending rows sorted = IsStable (λ x y. reads_more reading y x) rows sorted

  count_of-amount : (field : Stats N → N) → count_of c field ≡ amount field
  count_of-amount field =
      fun_ext
        (λ row. elim (Option-cases row.entry) [ inl e ↦ rw e refl | inr (entry, e) ↦ rw e refl ])

  time_of-moment : (field : Stats N → Option Text) → time_of c field ≡ moment field
  time_of-moment field =
      fun_ext
        (λ row. elim (Option-cases row.entry) [ inl e ↦ rw e refl | inr (entry, e) ↦ rw e refl ])

  reverse_onto-mirrored :
      (acc rows : List (StatsRow N)) → reverse_onto acc rows ≡ mirrored rows ++ acc
  reverse_onto-mirrored acc [] = refl
  reverse_onto-mirrored acc (x ∷ xs) =
      reverse_onto-mirrored (x ∷ acc) xs ∙ sym (append_assoc (mirrored xs) (x ∷ []) acc)

  reverse-mirrored : (rows : List (StatsRow N)) → reverse rows ≡ mirrored rows
  unfolding reverse
  reverse-mirrored rows = reverse_onto-mirrored [] rows ∙ append-nil (mirrored rows)

  module _ (law : IsComparison c) where
    traffic-read : (key : TrafficKey) → reading_of {N = N} (traffic key) ≢ place
    traffic-read rate_up e = cc
    traffic-read rate_down e = cc
    traffic-read peak_rate_up e = cc
    traffic-read peak_rate_down e = cc
    traffic-read up e = cc
    traffic-read down e = cc
    traffic-read last_up e = cc
    traffic-read last_down e = cc

    by_number :
        (field : Stats N → N)
        → (λ (x y : StatsRow N). c.exceeds (count_of c field x) (count_of c field y))
          ≡ reads_more (number field)
    by_number field = ap (λ f. λ x y. c.exceeds (f x) (f y)) (count_of-amount field)

    by_instant :
        (field : Stats N → Option Text)
        → (λ (x y : StatsRow N). above (time_of c field x) (time_of c field y))
          ≡ reads_more (instant field)
    by_instant field = ap (λ f. λ x y. above (f x) (f y)) (time_of-moment field)

    by_reading : (key : RuleSortKey) → row_behind c key ≡ reads_more (reading_of key)
    by_reading configured = refl
    by_reading name = refl
    by_reading active = by_number (λ s. s.active)
    by_reading dial_failures = by_number (λ s. s.dial_failures)
    by_reading (traffic rate_up) = by_number (λ s. s.rate_up)
    by_reading (traffic rate_down) = by_number (λ s. s.rate_down)
    by_reading (traffic peak_rate_up) = by_number (λ s. s.peak_rate_up)
    by_reading (traffic peak_rate_down) = by_number (λ s. s.peak_rate_down)
    by_reading (traffic up) = by_number (λ s. s.up)
    by_reading (traffic down) = by_number (λ s. s.down)
    by_reading (traffic last_up) = by_instant (λ s. s.last_up)
    by_reading (traffic last_down) = by_instant (λ s. s.last_down)

    -- A stable sort by something that is read.
    directed-IsRowOrder :
        (reading : Reading N) (direction : SortDirection) (rows sorted : List (StatsRow N))
        → reading ≢ place
        → IsStable (directed direction (reads_more reading)) rows sorted
        → IsRowOrder reading direction rows sorted
    directed-IsRowOrder place direction rows sorted n h = absurd (n refl)
    directed-IsRowOrder (text read) ascending rows sorted n h = h
    directed-IsRowOrder (text read) descending rows sorted n h = h
    directed-IsRowOrder (number field) ascending rows sorted n h = h
    directed-IsRowOrder (number field) descending rows sorted n h = h
    directed-IsRowOrder (instant field) ascending rows sorted n h = h
    directed-IsRowOrder (instant field) descending rows sorted n h = h

    keyed-IsRowOrder :
        (key : RuleSortKey) (direction : SortDirection) (rows : List (StatsRow N))
        → reading_of {N = N} key ≢ place
        → IsOrder (row_behind c key)
        → IsRowOrder
            (reading_of key)
            direction
            rows
            (sort_by (directed direction (row_behind c key)) rows)
    keyed-IsRowOrder key direction rows n o =
        let sorted = sort_by (directed direction (row_behind c key)) rows in
        directed-IsRowOrder (reading_of key) direction rows sorted n (
          subst (λ behind. IsStable (directed direction behind) rows sorted) (by_reading key)
            (keyed c law direction key rows o))

    -- Where differences of numbers and the collation are orders: sorted ascending, no row stands before one
    -- whose name, counter or instant of the key is less, and sorted descending before one whose is more;
    -- those that the key does not tell apart are the ones that were given, in the given order, in
    -- either direction; in the configured order the rows are as given, or the last first.
    pub sort_rows-IsRowOrder :
        (rows : List (StatsRow N)) (key : RuleSortKey) (direction : SortDirection)
        → IsRowOrder
            (reading_of key)
            direction
            rows
            (sort_rows c rows (record { key = key; direction = direction }))
    unfolding sort_rows
    sort_rows-IsRowOrder rows configured ascending = refl
    sort_rows-IsRowOrder rows configured descending = reverse-mirrored rows
    sort_rows-IsRowOrder rows name direction =
        keyed-IsRowOrder name direction rows (λ e. cc) (name-IsOrder c law)
    sort_rows-IsRowOrder rows active direction =
        keyed-IsRowOrder active direction rows (λ e. cc) (by_count-IsOrder c law (λ s. s.active))
    sort_rows-IsRowOrder rows dial_failures direction =
        keyed-IsRowOrder dial_failures direction rows (λ e. cc)
          (by_count-IsOrder c law (λ s. s.dial_failures))
    sort_rows-IsRowOrder rows (traffic key) direction =
        keyed-IsRowOrder (traffic key) direction rows (traffic-read key)
          (by_traffic-IsOrder c law key)
