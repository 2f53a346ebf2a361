-- ===== src/Examples/Listing.antt =====
-- The lists of the statistics, and the texts in them, at concrete values.
use jumpway.Prelude.{
  ℕ, ◌+◌, ◌-◌, ◌*◌, ◌/◌, true, List, [], ◌∷◌, ◌++◌, none, some, Text, text_eq, codes, length,
  is_empty, above, above-IsOrder, on-IsOrder, IsOrder, if◌then◌else◌, ◌≡◌, ◌≢◌, ◌↔◌, inl, refl,
  arith, In,
}
use jumpway.Api.{ok}
use jumpway.Dom.Injective.{element_id-injective}
use jumpway.Format.{mask, redact_url}
use jumpway.Format.Masked.{at, redact_url-masks}
use jumpway.Search.{fuzzy_match, descending}
use jumpway.Sorting.{Comparisons, IsComparison}
use jumpway.Stats.{Stats}
use jumpway.StatsRows.{StatsRow}
use jumpway.StatsRows.Sorting.{active, sort_rows}
use jumpway.StatsRows.Ordered.{reading_of, IsRowOrder, sort_rows-IsRowOrder}
use jumpway.UrlBuilder.{Parser}
use jumpway.Pages.Statistics.{
  Statistics, StatisticsEvent, open_page, retries, answers, ends, run, step,
}
use jumpway.Pages.Statistics.Loading.{run-drops_stale}
use jumpway.Pages.Statistics.Rows.{rows, address_of, target_of, shown}
use jumpway.Pages.Statistics.Shown.{shown_iff}
use jumpway.Examples.Data.{web_rule}
use jumpway.Examples.Pages.{idle, web_stats}

-- Natural numbers, texts by their length, and the length of a text as its instant.
abbrev plain : Comparisons ℕ
plain = record {
  zero = 0;
  add = λ x y. x + y;
  subtract = λ x y. x - y;
  times = λ x y. x * y;
  divide = λ x y. x / y;
  or_zero = λ x. x;
  exceeds = above;
  follows = λ s t. above (length s) (length t);
  follows_default = λ s t. above (length s) (length t);
  parse = λ s. if is_empty s then none else some (length s);
}

by_length : IsOrder (λ (s t : Text). above (length s) (length t))
by_length = on-IsOrder length above above-IsOrder

plain-IsComparison : IsComparison plain
plain-IsComparison = record { numbers = above-IsOrder; texts = by_length; default = by_length }

abbrev row : Text → ℕ → StatsRow ℕ
row name count = record {
  name = name;
  rule = none;
  runtime = none;
  entry = some (record web_stats { stats = record idle { active = count } });
}

abbrev some_rows : List (StatsRow ℕ)
some_rows = row (codes "a") 1 ∷ row (codes "b") 3 ∷ row (codes "c") 1 ∷ []

sort_rows-IsRowOrder_example :
    IsRowOrder plain
      (reading_of active)
      descending
      some_rows
      (sort_rows plain some_rows (record { key = active; direction = descending }))
sort_rows-IsRowOrder_example =
    sort_rows-IsRowOrder plain plain-IsComparison some_rows active descending

-- The page with the rules of one answer, and a load that is not the newest.
abbrev loaded : List StatisticsEvent
loaded = answers 0 (ok (some (web_rule ∷ []))) ∷ ends 0 ∷ retries ∷ []

older : 1 ≢ (run loaded (open_page none)).loads
unfolding open_page jumpway.Pages.Statistics.load jumpway.Pages.Statistics.answered
    jumpway.Pages.Statistics.ended
older = λ e. absurd (ground (arith, e))

run-drops_stale_example :
    (step (answers 0 (ok none)) (run loaded (open_page none)) ≡ run loaded (open_page none))
    × (step (ends 0) (run loaded (open_page none)) ≡ run loaded (open_page none))
run-drops_stale_example = run-drops_stale loaded none 0 (ok none) (inl older)

abbrev page : Statistics
page = run loaded (open_page none)

shown_iff_example :
    In (row (codes "web") 1) (shown plain (λ s. s) none (some (web_stats ∷ [])) page) ↔ (
      In (row (codes "web") 1) (rows none (some (web_stats ∷ [])) page)
      × (fuzzy_match
            (λ s. s)
            page.query
            (some (codes "web")
              ∷ some (address_of (row (codes "web") 1))
              ∷ some (target_of (row (codes "web") 1))
              ∷ [])
          ≡ true))
shown_iff_example = shown_iff plain (λ s. s) none (some (web_stats ∷ [])) page (row (codes "web") 1)

abbrev samples : List (Stats ℕ)
samples = idle ∷ (record idle { last_active = some (codes "now"); latency_ms = 9 }) ∷ []

-- A browser that reads a user from every URL.
abbrev with_user : Parser
with_user = record {
  Url = Text;
  parse = some;
  protocol = λ u. [];
  username = λ u. codes "u";
  password = λ u. [];
  hostname = λ u. [];
  port = λ u. [];
  identity_file = λ u. none;
}

test_redact_url_read :
    redact_url with_user
      (codes "ssh" ++ codes "://" ++ at (codes "u:p@ss") (codes "host" ++ codes "/x"))
    ≡ codes "ssh" ++ codes "://" ++ at mask (codes "host" ++ codes "/x")
test_redact_url_read =
    redact_url-masks with_user (codes "ssh") (codes "u:p@ss") (codes "host") (codes "/x")
      (ground arith) (λ e. cc) (ground arith) (ground arith) refl (ground arith, refl)

-- A browser that refuses a URL, for the slash in its password.
abbrev refusing : Parser
refusing = record with_user { parse = λ s. none }

redact_url-masks_example :
    redact_url refusing
      (codes "ssh" ++ codes "://" ++ at (codes "u:S3c/r3t") (codes "host" ++ codes "/x"))
    ≡ codes "ssh" ++ codes "://" ++ at mask (codes "host" ++ codes "/x")
redact_url-masks_example =
    redact_url-masks refusing (codes "ssh") (codes "u:S3c/r3t") (codes "host") (codes "/x")
      (ground arith) (λ e. cc) (ground arith) (ground arith) refl (ground arith)

element_id-injective_example : codes "a_b" ≡ codes "a_b"
element_id-injective_example =
    element_id-injective (codes "p") (codes "a_b") (codes "a_b") (ground arith) (ground arith) refl
