-- ===== src/Format.antt =====
-- app/web/ui/src/lib/format.ts: elapsed times, the texts of clients, and URLs without their secrets. Instants
-- are milliseconds from the first one that a `Date` can hold; `Date.parse`, the browser's `URL` and the
-- translation of `ago` are parameters.
pub mod Masked
use jumpway.Prelude.{
  ℕ, zero, suc, ◌+◌, ◌-◌, ◌/◌, ◌%◌, Bool, true, false, not, ◌&&◌, ◌||◌, List, [], ◌∷◌, ◌++◌, Option,
  none, some, get_or, Text, codes, text_eq, is_space, is_empty, decimal, length, ltb, nat_beq,
  if◌then◌else◌, ◌==◌,
}
use jumpway.Hosts.{is_scheme_char, is_letter}
use jumpway.Hosts
use jumpway.UrlBuilder

abbrev pub dash : Text
dash = 0x2014 ∷ []

unfoldable pub format_elapsed : ℕ → Bool → Text
format_elapsed seconds short =
    if ltb seconds 60
    then decimal seconds ++ codes " s"
    else if ltb seconds 3600
    then decimal (seconds / 60)
      ++ (codes " min" ++ (if short then [] else b' ' ∷ (decimal (seconds % 60) ++ codes " s")))
    else decimal (seconds / 3600)
      ++ (codes " h"
          ++ (if short then [] else b' ' ∷ (decimal (seconds % 3600 / 60) ++ codes " min")))

module _ (parse : Text → Option ℕ) where
  -- Time that lies ahead counts as none.
  unfoldable pub format_duration : Option Text → Bool → ℕ → Text
  unfolding format_elapsed
  format_duration value short now = elim (parse (get_or value [])) [
    | none ↦ dash
    | some timestamp ↦ format_elapsed ((now - timestamp) / 1000) short
  ]

  -- `ago` is `t('ago', ...)` of a time.
  unfoldable pub format_ago : (Text → Text) → Option Text → ℕ → Text
  unfolding format_duration
  format_ago ago value now =
      let duration = format_duration value true now in
      if duration == dash then duration else ago duration

abbrev without_open : Text → Text
without_open [] = []
without_open (c ∷ s) = if nat_beq c b'[' then s else c ∷ s

abbrev without_close : Text → Text
without_close [] = []
without_close (c ∷ []) = if nat_beq c b']' then [] else c ∷ []
without_close (c ∷ d ∷ s) = c ∷ without_close (d ∷ s)

unfoldable pub display_client : Hosts.Parser → Option Text → Text
display_client parser value =
    let raw = get_or value [] in
    if is_empty raw then dash else elim (parser.parse (codes "http://" ++ raw)) [
      | none ↦ raw
      | some url ↦ without_close (without_open (parser.hostname url))
    ]

abbrev pub mask : Text
mask = codes "xxxxx"

-- The characters of a scheme and what stands behind its `://`.
unfoldable pub scheme_end : Text → Option (Text × Text)
scheme_end [] = none
scheme_end (c ∷ s) =
    let rest = scheme_end s in
    if is_scheme_char c
    then elim rest [ none ↦ none | some cut ↦ some (c ∷ cut.0, cut.1) ]
    else if nat_beq c b':'
    then elim s [
      | a ∷ b ∷ after ↦ if nat_beq a b'/' && nat_beq b b'/' then some ([], after) else none
      | _ ↦ none
    ]
    else none

-- The group of the scheme, and all that follows it.
unfoldable pub scheme_of : Text → Option (Text × Text)
unfolding scheme_end
scheme_of [] = none
scheme_of (c ∷ s) =
    if is_letter c
    then elim (scheme_end s) [ none ↦ none | some cut ↦ some (c ∷ (cut.0 ++ codes "://"), cut.1) ]
    else none

abbrev pub ends_authority : ℕ → Bool
ends_authority c = nat_beq c b'/' || nat_beq c b'?' || nat_beq c b'#'

-- `[^/?#]*`, and what stands behind it.
unfoldable pub cut_authority : Text → Text × Text
cut_authority [] = ([], [])
cut_authority (c ∷ s) =
    let rest = cut_authority s in if ends_authority c then ([], c ∷ s) else (c ∷ rest.0, rest.1)

-- What stands before the last `@`, and all from it on.
unfoldable pub cut_last : Text → Option (Text × Text)
cut_last [] = none
cut_last (c ∷ s) = elim (cut_last s) [
  | some cut ↦ some (c ∷ cut.0, cut.1)
  | none ↦ if nat_beq c b'@' then some ([], c ∷ s) else none
]

-- Nothing is masked where nothing stands before the separator.
unfoldable pub masked : Text → Text → Text → Text → Text
unfolding cut_last
masked token scheme span tail = elim (cut_last span) [
  | none ↦ token
  | some cut ↦ if is_empty cut.0 then token else scheme ++ (mask ++ (cut.1 ++ tail))
]

module _ (parser : UrlBuilder.Parser) where
  -- What the constructor of `URL` makes of the token decides how far the span goes.
  abbrev pub redact_parsed : Option parser.Url → Text → Text → Text → Text
  redact_parsed none token scheme rest = masked token scheme rest []
  redact_parsed (some url) token scheme rest =
      if is_empty (parser.username url) && is_empty (parser.password url)
      then token
      else let cut = cut_authority rest in masked token scheme cut.0 cut.1

  unfoldable pub redact_url : Text → Text
  unfolding scheme_of masked cut_authority
  redact_url token = elim (scheme_of token) [
    | none ↦ token
    | some cut ↦ redact_parsed (parser.parse token) token cut.0 cut.1
  ]

  -- `(?:\\"|[^\s"])+`: what is matched and what is left. An escaped quote is two characters.
  url_body : Text → Text × Text
  url_body [] = ([], [])
  url_body (c ∷ []) = if is_space c || nat_beq c b'"' then ([], c ∷ []) else (c ∷ [], [])
  url_body (c ∷ d ∷ s) =
      let escaped = url_body s in
      let rest = url_body (d ∷ s) in
      if nat_beq c b'\\' && nat_beq d b'"'
      then (c ∷ d ∷ escaped.0, escaped.1)
      else if is_space c || nat_beq c b'"'
      then ([], c ∷ d ∷ s)
      else (c ∷ rest.0, rest.1)

  -- `URL_TOKEN` at the start of a text.
  unfoldable pub match_token : Text → Option Text
  unfolding scheme_of url_body
  match_token s = elim (scheme_of s) [
    | none ↦ none
    | some cut ↦
        let body = url_body cut.1 in if is_empty body.0 then none else some (cut.0 ++ body.0)
  ]

  -- `replace` with `redactURL`. The number says how many characters belong to a match that has been
  -- replaced.
  redact_from : ℕ → Text → Text
  unfolding match_token
  redact_from skip [] = []
  redact_from (suc skip) (c ∷ s) = redact_from skip s
  redact_from zero (c ∷ s) = elim (match_token (c ∷ s)) [
    | none ↦ c ∷ redact_from zero s
    | some token ↦ redact_url token ++ redact_from (length token - 1) s
  ]

  unfoldable pub redact_credentials : Option Text → Text
  unfolding redact_from
  redact_credentials value = redact_from 0 (get_or value [])
