-- ===== src/ReadRule/Fields.antt =====
-- app/web/ui/src/lib/ruleEditor.ts, the checks of single fields: `parsePort`, `parseChannel` and
-- `readWay`.
pub mod Clear
use jumpway.Prelude.{
  ℕ, Bool, true, false, not, ◌&&◌, ◌||◌, List, [], ◌∷◌, Option, none, some, Text, trim, is_empty,
  leb, ltb, nat_beq, any, if◌then◌else◌,
}
use jumpway.Wire.{WayHop}
use jumpway.Way.{nonempty}
use jumpway.Endpoint.{is_virtual_channel}
use jumpway.Draft.{UrlDraft, HopDraft, way_of}
use jumpway.ReadRule.Errors.{MessageKey, hop_url_empty, hop_url_no_scheme, DraftErrors, put_url}

-- `number s` stands for `Number(s)`: the number, where it is an integer that is not negative.
unfoldable pub parse_port : (Text → Option ℕ) → Text → ℕ → Option ℕ
parse_port number value minimum =
    if is_empty (trim value) then none else elim (number (trim value)) [
      | none ↦ none
      | some port ↦ if ltb port minimum || ltb 65535 port then none else some port
    ]

unfoldable pub parse_channel : Text → Option Text
unfolding is_virtual_channel
parse_channel value = if is_virtual_channel (trim value) then some (trim value) else none

abbrev is_letter : ℕ → Bool
is_letter c = (leb b'a' c && leb c b'z') || (leb b'A' c && leb c b'Z')

abbrev is_scheme_char : ℕ → Bool
is_scheme_char c =
    is_letter c || (leb b'0' c && leb c b'9') || nat_beq c b'+' || nat_beq c b'.' || nat_beq c b'-'

scheme_rest : Text → Bool
scheme_rest [] = false
scheme_rest (c ∷ s) = nat_beq c b':' || (is_scheme_char c && scheme_rest s)

-- `SCHEME.test(s)`
unfoldable pub has_scheme : Text → Bool
unfolding scheme_rest
has_scheme [] = false
has_scheme (c ∷ s) = is_letter c && scheme_rest s

-- One round of the inner loop of `readWay`.
read_url : Bool → UrlDraft → DraftErrors → DraftErrors
read_url usable u e =
    let value = trim u.value in
    if is_empty value
    then (if usable then e else record e { urls = put_url u.id hop_url_empty e.urls })
    else if has_scheme value
    then e
    else record e { urls = put_url u.id hop_url_no_scheme e.urls }

read_urls : Bool → List UrlDraft → DraftErrors → DraftErrors
unfolding read_url
read_urls usable [] e = e
read_urls usable (u ∷ urls) e = read_urls usable urls (read_url usable u e)

abbrev pub is_usable : HopDraft → Bool
is_usable h = any (λ (u : UrlDraft). nonempty (trim u.value)) h.urls

unfoldable pub read_hops : List HopDraft → DraftErrors → DraftErrors
unfolding read_urls
read_hops [] e = e
read_hops (h ∷ hops) e = read_hops hops (read_urls (is_usable h) h.urls e)

unfoldable pub read_way : List HopDraft → DraftErrors → List WayHop × DraftErrors
unfolding read_hops
read_way hops e = (way_of hops, read_hops hops e)
