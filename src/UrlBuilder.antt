-- ===== src/UrlBuilder.antt =====
-- app/web/ui/src/lib/urlBuilder.ts: the URL of a hop from the fields of its protocol, and back. The
-- browser's `URL`, `encodeURIComponent`, `decodeURIComponent` and `toLowerCase` are parameters.
mod Layouts
pub mod Named
pub mod Ports
pub mod Commands
pub mod Listed
unfoldable pub use Layouts.*
use jumpway.Prelude.{
  ℕ, Bool, true, false, not, ◌&&◌, ◌||◌, List, [], ◌∷◌, ◌++◌, map, Option, none, some, is_some,
  get_or, Text, text_eq, codes, trim, includes, is_empty, filter, find?, leb, nat_beq, read_decimal,
  if◌then◌else◌, ◌==◌,
}
use jumpway.Way.{nonempty}
use jumpway.Endpoint.{or_text, brackets, starts_with_bracket}

abbrev pub BuilderValues : Type 0
BuilderValues = BuilderField → Option Text

abbrev pub field_beq : BuilderField → BuilderField → Bool
field_beq username username = true
field_beq BuilderField.password BuilderField.password = true
field_beq host host = true
field_beq port port = true
field_beq identity identity = true
field_beq encrypto encrypto = true
field_beq command command = true
field_beq _ _ = false

-- `ALIASES[name] ?? name`
abbrev pub alias : Text → Text
alias name =
    if name == codes "ss"
    then codes "shadowsocks"
    else if name == codes "cmd"
    then codes "command"
    else if name == codes "nc"
    then codes "netcat"
    else name

unfoldable pub layout_for : (Text → Text) → Text → Option ProxyLayout
layout_for lower protocol = find? (λ (l : ProxyLayout). l.name == alias (lower protocol)) layouts

abbrev is_span : LayoutInput → Bool
is_span i = elim i.kind [ span ↦ true | _ ↦ false ]

abbrev pub fields_of : ProxyLayout → List LayoutInput
fields_of layout = filter (λ i. not (is_span i)) layout.inputs

-- The texts of the fields, as the builder starts with them.
unfoldable pub initial_values : ProxyLayout → BuilderValues → List (Option BuilderField × Text)
initial_values layout values =
    map
      (λ (i : LayoutInput). (
        i.name,
        get_or (elim i.name [ none ↦ none | some name ↦ values name ]) (get_or i.value []),
      ))
      (fields_of layout)

pub data Hint : Type 0 where
  builder_hint builder_shadowsocks_hint builder_command_hint : Hint

pub record BuiltUrl : Type 0 where
  pub url : Text
  pub valid : Bool
  pub hint : Option Hint

abbrev pub is_named : BuilderField → LayoutInput → Bool
is_named field i = elim i.name [ none ↦ false | some name ↦ field_beq name field ]

abbrev pub command_field_of : ProxyLayout → Option LayoutInput
command_field_of layout = find? (is_named command) layout.inputs

-- `find(...)?.value ?? ''`
abbrev pub value_of : Option LayoutInput → Text
value_of none = []
value_of (some i) = get_or i.value []

abbrev pub scheme_of : ProxyLayout → Text
scheme_of layout = value_of (find? is_span layout.inputs)

-- `values.x || ''`
abbrev pub given : BuilderValues → BuilderField → Text
given values field = get_or (values field) []

abbrev pub is_shadowsocks : ProxyLayout → Bool
is_shadowsocks layout = layout.name == codes "shadowsocks"

abbrev pub hint_for : Bool → Hint → Option Hint
hint_for valid hint = if valid then none else some hint

abbrev ends_with_bracket : Text → Bool
ends_with_bracket [] = false
ends_with_bracket (c ∷ []) = nat_beq c b']'
ends_with_bracket (c ∷ d ∷ s) = ends_with_bracket (d ∷ s)

abbrev pub bracketed : Text → Text
bracketed name =
    if includes b':' name && not (starts_with_bracket name && ends_with_bracket name)
    then brackets name
    else name

abbrev pub host_text : BuilderValues → Text
host_text values = bracketed (trim (given values host))

abbrev pub port_of : ProxyLayout → BuilderValues → Text
port_of layout values = or_text (given values port) (value_of (find? (is_named port) layout.inputs))

abbrev is_digit : ℕ → Bool
is_digit c = leb b'0' c && leb c b'9'

abbrev pub all_digits : Text → Bool
all_digits [] = true
all_digits (c ∷ s) = is_digit c && all_digits s

-- `/^\d+$/`
abbrev pub is_number : Text → Bool
is_number s = nonempty s && all_digits s

abbrev pub is_valid_port : Text → Bool
is_valid_port s = is_number s && leb 1 (read_decimal s) && leb (read_decimal s) 65535

abbrev pub command_url : LayoutInput → ProxyLayout → BuilderValues → BuiltUrl
command_url field layout values =
    let line = trim (given values command) in
    let valid = nonempty line || field.option in
    record {
      url = scheme_of layout ++ line;
      valid = valid;
      hint = hint_for valid builder_command_hint;
    }

module _ (enc : Text → Text) where
  abbrev userinfo : ProxyLayout → BuilderValues → Text
  userinfo layout values =
      let name = given values username in
      let secret = given values BuilderField.password in
      if is_shadowsocks layout
      then enc (given values encrypto) ++ b':' ∷ (enc secret ++ b'@' ∷ [])
      else if nonempty name || nonempty secret
      then enc name ++ ((if nonempty secret then b':' ∷ enc secret else []) ++ b'@' ∷ [])
      else []

  abbrev query : ProxyLayout → BuilderValues → Text
  query layout values =
      if layout.name == codes "ssh" && nonempty (given values identity)
      then codes "?identity_file=" ++ enc (given values identity)
      else []

  abbrev pub network_url : ProxyLayout → BuilderValues → BuiltUrl
  network_url layout values =
      let at = host_text values in
      let number = port_of layout values in
      let lacks_secret =
        is_shadowsocks layout
        && (is_empty (given values encrypto) || is_empty (given values BuilderField.password)) in
      let valid = nonempty at && is_valid_port number && not lacks_secret in
      record {
        url =
            scheme_of layout
            ++ (userinfo layout values ++ (at ++ b':' ∷ (number ++ query layout values)));
        valid = valid;
        hint =
            hint_for valid
              (if is_shadowsocks layout then builder_shadowsocks_hint else builder_hint);
      }

  abbrev pub by_field : ProxyLayout → BuilderValues → Option LayoutInput → BuiltUrl
  by_field layout values none = network_url layout values
  by_field layout values (some field) = command_url field layout values

  unfoldable pub build_url : ProxyLayout → BuilderValues → BuiltUrl
  build_url layout values = by_field layout values (command_field_of layout)

-- The browser's `URL`, as far as `parseURL` uses it; `identity_file` is a member of its `searchParams`.
pub record Parser : Type 1 where
  pub Url : Type 0
  pub parse : Text → Option Url
  pub protocol : Url → Text
  pub username : Url → Text
  pub password : Url → Text
  pub hostname : Url → Text
  pub port : Url → Text
  pub identity_file : Url → Option Text

-- What stands before the first colon and behind it.
unfoldable pub cut_colon : Text → Option (Text × Text)
cut_colon [] = none
cut_colon (c ∷ s) =
    let rest = cut_colon s in
    if nat_beq c b':'
    then some ([], s)
    else elim rest [ none ↦ none | some p ↦ some (c ∷ p.0, p.1) ]

-- `value.slice(0, -1)`
abbrev pub without_last : Text → Text
without_last [] = []
without_last (c ∷ []) = []
without_last (c ∷ d ∷ s) = c ∷ without_last (d ∷ s)

abbrev pub command_values : Text → BuilderValues
command_values line command = some line
command_values line _ = none

abbrev present : Text → Option Text
present [] = none
present (c ∷ s) = some (c ∷ s)

module _ (lower : Text → Text) (parser : Parser) (dec : Text → Option Text) where
  open parser use {Url}

  abbrev decode : Text → Text
  decode value = get_or (dec value) value

  abbrev pub url_values : Url → BuilderValues
  url_values u username = some (decode (parser.username u))
  url_values u BuilderField.password = some (decode (parser.password u))
  url_values u host = some (parser.hostname u)
  url_values u port = present (parser.port u)
  url_values u identity = some (get_or (parser.identity_file u) [])
  url_values u encrypto = some (decode (parser.username u))
  url_values u command = none

  abbrev pub parse_network : Text → Option (ProxyLayout × BuilderValues)
  parse_network value = elim (parser.parse value) [
    | none ↦ none
    | some u ↦ elim (layout_for lower (without_last (parser.protocol u))) [
      | none ↦ none
      | some layout ↦ some (layout, url_values u)
    ]
  ]

  -- The layout that a text before a colon names, if it is one of commands.
  abbrev pub opaque_layout : Option (Text × Text) → Option (ProxyLayout × BuilderValues)
  opaque_layout none = none
  opaque_layout (some cut) = if is_empty cut.0 then none else elim (layout_for lower cut.0) [
    | none ↦ none
    | some layout ↦
        if is_some (command_field_of layout) then some (layout, command_values cut.1) else none
  ]

  unfoldable pub parse_url : Text → Option (ProxyLayout × BuilderValues)
  unfolding cut_colon layout_for
  parse_url value = elim (opaque_layout (cut_colon value)) [
    | none ↦ parse_network value
    | some found ↦ some found
  ]
