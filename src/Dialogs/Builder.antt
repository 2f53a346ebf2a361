-- ===== src/Dialogs/Builder.antt =====
-- app/web/ui/src/lib/components/rules/UrlBuilderDialog.svelte: the dialog that builds a URL from fields,
-- or answers none. The browser's functions are the parameters of `parse_url` and `build_url`.
use jumpway.Prelude.{
  ℕ, suc, Bool, true, false, not, ◌&&◌, List, [], ◌∷◌, Option, none, some, is_some, Text, text_eq,
  find?, if◌then◌else◌, ◌==◌,
}
use jumpway.UrlBuilder.{
  BuilderField, BuilderValues, ProxyLayout, layouts, https_layout, Parser, field_beq,
  initial_values, build_url, parse_url,
}
use jumpway.Dialogs.{is_number, refocused, resolve}

-- The variables of the dialog; `is_open` and `focus` are the document's, `mounted` whether it stands
-- in the page. `focus` holds a number for each element, the first field of the form being `field`.
pub record Builder : Type 0 where
  pub mounted : Bool
  pub layout : ProxyLayout
  pub values : BuilderValues
  pub active : Bool
  pub pending : Option ℕ
  pub opener : Option ℕ
  pub is_open : Bool
  pub focus : Option ℕ
  pub asked : ℕ
  pub answers : List (ℕ × Option Text)

abbrev no_values : BuilderValues
no_values field = none

-- `layouts[0]` stands in front.
abbrev pub new_builder : Builder
new_builder = record {
  mounted = true;
  layout = https_layout;
  values = no_values;
  active = false;
  pending = none;
  opener = none;
  is_open = false;
  focus = none;
  asked = 0;
  answers = [];
}

-- `Object.fromEntries`: of two entries with one name the last counts.
abbrev pub from_entries : List (Option BuilderField × Text) → BuilderValues
from_entries [] field = none
from_entries ((none, value) ∷ rest) field = from_entries rest field
from_entries ((some name, value) ∷ rest) field =
    let later = from_entries rest field in
    if is_some later then later else if field_beq name field then some value else none

abbrev start_values : ProxyLayout → BuilderValues → BuilderValues
start_values layout values = from_entries (initial_values layout values)

unfoldable pub settle : Option Text → Builder → Builder
settle value s = record s {
  pending = none;
  active = false;
  is_open = false;
  focus = refocused s.opener s.focus;
  opener = none;
  answers = resolve s.pending value s.answers;
}

-- `parsed?.layout ?? layouts[0]` and `parsed?.values ?? {}`
abbrev pub parsed_or : Option (ProxyLayout × BuilderValues) → ProxyLayout × BuilderValues
parsed_or none = (https_layout, no_values)
parsed_or (some parsed) = parsed

-- What is asked for when no question waits.
unfoldable pub begin : ProxyLayout × BuilderValues → Builder → Builder
begin parsed s = record s {
  layout = parsed.0;
  values = start_values parsed.0 parsed.1;
  opener = s.focus;
  active = true;
  pending = some s.asked;
  asked = suc s.asked;
}

unfoldable pub refuse : Builder → Builder
refuse s = record s { asked = suc s.asked; answers = (s.asked, none) ∷ s.answers }

-- The tick that follows the question of that number: the first field gets the focus.
unfoldable pub ticked : ℕ → Option ℕ → Builder → Builder
ticked n field s =
    if is_number s.pending n
    then record s { is_open = true; focus = if is_some field then field else s.focus }
    else s

abbrev pub chosen : Option ProxyLayout → Builder → Builder
chosen none s = s
chosen (some next) s = record s { layout = next; values = start_values next no_values }

unfoldable pub select_layout : Text → Builder → Builder
select_layout name s = chosen (find? (λ (l : ProxyLayout). l.name == name) layouts) s

-- `onclose`: the event may come late.
unfoldable pub on_close : Builder → Builder
unfolding settle
on_close s = if is_some s.pending && not s.is_open then settle none s else s

pub data BuilderEvent : Type 0 where
  opens : (initial : Text) → BuilderEvent
  ticks : ℕ → (field : Option ℕ) → BuilderEvent
  selects : Text → BuilderEvent
  types : BuilderField → Text → BuilderEvent
  -- The form and its Cancel button.
  submits cancels : BuilderEvent
  -- The browser closes the dialog by Escape; the event of a closing comes later.
  escapes closes unmounts : BuilderEvent
  focuses : Option ℕ → BuilderEvent

-- `bind:value={values[field.name]}`
abbrev typed : BuilderField → Text → BuilderValues → BuilderValues
typed name value values field = if field_beq name field then some value else values field

-- The form stands in the dialog only while a question is active.
abbrev pub in_form : (Builder → Builder) → Builder → Builder
in_form act s = if s.active then act s else s

module _ (lower enc : Text → Text) (parser : Parser) (dec : Text → Option Text) where
  unfoldable pub open_dialog : Text → Builder → Builder
  unfolding begin refuse
  open_dialog initial s =
      if is_some s.pending
      then refuse s
      else begin (parsed_or (parse_url lower parser dec initial)) s

  -- The submission of the form.
  unfoldable pub submit : Builder → Builder
  unfolding settle
  submit s =
      let built = build_url enc s.layout s.values in
      if built.valid then settle (some built.url) s else s

  -- Nobody opens a dialog that is not in the page.
  abbrev pub step : BuilderEvent → Builder → Builder
  step (opens initial) s = if s.mounted then open_dialog initial s else s
  step (ticks n field) s = ticked n field s
  step (selects name) s = in_form (select_layout name) s
  step (types name value) s = in_form (λ t. record t { values = typed name value t.values }) s
  step submits s = in_form submit s
  step cancels s = in_form (settle none) s
  step escapes s = record s { is_open = false }
  step closes s = on_close s
  step unmounts s = record (settle none s) { mounted = false }
  step (focuses at) s = record s { focus = at }

  abbrev pub run : List BuilderEvent → Builder → Builder
  run [] s = s
  run (e ∷ es) s = run es (step e s)
