-- ===== src/I18n.antt =====
-- app/web/ui/src/lib/i18n.svelte.ts: the language of the page, and its messages. Of `URLSearchParams` the
-- page uses the member `lang`, read and set; both are parameters.
pub mod English
pub mod Chinese
pub mod Agree
pub mod Choice
use jumpway.Prelude.{
  ℕ, zero, suc, Bool, true, false, ◌&&◌, ◌||◌, List, [], ◌∷◌, ◌++◌, Option, none, some, is_some,
  get_or, Text, text_eq, codes, any, nat_beq, leb, is_empty, length, lookup, if◌then◌else◌, ◌==◌,
}
use jumpway.I18n.English.{en}
use jumpway.I18n.Chinese.{zh}

pub data Language : Type 0 where
  english chinese : Language

abbrev pub code_of : Language → Text
code_of english = codes "en"
code_of chinese = codes "zh"

-- `isLanguage`, with the language that it is
abbrev pub read_language : Option Text → Option Language
read_language none = none
read_language (some value) =
    if value == codes "en" then some english else if value == codes "zh" then some chinese else none

-- `/^zh/i`
abbrev pub prefers_chinese : Text → Bool
prefers_chinese (c ∷ d ∷ s) =
    (nat_beq c b'z' || nat_beq c b'Z') && (nat_beq d b'h' || nat_beq d b'H')
prefers_chinese _ = false

-- `override` is the member `lang` of the query.
abbrev pub resolve_language : Option Text → Option Text → List Text → Language × Bool
resolve_language override stored navigator = elim (read_language override) [
  | some language ↦ (language, true)
  | none ↦ elim (read_language stored) [
    | some language ↦ (language, false)
    | none ↦ (if any prefers_chinese navigator then chinese else english, false)
  ]
]

abbrev pub messages : Language → List (Text × Text)
messages english = en
messages chinese = zh

abbrev is_word : ℕ → Bool
is_word c =
    (leb b'a' c && leb c b'z')
    || (leb b'A' c && leb c b'Z')
    || (leb b'0' c && leb c b'9')
    || nat_beq c b'_'

-- The characters of a word up to a closing brace.
word_end : Text → Option Text
word_end [] = none
word_end (c ∷ s) =
    let rest = word_end s in
    if nat_beq c b'}'
    then some []
    else if is_word c
    then elim rest [ none ↦ none | some w ↦ some (c ∷ w) ]
    else none

-- `\{(\w+)\}` behind its opening brace: the group of a match.
unfoldable pub match_name : Text → Option Text
unfolding word_end
match_name s = elim (word_end s) [ none ↦ none | some w ↦ if is_empty w then none else some w ]

abbrev pub placeholder : ℕ → Text → Option Text
placeholder c s = if nat_beq c b'{' then match_name s else none

-- `replace` with a function, which is given the group of each match. The number says how many
-- characters belong to a match that has been replaced.
unfoldable pub fill : (Text → Text) → ℕ → Text → Text
unfolding match_name
fill values skip [] = []
fill values (suc skip) (c ∷ s) = fill values skip s
fill values zero (c ∷ s) = elim (placeholder c s) [
  | none ↦ c ∷ fill values zero s
  | some name ↦ values name ++ fill values (suc (length name)) s
]

-- `String(values[name] ?? '')`
abbrev pub value_of : (Text → Option Text) → Text → Text
value_of values name = get_or (values name) []

-- The message of a key that has none, which the types exclude, is empty.
unfoldable pub t : Language → Text → (Text → Option Text) → Text
unfolding fill
t language key values = fill (value_of values) 0 (get_or (lookup key (messages language)) [])

-- The variables, and what the browser has of them: the member `lang` of the address, the stored text, and
-- whether the storage can be used.
pub record I18n : Type 0 where
  pub language : Language
  pub explicit : Bool
  pub listening : Bool
  pub document_language : Text
  pub query : Text
  pub stored : Option Text
  pub denied : Bool

abbrev pub read_stored : I18n → Option Text
read_stored s = if s.denied then none else s.stored

abbrev pub write_stored : Language → I18n → I18n
write_stored language s = record s {
  stored = if s.denied then s.stored else some (code_of language);
}

abbrev pub document_code : Language → Text
document_code chinese = codes "zh-CN"
document_code english = codes "en"

unfoldable pub apply : Language → I18n → I18n
apply next s = record s { language = next; document_language = document_code next }

unfoldable pub dispose : I18n → I18n
unfolding apply
dispose s = apply english (record s { listening = false; explicit = false })

pub data LanguageEvent : Type 0 where
  inits disposes : LanguageEvent
  sets : Language → LanguageEvent
  moves : (query : Text) → LanguageEvent
  denies : Bool → LanguageEvent

module _ (get_lang : Text → Option Text) (set_lang : Text → Text → Text)
    (navigator : List Text) where
  unfoldable pub reconcile : I18n → I18n
  unfolding apply
  reconcile s =
      let resolved = resolve_language (get_lang s.query) (read_stored s) navigator in
      apply resolved.0 (record s { explicit = resolved.1 })

  unfoldable pub init : I18n → I18n
  unfolding reconcile
  init s = reconcile (record s { listening = true })

  -- The address is replaced if it names a language.
  abbrev pub replace_address : Bool → Language → I18n → I18n
  replace_address false next s = s
  replace_address true next s = record s {
    query = set_lang s.query (code_of next);
    explicit = true;
  }

  unfoldable pub set_language : Language → I18n → I18n
  unfolding apply
  set_language next s =
      replace_address (is_some (get_lang s.query)) next (write_stored next (apply next s))

  -- A move through the history to an address, by whether the page listens.
  abbrev pub popstate : Bool → Text → I18n → I18n
  popstate false query s = record s { query = query }
  popstate true query s = reconcile (record s { query = query })

  abbrev pub step : LanguageEvent → I18n → I18n
  step inits s = init s
  step disposes s = dispose s
  step (sets next) s = set_language next s
  step (moves query) s = popstate s.listening query s
  step (denies denied) s = record s { denied = denied }

  abbrev pub run : List LanguageEvent → I18n → I18n
  run [] s = s
  run (e ∷ es) s = run es (step e s)
