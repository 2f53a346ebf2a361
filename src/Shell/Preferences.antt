-- ===== src/Shell/Preferences.antt =====
-- app/web/ui/src/lib/theme.svelte.ts and sidebar.svelte.ts: the choices that are kept in the browser's storage,
-- which may be denied.
use jumpway.Prelude.{
  Bool, true, false, not, Option, none, some, is_some, get_or, Text, text_eq, text_beq, codes,
  if◌then◌else◌, ◌==◌, ◌≡◌, refl,
}

pub data Theme : Type 0 where
  system light dark : Theme

abbrev pub theme_code : Theme → Text
theme_code system = codes "system"
theme_code light = codes "light"
theme_code dark = codes "dark"

-- The variables of both, and what the browser has of them: the stored texts, whether the storage can be used,
-- and what the document's `data-theme` is.
pub record Preferences : Type 0 where
  pub theme : Theme
  pub system_dark : Bool
  pub listening : Bool
  pub shown : Theme
  pub stored_theme : Option Text
  pub collapsed : Bool
  pub stored_collapsed : Option Text
  pub denied : Bool

-- `resolve`: light or dark
abbrev pub resolved : Theme → Bool → Theme
resolved system true = dark
resolved system false = light
resolved light system_dark = light
resolved dark system_dark = dark

unfoldable pub apply_theme : Preferences → Preferences
apply_theme s = record s { shown = resolved s.theme s.system_dark }

abbrev pub read_theme : Option Text → Theme
read_theme none = system
read_theme (some stored) =
    if stored == codes "light" then light else if stored == codes "dark" then dark else system

abbrev readable : Bool → Option Text → Option Text
readable denied stored = if denied then none else stored

unfoldable pub set_theme : Theme → Preferences → Preferences
unfolding apply_theme
set_theme next s = apply_theme (record s {
  theme = next;
  stored_theme = if s.denied then s.stored_theme else some (theme_code next);
})

-- `query` is the answer of `matchMedia`, none where there is no such function.
unfoldable pub init_theme : Option Bool → Preferences → Preferences
unfolding apply_theme
init_theme query s = apply_theme (record s {
  theme = read_theme (readable s.denied s.stored_theme);
  system_dark = get_or query false;
  listening = is_some query;
})

-- `onChange`, where it is listened to
unfoldable pub change_scheme : Bool → Preferences → Preferences
unfolding apply_theme
change_scheme matches s =
    if s.listening then apply_theme (record s { system_dark = matches }) else s

abbrev boolean_text : Bool → Text
boolean_text true = codes "true"
boolean_text false = codes "false"

abbrev pub is_true : Option Text → Bool
is_true none = false
is_true (some stored) = stored == codes "true"

unfoldable pub set_sidebar : Bool → Preferences → Preferences
set_sidebar next s = record s {
  collapsed = next;
  stored_collapsed = if s.denied then s.stored_collapsed else some (boolean_text next);
}

unfoldable pub toggle_sidebar : Preferences → Preferences
unfolding set_sidebar
toggle_sidebar s = set_sidebar (not s.collapsed) s

unfoldable pub init_sidebar : Preferences → Preferences
init_sidebar s = record s { collapsed = is_true (readable s.denied s.stored_collapsed) }

read_theme-theme_code : (t : Theme) → read_theme (some (theme_code t)) ≡ t
unfolding text_beq
read_theme-theme_code system = refl
read_theme-theme_code light = refl
read_theme-theme_code dark = refl

is_true-boolean_text : (b : Bool) → is_true (some (boolean_text b)) ≡ b
unfolding text_beq
is_true-boolean_text true = refl
is_true-boolean_text false = refl

-- Where the storage can be used, the theme and the width of the sidebar that were chosen are those of the next
-- start of the page, and the document shows what the theme stands for then.
pub init-restores :
    (theme : Theme) (collapsed : Bool) (query : Option Bool) (s : Preferences)
    → s.denied ≡ false
    → let next = init_sidebar (init_theme query (set_sidebar collapsed (set_theme theme s))) in
      (next.theme ≡ theme)
      × (next.collapsed ≡ collapsed)
      × (next.shown ≡ resolved theme (get_or query false))
unfolding init_sidebar init_theme set_sidebar set_theme apply_theme
init-restores theme collapsed query s e =
    rw (e, read_theme-theme_code, is_true-boolean_text) (refl, refl, refl)
