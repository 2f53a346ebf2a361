-- ===== src/Shell.antt =====
-- app/web/ui/src/lib/nav.ts, theme.svelte.ts, sidebar.svelte.ts, the labels of rule.ts and the stages of
-- components/rules/ChainFlow.svelte: what frames the pages. A message is named by its key; `translate` is
-- `t` of a key, and `numbered` is `t('hop', { number })`.
pub mod Preferences
pub mod Chain
use jumpway.Prelude.{
  ℕ, Bool, true, false, ◌||◌, List, [], ◌∷◌, Option, none, some, get_or, Text, codes, any, filter,
  find?, nat_beq, ◌≡◌, refl, if◌then◌else◌,
}
use jumpway.Router.{PageKind, overview, new, rule, stats, hosts, connections, settings, yaml, Route}

pub record NavItem : Type 0 where
  pub hash : Text
  pub label : Text
  pub kinds : List PageKind

abbrev pub nav_items : List NavItem
nav_items =
    (record {
      hash = codes "#/";
      label = codes "page.overview";
      kinds = overview ∷ new ∷ rule ∷ [];
    })
    ∷ (record { hash = codes "#/stats"; label = codes "page.stats"; kinds = stats ∷ [] })
    ∷ (record { hash = codes "#/hosts"; label = codes "page.hosts"; kinds = hosts ∷ [] })
    ∷ (record {
      hash = codes "#/connections";
      label = codes "page.connections";
      kinds = connections ∷ [];
    })
    ∷ (record { hash = codes "#/settings"; label = codes "page.settings"; kinds = settings ∷ [] })
    ∷ (record { hash = codes "#/yaml"; label = codes "page.yaml"; kinds = yaml ∷ [] })
    ∷ []

abbrev place_of : PageKind → ℕ
place_of overview = 0
place_of new = 1
place_of rule = 2
place_of stats = 3
place_of hosts = 4
place_of connections = 5
place_of settings = 6
place_of yaml = 7

abbrev pub kind_beq : PageKind → PageKind → Bool
kind_beq a b = nat_beq (place_of a) (place_of b)

unfoldable pub nav_item_for : PageKind → Option NavItem
nav_item_for kind = find? (λ (item : NavItem). any (kind_beq kind) item.kinds) nav_items

-- The label of an entry; each page has one, as `nav_item_for_unique` shows.
abbrev label_of : Option NavItem → Text
label_of none = []
label_of (some item) = item.label

unfoldable pub page_title : (Text → Text) → Route → Text
unfolding nav_item_for
page_title translate route = elim route.kind [
  | rule ↦ get_or route.name []
  | new ↦ translate (codes "newRule")
  | kind ↦ translate (label_of (nav_item_for kind))
]

-- Each page is current for exactly one entry of the navigation, which is the one that is found.
pub nav_item_for_unique :
    (kind : PageKind)
    → (item : NavItem) × (filter (λ (i : NavItem). any (kind_beq kind) i.kinds) nav_items
        ≡ item ∷ [])
      × (nav_item_for kind ≡ some item)
unfolding nav_item_for
nav_item_for_unique overview = (_, refl, refl)
nav_item_for_unique new = (_, refl, refl)
nav_item_for_unique rule = (_, refl, refl)
nav_item_for_unique stats = (_, refl, refl)
nav_item_for_unique hosts = (_, refl, refl)
nav_item_for_unique connections = (_, refl, refl)
nav_item_for_unique settings = (_, refl, refl)
nav_item_for_unique yaml = (_, refl, refl)
