-- ===== src/Router/Links.antt =====
-- app/web/ui/src/lib/routes.ts: the hashes that the pages link to, and that they are read back. The query is
-- what `URLSearchParams` makes of a member `rule`.
use jumpway.Prelude.{
  Bool, true, false, not, ◌&&◌, ◌||◌, leb, ltb, if◌then◌else◌, [], ◌∷◌, ◌++◌, Option, none, some,
  is_some, Text, codes, text_eq, text_beq, is_empty, includes, lookup, nat_beq, ◌≡◌, refl, ap, ◌∙◌,
  arith, All,
}
use jumpway.Router.{PageKind, new, rule, Route, path_of, query_of, match_rule, rule_page, route_for}

-- The pages whose address may name a rule.
pub data RulePage : Type 0 where
  stats connections : RulePage

abbrev pub kind_of : RulePage → PageKind
kind_of stats = PageKind.stats
kind_of connections = PageKind.connections

abbrev path_to : RulePage → Text
path_to stats = codes "#/stats"
path_to connections = codes "#/connections"

module _ (encode query : Text → Text) where
  unfoldable pub rule_route : Text → Text
  rule_route name = codes "#/rules/" ++ encode name

  unfoldable pub duplicate_route : Text → Text
  duplicate_route name = codes "#/new" ++ (b'?' ∷ query name)

  unfoldable pub stats_route : RulePage → Text → Text
  stats_route page [] = path_to page
  stats_route page (c ∷ name) = path_to page ++ (b'?' ∷ query (c ∷ name))

-- No slash and no question mark.
abbrev pub IsComponent : Text → Type 0
IsComponent = All (λ c. nat_beq c b'/' || nat_beq c b'?' ≡ false)

-- Whether every surrogate is half of a pair, as `String.prototype.isWellFormed` asks; `pending` tells that
-- the code unit before was a high one.
abbrev is_paired : Bool → Text → Bool
is_paired pending [] = not pending
is_paired pending (c ∷ s) =
    if leb 0xD800 c && ltb c 0xDC00
    then not pending && is_paired true s
    else if leb 0xDC00 c && ltb c 0xE000
    then pending && is_paired false s
    else not pending && is_paired false s

abbrev pub is_well_formed : Text → Bool
is_well_formed = is_paired false

-- What `encodeURIComponent`, `decodeURIComponent` and `URLSearchParams` promise of each other on texts that
-- are well-formed; of others the first throws, and the last replaces the lone surrogates.
pub record IsCodec (encode query query_rule : Text → Text) (decode : Text → Option Text)
    : Type 0 where
  pub decoded : (name : Text) → is_well_formed name ≡ true → decode (encode name) ≡ some name
  pub component : (name : Text) → is_well_formed name ≡ true → IsComponent (encode name)
  pub filled : (name : Text) → is_well_formed name ≡ true → is_empty (encode name) ≡ is_empty name
  pub well_formed : (name : Text) → is_some (decode (query name)) ≡ true
  pub found : (name : Text) → is_well_formed name ≡ true → query_rule (query name) ≡ name
  pub written : (name : Text) → is_empty (query name) ≡ false
  pub blank : decode [] ≡ some []
  pub none_found : query_rule [] ≡ []

path_of-component : (s : Text) → IsComponent s → path_of s ≡ s
path_of-component [] h = refl
path_of-component (c ∷ s) (e, h) = ground (arith, path_of-component s h, e)

query_of-component : (s : Text) → IsComponent s → query_of s ≡ []
query_of-component [] h = refl
query_of-component (c ∷ s) (e, h) = ground (arith, query_of-component s h, e)

includes-component : (s : Text) → IsComponent s → includes b'/' s ≡ false
includes-component [] h = refl
includes-component (c ∷ s) (e, h) = ground (arith, includes-component s h, e)

match_rule-component :
    (s : Text) → IsComponent s → is_empty s ≡ false → match_rule (codes "#/rules/" ++ s) ≡ some s
match_rule-component s h e = rw (match_rule, e, includes-component s h) refl

rule_page-read :
    (decode : Text → Option Text) (query_rule : Text → Text) (canonical path component name : Text)
    → match_rule path ≡ some component
    → decode component ≡ some name
    → rule_page decode query_rule canonical path
      ≡ record { kind = rule; hash = canonical; name = some name; rule = [] }
rule_page-read decode query_rule canonical path component name e d = rw (rule_page, e, d) refl

module _ {encode query query_rule : Text → Text} {decode : Text → Option Text} where
  module _ (law : IsCodec encode query query_rule decode) where
    rule_route-read :
        (name : Text)
        → is_well_formed name ≡ true
        → is_empty name ≡ false
        → route_for decode query_rule (rule_route encode query name)
          ≡ record { kind = rule; hash = rule_route encode query name; name = some name; rule = [] }
    unfolding route_for rule_route lookup text_beq
    rule_route-read name w e =
        let h = law.component name w in
        rw (path_of-component (encode name) h, query_of-component (encode name) h, law.blank)
          (rule_page-read decode query_rule (rule_route encode query name)
            (rule_route encode query name) (encode name) name
            (match_rule-component (encode name) h (law.filled name w ∙ e)) (law.decoded name w))

    duplicate_route-read :
        (name : Text)
        → is_well_formed name ≡ true
        → route_for decode query_rule (duplicate_route encode query name) ≡ record {
          kind = new;
          hash = duplicate_route encode query name;
          name = none;
          rule = name;
        }
    unfolding route_for duplicate_route lookup text_beq
    duplicate_route-read name w = rw (law.well_formed name, law.written name, law.found name w) refl

    stats_route-read :
        (page : RulePage) (name : Text)
        → is_well_formed name ≡ true
        → route_for decode query_rule (stats_route encode query page name) ≡ record {
          kind = kind_of page;
          hash = stats_route encode query page name;
          name = none;
          rule = name;
        }
    unfolding route_for stats_route lookup text_beq
    stats_route-read stats [] w = rw (law.blank, law.none_found) refl
    stats_route-read connections [] w = rw (law.blank, law.none_found) refl
    stats_route-read stats (c ∷ name) w =
        rw (law.well_formed (c ∷ name), law.written (c ∷ name), law.found (c ∷ name) w) refl
    stats_route-read connections (c ∷ name) w =
        rw (law.well_formed (c ∷ name), law.written (c ∷ name), law.found (c ∷ name) w) refl

    -- Where well-formed names that are encoded can be decoded: the hashes that the pages link to for a
    -- well-formed name that is not empty are read back as they are, as the page of the rule, the page of a new rule that copies it, and
    -- the pages of its traffic and its connections, which may also be of no rule.
    pub route_for-read :
        (page : RulePage) (name : Text)
        → is_well_formed name ≡ true
        → is_empty name ≡ false
        → (route_for decode query_rule (rule_route encode query name) ≡ record {
          kind = rule;
          hash = rule_route encode query name;
          name = some name;
          rule = [];
        })
          × (route_for decode query_rule (duplicate_route encode query name) ≡ record {
            kind = new;
            hash = duplicate_route encode query name;
            name = none;
            rule = name;
          })
          × (route_for decode query_rule (stats_route encode query page name) ≡ record {
            kind = kind_of page;
            hash = stats_route encode query page name;
            name = none;
            rule = name;
          })
          × ((route_for decode query_rule (stats_route encode query page [])).rule ≡ [])
    route_for-read page name w e = (
      rule_route-read name w e,
      duplicate_route-read name w,
      stats_route-read page name w,
      ap (λ (r : Route). r.rule) (stats_route-read page [] refl),
    )
