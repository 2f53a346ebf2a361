-- ===== src/Connections/Labels.antt =====
-- app/web/ui/src/lib/connections.ts: the text of the route that a connection takes. `translate` is `t` of a
-- key, and `numbered` is `t('hop', { number })`.
use jumpway.Prelude.{
  ℕ, suc, List, [], ◌∷◌, ◌++◌, map, Option, list, Text, codes, is_empty, if◌then◌else◌,
}
use jumpway.Endpoint.{or_text}
use jumpway.Hosts.{Parser, display_url}
use jumpway.Shell.Chain.{join_texts, arrow}
use jumpway.Stats.{PathHop}
use jumpway.StatsRows.Sorting.{reverse}

module _ (parser : Parser) (translate : Text → Text) (numbered : ℕ → Text) where
  abbrev hop_label : PathHop → Text
  hop_label h =
      (if is_empty h.url then numbered (suc h.index) else display_url parser h.url)
      ++ (if h.dialed then [] else codes " (" ++ (translate (codes "reused") ++ codes ")"))

  unfoldable pub format_connection_path : Option (List PathHop) → Text → Text
  unfolding display_url reverse
  format_connection_path path target =
      if is_empty (list path)
      then translate (codes "direct")
      else join_texts arrow (
          translate (codes "chainLocal")
          ∷ (map hop_label (reverse (list path))
              ++ or_text target (translate (codes "chainTarget")) ∷ []))
