-- ===== src/Shell/Chain.antt =====
-- app/web/ui/src/lib/rule.ts, the labels of hops, and components/rules/ChainFlow.svelte, the stages of a chain.
use jumpway.Prelude.{
  ℕ, zero, suc, ◌+◌, Bool, true, false, not, ◌&&◌, List, [], ◌∷◌, ◌++◌, Option, none, some, get_or,
  Text, codes, decimal, is_empty, length, nat_beq, if◌then◌else◌,
}
use jumpway.Endpoint.{or_text}
use jumpway.StatsRows.Sorting.{reverse}
use jumpway.Wire.{WayHop}

-- ` \u00b7 ` and ` \u2192 `
abbrev separator : Text
separator = b' ' ∷ 0xb7 ∷ b' ' ∷ []

abbrev pub arrow : Text
arrow = b' ' ∷ 0x2192 ∷ b' ' ∷ []

-- `parts.join(between)`
abbrev pub join_texts : Text → List Text → Text
join_texts between [] = []
join_texts between (part ∷ []) = part
join_texts between (part ∷ next ∷ parts) = part ++ (between ++ join_texts between (next ∷ parts))

pub data Role : Type 0 where
  listen forward : Role

-- A stage of the diagram.
pub record HopStage : Type 0 where
  pub role : Role
  pub index : ℕ
  pub urls : List Text

pub record Stage : Type 0 where
  pub key : Text
  pub title : Text
  pub detail : Option Text
  pub urls : List Text
  pub hop : Option HopStage

module _ (translate : Text → Text) (numbered : ℕ → Text) where
  abbrev hops_down : ℕ → List Text
  hops_down zero = []
  hops_down (suc n) = numbered (suc n) ∷ hops_down n

  unfoldable pub chain_summary : ℕ → Text → Text
  chain_summary hops target =
      if nat_beq hops 0 && is_empty target
      then translate (codes "direct")
      else join_texts arrow (
          translate (codes "chainLocal")
          ∷ (hops_down hops ++ or_text target (translate (codes "chainTarget")) ∷ []))

  abbrev if_text : Bool → Text → List Text
  if_text true s = s ∷ []
  if_text false s = []

  -- `roles.first` and `roles.last`
  unfoldable pub hop_title : ℕ → ℕ → Text → Text → Text
  hop_title index count first last = join_texts separator (
      numbered (index + 1)
      ∷ (if_text (nat_beq index 0) (translate first)
          ++ if_text (nat_beq (index + 1) count) (translate last)))

  abbrev first_label : Role → Text
  first_label listen = codes "hopBinds"
  first_label forward = codes "hopExit"

  abbrev is_forward_role : Role → Bool
  is_forward_role listen = false
  is_forward_role forward = true

  unfoldable pub stage_title : ℕ → ℕ → Role → Text
  stage_title index count role =
      let is_last = nat_beq (index + 1) count in
      join_texts separator (
        numbered (index + 1)
        ∷ (if_text (nat_beq index 0) (translate (first_label role))
            ++ (if_text (is_last && is_forward_role role && not (nat_beq index 0))
                  (translate (codes "hopEntry"))
                ++ if_text is_last (translate (codes "hopDialed")))))

  abbrev role_key : Role → Text
  role_key listen = codes "listen-"
  role_key forward = codes "forward-"

  -- The stages of the hops of a way, from an index on.
  abbrev pub hop_stages : Role → ℕ → ℕ → List WayHop → List Stage
  hop_stages role count index [] = []
  hop_stages role count index (entry ∷ entries) =
      (record {
        key = role_key role ++ decimal index;
        title = stage_title index count role;
        detail = none;
        urls = entry.lb;
        hop = some (record { role = role; index = index; urls = entry.lb });
      })
      ∷ hop_stages role count (suc index) entries

  abbrev plain_stage : Text → Text → Option Text → Stage
  plain_stage key title detail = record {
    key = key;
    title = title;
    detail = detail;
    urls = [];
    hop = none;
  }

  abbrev exit_stages : List WayHop → List Stage
  exit_stages [] = plain_stage (codes "direct") (translate (codes "directStage")) none ∷ []
  exit_stages (entry ∷ entries) =
      let way = entry ∷ entries in reverse (hop_stages forward (length way) 0 way)

  -- From the clients to the target; `target_title` may be absent.
  unfoldable pub stages : List WayHop → List WayHop → Text → Text → Option Text → List Stage
  unfolding stage_title reverse
  stages listen_way forward_way target address target_title =
      let remote = not (is_empty listen_way) in
      plain_stage (codes "clients") (translate (codes "clients"))
        (if remote then some address else none)
      ∷ (hop_stages listen (length listen_way) 0 listen_way
          ++ plain_stage (codes "local") (translate (codes "thisMachine"))
              (if remote then none else some address)
            ∷ (exit_stages forward_way
                ++ plain_stage (codes "target") (get_or target_title (translate (codes "target")))
                    (some (or_text target (translate (codes "chainTarget"))))
                  ∷ []))
