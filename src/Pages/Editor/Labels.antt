-- ===== src/Pages/Editor/Labels.antt =====
-- app/web/ui/src/routes/RuleEditorPage.svelte: what the page shows of a draft beside its fields.
use jumpway.Prelude.{
  ℕ, Bool, false, ◌&&◌, ◌||◌, List, [], ◌∷◌, Option, none, some, get_or, list, Text, codes, trim,
  nat_beq, if◌then◌else◌,
}
use jumpway.Wire.{WayHop}
use jumpway.Way.{nonempty}
use jumpway.Draft.{RuleDraft, way_of}
use jumpway.Endpoint.{virtual_address, host_port, typed, or_text, listen, forward, virtual_channels}
use jumpway.ReadRule.{is_forwarding, is_virtual}
use jumpway.Api.{ApiError, starts_with}
use jumpway.Pages.Editor.{Editor}

abbrev pub is_listen_virtual : RuleDraft → Bool
is_listen_virtual d = is_virtual d.listen.kind

abbrev pub is_target_virtual : RuleDraft → Bool
is_target_virtual d = is_forwarding d && is_virtual d.target.kind

-- `savedName ?? t('newRule')`
abbrev pub editor_title : Text → Editor → Text
editor_title new_rule s = get_or s.saved_name new_rule

unfoldable pub listen_label : RuleDraft → Text
unfolding trim host_port
listen_label d =
    if is_listen_virtual d
    then virtual_address (trim d.listen.virtual)
    else host_port (some (trim d.listen.host))
        (some (typed (or_text (trim d.listen.port) (codes "0"))))

unfoldable pub target_label : RuleDraft → Text
unfolding trim host_port
target_label d =
    if is_target_virtual d
    then virtual_address (trim d.target.virtual)
    else if is_forwarding d && nonempty (trim d.target.port)
    then host_port (some (trim d.target.host)) (some (typed (trim d.target.port)))
    else []

unfoldable pub listen_way : RuleDraft → List WayHop
unfolding way_of
listen_way d = if is_listen_virtual d then [] else way_of d.listen.way

unfoldable pub forward_way : RuleDraft → List WayHop
unfolding way_of
forward_way d = if is_target_virtual d then [] else way_of d.forward_way

abbrev self : Editor → Text
self s = get_or s.saved_name []

unfoldable pub listen_channels : Editor → List Text
unfolding virtual_channels
listen_channels s = virtual_channels (list s.peers) listen (self s)

unfoldable pub target_channels : Editor → List Text
unfolding virtual_channels
target_channels s = virtual_channels (list s.peers) forward (self s)

-- `/not found/`
abbrev says_not_found : Text → Bool
says_not_found [] = false
says_not_found (c ∷ s) = starts_with (codes "not found") (c ∷ s) || says_not_found s

abbrev is_status : ℕ → Option ℕ → Bool
is_status code none = false
is_status code (some status) = nat_beq status code

abbrev refused_unknown : Option ApiError → Bool
refused_unknown none = false
refused_unknown (some e) = is_status 400 e.status && says_not_found e.message

unfoldable pub not_found : Editor → Bool
not_found s = refused_unknown s.load_error
