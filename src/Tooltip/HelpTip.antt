-- ===== src/Tooltip/HelpTip.antt =====
-- app/web/ui/src/lib/components/ui/HelpTip.svelte: the question mark whose definition is pinned by a click.
use jumpway.Prelude.{
  ℕ, Bool, true, false, ◌||◌, List, [], ◌∷◌, Option, none, some, is_empty, Text, nat_beq,
  nat_beq_iff, if◌then◌else◌, ◌≡◌, refl, inl, inr, arith, All, Bool-cases,
}
use jumpway.Tooltip.{
  Tooltip, is_owner, hide_tooltip, show, show_tooltip, release_tooltip, TooltipEvent, leaves,
  hidden,
}
use jumpway.Tooltip

-- The button has the number `node`; `tip` is the page's tooltip.
pub record HelpTip : Type 0 where
  pub tip : Tooltip
  pub node : ℕ
  pub text : Text
  pub pinned : Bool

abbrev pub same_owner : Option ℕ → Option ℕ → Bool
same_owner none none = true
same_owner (some m) (some n) = nat_beq m n
same_owner _ _ = false

-- The effect on the owner, which runs when that has changed.
unfoldable pub unpin : Option ℕ → HelpTip → HelpTip
unpin before s = record s {
  pinned = if same_owner before s.tip.owner || is_owner s.node s.tip.owner then s.pinned else false;
}

pub data HelpTipEvent : Type 0 where
  clicks enters leaves_button blurs presses_outside : HelpTipEvent
  translates : Text → HelpTipEvent
  -- What becomes of the tooltip elsewhere on the page.
  others : TooltipEvent → HelpTipEvent

-- By whether the definition is pinned.
abbrev pub toggled : Bool → HelpTip → HelpTip
toggled true s = record s { tip = hide_tooltip s.tip }
toggled false s = record s { tip = show_tooltip s.node s.text s.tip; pinned = true }

unfoldable pub toggle : HelpTip → HelpTip
unfolding hide_tooltip show_tooltip
toggle s = toggled s.pinned s

-- A change of the language: what is shown is shown anew.
unfoldable pub translate : Text → HelpTip → HelpTip
unfolding show_tooltip
translate text s = record s {
  text = text;
  tip = if is_owner s.node s.tip.owner then show_tooltip s.node text s.tip else s.tip;
}

abbrev pub act : HelpTipEvent → HelpTip → HelpTip
act clicks s = toggle s
act enters s = record s { tip = show_tooltip s.node s.text s.tip }
act leaves_button s = record s { tip = if s.pinned then s.tip else release_tooltip s.node s.tip }
act blurs s = record s { tip = release_tooltip s.node s.tip }
act presses_outside s = record s { tip = if s.pinned then hide_tooltip s.tip else s.tip }
act (translates text) s = translate text s
act (others e) s = record s { tip = Tooltip.step e s.tip }

abbrev pub step : HelpTipEvent → HelpTip → HelpTip
step e s = unpin s.tip.owner (act e s)

abbrev pub run : List HelpTipEvent → HelpTip → HelpTip
run [] s = s
run (e ∷ es) s = run es (step e s)

abbrev pub unpinned : ℕ → Text → (ℕ → List Text) → HelpTip
unpinned node text tokens = record { tip = hidden tokens; node = node; text = text; pinned = false }

-- A definition is pinned only while the tooltip shows it.
pub record IsPinned (s : HelpTip) : Type 0 where
  pub owns : s.pinned ≡ true → is_owner s.node s.tip.owner ≡ true
  pub has_text : is_empty s.text ≡ false

abbrev pub HasText : HelpTipEvent → Type 0
HasText (translates text) = is_empty text ≡ false
HasText _ = Unit

show-owner :
    (node : ℕ) (text : Text) (t : Tooltip)
    → is_empty text ≡ false
    → is_owner node (show_tooltip node text t).owner ≡ true
unfolding show_tooltip show
show-owner node [] t h = absurd (cc h)
show-owner node (c ∷ text) t h = (nat_beq_iff node node).1 refl

same_owner-owns :
    (node : ℕ) (before after : Option ℕ)
    → same_owner before after ≡ true
    → is_owner node before ≡ true
    → is_owner node after ≡ true
same_owner-owns node none none e h = h
same_owner-owns node none (some n) e h = absurd (cc e)
same_owner-owns node (some m) none e h = absurd (cc e)
same_owner-owns node (some m) (some n) e h = ground (arith, e, h)

-- What an event leaves pinned is shown after the effect, if it is where the owner has not changed.
unpin-IsPinned :
    (before : Option ℕ) (s : HelpTip)
    → (s.pinned ≡ true → same_owner before s.tip.owner ≡ true → is_owner s.node s.tip.owner ≡ true)
    → is_empty s.text ≡ false
    → IsPinned (unpin before s)
unfolding unpin
unpin-IsPinned before s h t = record {
  owns = λ p. elim (Bool-cases (same_owner before s.tip.owner)) [
    | inl e ↦ h (ground (arith, p, e)) e
    | inr e ↦ ground (arith, p, e)
  ];
  has_text = t;
}

-- What was pinned before is still shown where the owner has not changed.
kept :
    (s : HelpTip) (tip : Tooltip)
    → IsPinned s
    → s.pinned ≡ true
    → same_owner s.tip.owner tip.owner ≡ true
    → is_owner s.node tip.owner ≡ true
kept s tip h p e = same_owner-owns s.node s.tip.owner tip.owner e (h.owns p)

toggled-IsPinned :
    (pinned : Bool) (s : HelpTip) → IsPinned s → IsPinned (unpin s.tip.owner (toggled pinned s))
toggled-IsPinned true s h =
    unpin-IsPinned s.tip.owner (toggled true s) (λ p. kept s (hide_tooltip s.tip) h p) h.has_text
toggled-IsPinned false s h =
    unpin-IsPinned s.tip.owner (toggled false s) (λ p q. show-owner s.node s.text s.tip h.has_text)
      h.has_text

step-IsPinned : (e : HelpTipEvent) (s : HelpTip) → HasText e → IsPinned s → IsPinned (step e s)
unfolding translate toggle
step-IsPinned clicks s t h = toggled-IsPinned s.pinned s h
step-IsPinned enters s t h =
    unpin-IsPinned s.tip.owner (act enters s) (λ p. kept s (act enters s).tip h p) h.has_text
step-IsPinned leaves_button s t h =
    unpin-IsPinned s.tip.owner (act leaves_button s) (λ p. kept s (act leaves_button s).tip h p)
      h.has_text
step-IsPinned blurs s t h =
    unpin-IsPinned s.tip.owner (act blurs s) (λ p. kept s (act blurs s).tip h p) h.has_text
step-IsPinned presses_outside s t h =
    unpin-IsPinned s.tip.owner (act presses_outside s) (λ p. kept s (act presses_outside s).tip h p)
      h.has_text
step-IsPinned (translates text) s t h =
    unpin-IsPinned s.tip.owner (translate text s) (λ p. kept s (translate text s).tip h p) t
step-IsPinned (others e) s t h =
    unpin-IsPinned s.tip.owner (act (others e) s) (λ p. kept s (act (others e) s).tip h p)
      h.has_text

run-keeps :
    (es : List HelpTipEvent) (s : HelpTip) → All HasText es → IsPinned s → IsPinned (run es s)
run-keeps [] s t h = h
run-keeps (e ∷ es) s (t, ts) h = run-keeps es (step e s) ts (step-IsPinned e s t h)

-- Where the definition always has a text: whatever happens to the question mark and to the tooltip, in whatever
-- order, the definition is pinned only while the tooltip is the question mark's.
run-IsPinned :
    (es : List HelpTipEvent) (node : ℕ) (text : Text) (tokens : ℕ → List Text)
    → All HasText es
    → is_empty text ≡ false
    → IsPinned (run es (unpinned node text tokens))
run-IsPinned es node text tokens ts t =
    run-keeps es (unpinned node text tokens) ts (record { owns = λ p. absurd (cc p); has_text = t })
