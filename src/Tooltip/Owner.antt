-- ===== src/Tooltip/Owner.antt =====
-- Which elements are described by the tooltip.
use jumpway.Prelude.{
  ℕ, zero, suc, Bool, true, false, not, ◌&&◌, List, [], ◌∷◌, ◌++◌, Option, none, some, is_some,
  Text, text_eq, text_beq, any, is_empty, nat_beq, ltb, if◌then◌else◌, ◌≡◌, refl, arith, inl, inr,
  Bool-cases,
}
use jumpway.Tooltip.{
  Tooltip, tooltip_id, is_owner, is_tooltip, with_token, without_token, describe, undescribe,
  undescribed, hide_tooltip, given_up, show, show_tooltip, release_tooltip, flush, retain, release,
  TooltipEvent, mounts, enters, updates, leaves, destroys, dismisses, runs, update, dismiss, step,
  run, hidden,
}

without_token-other : (ts : List Text) → any is_tooltip ts ≡ false → without_token ts ≡ ts
without_token-other [] h = refl
without_token-other (t ∷ ts) h = ground (arith, without_token-other ts)

without_token-last :
    (ts : List Text) → any is_tooltip ts ≡ false → without_token (ts ++ tooltip_id ∷ []) ≡ ts
unfolding text_beq
without_token-last [] h = refl
without_token-last (t ∷ ts) h = ground (arith, without_token-last ts)

any-last : (ts : List Text) → any is_tooltip (ts ++ tooltip_id ∷ []) ≡ true
unfolding text_beq
any-last [] = refl
any-last (t ∷ ts) = ground (arith, any-last ts)

-- The tokens of an element: its own, and behind them the tooltip's if it is the owner.
abbrev pub described : Bool → List Text → List Text
described false own = own
described true own = own ++ tooltip_id ∷ []

module _ (own : ℕ → List Text) where
  -- The owner alone is described by the tooltip, which has a text exactly while there is an owner; the
  -- page is listened to while something may show it.
  pub record IsOwned (s : Tooltip) : Type 0 where
    pub tokens : (n : ℕ) → s.tokens n ≡ described (is_owner n s.owner) (own n)
    pub texts : is_some s.owner ≡ not (is_empty s.text)
    pub listening : s.listening ≡ ltb 0 s.hosts

  module _ (free : (n : ℕ) → any is_tooltip (own n) ≡ false) where
    with_token-described :
        (b : Bool) (n : ℕ) → with_token (described b (own n)) ≡ described true (own n)
    with_token-described false n = rw free refl
    with_token-described true n = rw (any-last (own n)) refl

    without_token-described : (b : Bool) (n : ℕ) → without_token (described b (own n)) ≡ own n
    without_token-described false n = without_token-other (own n) (free n)
    without_token-described true n = without_token-last (own n) (free n)

    undescribed-tokens :
        (o : Option ℕ) (tokens : ℕ → List Text)
        → ((n : ℕ) → tokens n ≡ described (is_owner n o) (own n))
        → (n : ℕ) → undescribed o tokens n ≡ own n
    unfolding undescribe
    undescribed-tokens none tokens h n = h n
    undescribed-tokens (some owner) tokens h n = elim (Bool-cases (nat_beq owner n)) [
      | inl q ↦ rw (q, h) (without_token-described (nat_beq owner n) n)
      | inr q ↦ rw (q, h, q) refl
    ]

    given_up-tokens :
        (o : Option ℕ) (node : ℕ) (tokens : ℕ → List Text)
        → ((n : ℕ) → tokens n ≡ described (is_owner n o) (own n))
        → (n : ℕ) → describe node (given_up o node tokens) n ≡ described (nat_beq node n) (own n)
    unfolding describe undescribe
    given_up-tokens none node tokens h n = elim (Bool-cases (nat_beq node n)) [
      | inl q ↦ rw (q, h) (with_token-described false n)
      | inr q ↦ rw (q, h) refl
    ]
    given_up-tokens (some owner) node tokens h n = elim (Bool-cases (nat_beq owner node)) [
      | inl same ↦ elim (Bool-cases (nat_beq node n)) [
        | inl q ↦ rw (same, q, h) (with_token-described (nat_beq owner n) n)
        | inr q ↦
            let r : nat_beq owner n ≡ false = ground (arith, same, q) in rw (same, q, h, r) refl
      ]
      | inr apart ↦ elim (Bool-cases (nat_beq node n)) [
        | inl q ↦
            let r : nat_beq owner n ≡ false = ground (arith, apart, q) in
            rw (apart, q, r, h, r) (with_token-described false n)
        | inr q ↦ rw (apart, q) (undescribed-tokens (some owner) tokens h n)
      ]
    ]

    hide-IsOwned : (s : Tooltip) → IsOwned s → IsOwned (hide_tooltip s)
    unfolding hide_tooltip
    hide-IsOwned s h = record {
      tokens = undescribed-tokens s.owner s.tokens h.tokens;
      texts = refl;
      listening = h.listening;
    }

    branch-IsOwned :
        (b : Bool) (s t : Tooltip) → IsOwned s → IsOwned t → IsOwned (if b then s else t)
    branch-IsOwned true s t h k = h
    branch-IsOwned false s t h k = k

    show-IsOwned : (node : ℕ) (value : Text) (s : Tooltip) → IsOwned s → IsOwned (show node value s)
    unfolding show
    show-IsOwned node [] s h =
        branch-IsOwned (is_owner node s.owner) (hide_tooltip s) s (hide-IsOwned s h) h
    show-IsOwned node (c ∷ value) s h = record {
      tokens = given_up-tokens s.owner node s.tokens h.tokens;
      texts = refl;
      listening = h.listening;
    }

    show_tooltip-IsOwned :
        (node : ℕ) (value : Text) (s : Tooltip) → IsOwned s → IsOwned (show_tooltip node value s)
    unfolding show_tooltip
    show_tooltip-IsOwned node value s h =
        show-IsOwned node value _
          (record { tokens = h.tokens; texts = h.texts; listening = h.listening })

    deferred-IsOwned :
        (deferred : List (ℕ × ℕ)) (s : Tooltip)
        → IsOwned s
        → IsOwned (record s { deferred = deferred })
    deferred-IsOwned deferred s h = record {
      tokens = h.tokens;
      texts = h.texts;
      listening = h.listening;
    }

    release_tooltip-IsOwned :
        (node : ℕ) (s : Tooltip) → IsOwned s → IsOwned (release_tooltip node s)
    unfolding release_tooltip
    release_tooltip-IsOwned node s h =
        branch-IsOwned (is_owner node s.owner) _ s (deferred-IsOwned _ s h) h

    flush-IsOwned : (deferred : List (ℕ × ℕ)) (s : Tooltip) → IsOwned s → IsOwned (flush deferred s)
    flush-IsOwned [] s h = h
    flush-IsOwned ((node, token) ∷ rest) s h =
        let left = deferred-IsOwned rest s h in
        branch-IsOwned (is_owner node s.owner && nat_beq s.activation token) _ _
          (hide-IsOwned _ left) left

    retain-IsOwned : (s : Tooltip) → IsOwned s → IsOwned (retain s)
    unfolding retain
    retain-IsOwned s h = record {
      tokens = h.tokens;
      texts = h.texts;
      listening = ground (arith, h.listening);
    }

    release-IsOwned :
        (hosts : ℕ) (s : Tooltip) → s.hosts ≡ hosts → IsOwned s → IsOwned (release hosts s)
    release-IsOwned zero s e h = h
    release-IsOwned (suc n) s e h = record {
      tokens = h.tokens;
      texts = h.texts;
      listening = ground (arith, h.listening, e);
    }

    update-IsOwned :
        (b : Bool) (node : ℕ) (value : Text) (s : Tooltip)
        → IsOwned s
        → IsOwned (update b node value s)
    update-IsOwned false node value s h = h
    update-IsOwned true node value s h = show-IsOwned node value s h

    dismiss-IsOwned : (b : Bool) (s : Tooltip) → IsOwned s → IsOwned (dismiss b s)
    dismiss-IsOwned false s h = h
    dismiss-IsOwned true s h = hide-IsOwned s h

    step-IsOwned : (e : TooltipEvent) (s : Tooltip) → IsOwned s → IsOwned (step e s)
    step-IsOwned mounts s h = retain-IsOwned s h
    step-IsOwned (enters node value) s h = show_tooltip-IsOwned node value s h
    step-IsOwned (updates node value) s h = update-IsOwned (is_owner node s.owner) node value s h
    step-IsOwned (leaves node) s h = release_tooltip-IsOwned node s h
    step-IsOwned (destroys node) s h =
        release-IsOwned _ (release_tooltip node s) refl (release_tooltip-IsOwned node s h)
    step-IsOwned dismisses s h = dismiss-IsOwned s.listening s h
    step-IsOwned runs s h = flush-IsOwned s.deferred s h

    run-keeps : (es : List TooltipEvent) (s : Tooltip) → IsOwned s → IsOwned (run es s)
    run-keeps [] s h = h
    run-keeps (e ∷ es) s h = run-keeps es (step e s) (step-IsOwned e s h)

    -- Where no element has the tooltip's token of its own: whatever happens, in whatever order, the tokens
    -- of every element are its own, with the tooltip's behind them exactly if it is the owner; the tooltip
    -- has a text exactly while it has an owner, and the page is listened to exactly while hosts are set up.
    pub run-IsOwned : (es : List TooltipEvent) → IsOwned (run es (hidden own))
    run-IsOwned es =
        run-keeps es (hidden own) (record { tokens = λ n. refl; texts = refl; listening = refl })
