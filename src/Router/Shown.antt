-- ===== src/Router/Shown.antt =====
-- The page that is shown and the address that the browser shows agree.
use jumpway.Prelude.{
  ℕ, suc, Bool, true, false, not, ◌&&◌, ◌||◌, List, [], ◌∷◌, Option, none, some, is_some, get_or,
  Text, nat_beq, nat_beq_iff, ◌==◌, text_eq, ==_iff, ◌≡◌, inl, inr, refl, sym, ap, ◌∙◌, arith,
  Bool-cases, Option-cases,
}
use jumpway.Router.{
  Route, RouterState, View, is_at, position_of, sync, canonicalise, restore, on_popstate, pop,
  start, commit, navigate, confirmed, stop,
}

-- While the router listens, either the browser is on the accepted entry, under the hash of the page
-- that is shown, or it is on its way back there.
pub record IsShown (s : RouterState) : Type 0 where
  pub agrees :
      s.listening ≡ true
      → s.expected ≡ none
      → (s.location ≡ s.route.hash) × (s.position ≡ some s.accepted)
  pub returns : (i : ℕ) → s.expected ≡ some i → i ≡ s.accepted

pub data RouterEvent : Type 0 where
  starts stops : RouterEvent
  pops : View → Text → Option ℕ → RouterEvent
  navigates : View → Text → Bool → RouterEvent
  confirms : View → ℕ → Text → Bool → Bool → RouterEvent

canonicalise-lands :
    (idx : ℕ) (hash : Text) (s : RouterState)
    → ((canonicalise idx hash s).location ≡ hash) × ((canonicalise idx hash s).position ≡ some idx)
unfolding canonicalise
canonicalise-lands idx hash s = elim (Option-cases s.position) [
  | inl unstamped ↦ ground (arith, ==_iff s.location hash)
  | inr (i, e) ↦ ground (arith, ==_iff s.location hash, nat_beq_iff i idx)
]

canonicalise-keeps :
    (idx : ℕ) (hash : Text) (s : RouterState)
    → ((canonicalise idx hash s).route ≡ s.route)
      × ((canonicalise idx hash s).accepted ≡ s.accepted)
      × ((canonicalise idx hash s).expected ≡ s.expected)
      × ((canonicalise idx hash s).listening ≡ s.listening)
unfolding canonicalise
canonicalise-keeps idx hash s = ground arith

-- Where the browser is put on the accepted entry, nothing is awaited.
canonicalise-IsShown :
    (idx : ℕ) (hash : Text) (s : RouterState)
    → s.accepted ≡ idx
    → s.route.hash ≡ hash
    → s.expected ≡ none
    → IsShown (canonicalise idx hash s)
canonicalise-IsShown idx hash s a h n =
    let (l, p) = canonicalise-lands idx hash s in
    let (r, k, e, _) = canonicalise-keeps idx hash s in
    let same_hash = ap (λ (x : Route). x.hash) r in
    record {
      agrees = λ on idle. (l ∙ sym h ∙ sym same_hash, p ∙ ap some (sym a ∙ sym k));
      returns = λ i f. absurd (cc (e, n, f));
    }

not_some : (o : Option ℕ) → is_some o ≡ false → o ≡ none
not_some none e = refl
not_some (some i) e = ground arith

stamped : (o : Option ℕ) (accepted : ℕ) → o ≡ some accepted → accepted ≡ get_or o (suc accepted)
stamped none accepted e = ground arith
stamped (some i) accepted e = ground arith

unheard :
    (idx : ℕ) (hash : Text) (s : RouterState)
    → s.listening ≡ false
    → s.expected ≡ none
    → IsShown (canonicalise idx hash s)
unheard idx hash s off n =
    let (r, k, e, same) = canonicalise-keeps idx hash s in
    record {
      agrees = λ on idle. absurd (cc (on, off, same));
      returns = λ i f. absurd (cc (e, n, f));
    }

restore-IsShown : (idx : ℕ) (s : RouterState) → s.expected ≡ none → IsShown (restore idx s)
unfolding restore
restore-IsShown idx s n = elim (Bool-cases (nat_beq s.accepted idx)) [
  | inl same ↦
      rw same (canonicalise-IsShown idx s.route.hash s ((nat_beq_iff s.accepted idx).0 same) refl n)
  | inr away ↦ rw away (record { agrees = λ on idle. absurd (cc idle); returns = λ i f. cc })
]

module _ (route_of : Text → Route) where
  abbrev pub step : RouterEvent → RouterState → RouterState
  step starts s = start route_of s
  step stops s = stop s
  step (pops v hash position) s = pop route_of v hash position s
  step (navigates v hash replace) s = navigate route_of v hash replace s
  step (confirms v started hash replace ok) s = confirmed route_of v started hash replace ok s

  on_popstate-IsShown : (v : View) (s : RouterState) → IsShown (on_popstate route_of v s)
  unfolding on_popstate
  on_popstate-IsShown v s =
      let idx = position_of s in
      let to = route_of s.location in
      elim (Bool-cases (is_at s.expected idx || to.hash == s.route.hash)) [
        | inl back ↦ rw back (canonicalise-IsShown idx s.route.hash _ refl refl refl)
        | inr away ↦ elim (Bool-cases (v.busy || s.prompting || (v.dirty && not v.discards))) [
          | inl held ↦ rw (away, held) (restore-IsShown idx _ refl)
          | inr free ↦ rw (away, free) (canonicalise-IsShown idx to.hash _ refl refl refl)
        ]
      ]

  pop-IsShown :
      (v : View) (hash : Text) (position : Option ℕ) (s : RouterState)
      → IsShown s
      → IsShown (pop route_of v hash position s)
  unfolding pop
  pop-IsShown v hash position s h = elim (Bool-cases s.listening) [
    | inl on ↦ rw on (on_popstate-IsShown v _)
    | inr off ↦
        rw off (record { agrees = λ on idle. absurd (cc on); returns = λ i f. h.returns i f })
  ]

  start-IsShown : (s : RouterState) → IsShown (start route_of s)
  unfolding start
  start-IsShown s =
      canonicalise-IsShown (get_or s.position 0) (route_of s.location).hash _ refl refl refl

  commit-IsShown :
      (replace : Bool) (to : Route) (s : RouterState)
      → s.expected ≡ none
      → IsShown (commit route_of replace to s)
  unfolding commit
  commit-IsShown replace to s n = record { agrees = λ on idle. (refl, refl); returns = λ i f. cc }

  navigate-IsShown :
      (v : View) (hash : Text) (replace : Bool) (s : RouterState)
      → IsShown s
      → IsShown (navigate route_of v hash replace s)
  unfolding navigate
  navigate-IsShown v hash replace s h =
      let to = route_of hash in
      elim (Bool-cases (to.hash == s.route.hash)) [
        | inl here ↦ elim (Bool-cases (is_some s.expected)) [
          | inr free ↦
              let idle = not_some s.expected free in
              rw (here, free)
                (elim (Bool-cases s.listening) [
                  | inl on ↦
                      canonicalise-IsShown (position_of s) s.route.hash (sync s)
                        (stamped s.position s.accepted (h.agrees on idle).1) refl idle
                  | inr off ↦ unheard (position_of s) s.route.hash (sync s) off idle
                ])
          | inl away ↦ rw (here, away) h
        ]
        | inr there ↦ elim (Bool-cases (v.busy || s.prompting || is_some s.expected)) [
          | inl held ↦ rw (there, held) h
          | inr free ↦ elim (Bool-cases v.dirty) [
            | inl asks ↦ rw (there, free, asks) (record { agrees = h.agrees; returns = h.returns })
            | inr clean ↦ rw (there, free, clean) (commit-IsShown replace to s (ground arith))
          ]
        ]
      ]

  confirmed-IsShown :
      (v : View) (started : ℕ) (hash : Text) (replace ok : Bool) (s : RouterState)
      → IsShown s
      → IsShown (confirmed route_of v started hash replace ok s)
  unfolding confirmed
  confirmed-IsShown v started hash replace ok s h = elim (Bool-cases (nat_beq s.epoch started)) [
    | inr late ↦ rw late h
    | inl same ↦ elim (Bool-cases (not ok || v.busy || is_some s.expected)) [
      | inl refused ↦ rw (same, refused) (record { agrees = h.agrees; returns = h.returns })
      | inr go ↦ rw (same, go) (commit-IsShown replace (route_of hash) _ (ground arith))
    ]
  ]

  stop-IsShown : (s : RouterState) → IsShown s → IsShown (stop s)
  unfolding stop
  stop-IsShown s h = record { agrees = λ on idle. absurd (cc on); returns = h.returns }

  step-IsShown : (e : RouterEvent) (s : RouterState) → IsShown s → IsShown (step e s)
  step-IsShown starts s h = start-IsShown s
  step-IsShown stops s h = stop-IsShown s h
  step-IsShown (pops v hash position) s h = pop-IsShown v hash position s h
  step-IsShown (navigates v hash replace) s h = navigate-IsShown v hash replace s h
  step-IsShown (confirms v started hash replace ok) s h =
      confirmed-IsShown v started hash replace ok s h

  abbrev pub run : List RouterEvent → RouterState → RouterState
  run [] s = s
  run (e ∷ es) s = run es (step e s)

run-keeps :
    (route_of : Text → Route) (es : List RouterEvent) (s : RouterState)
    → IsShown s
    → IsShown (run route_of es s)
run-keeps route_of [] s h = h
run-keeps route_of (e ∷ es) s h =
    run-keeps route_of es (step route_of e s) (step-IsShown route_of e s h)

-- Once the router has started, whatever events follow and in whatever order, the browser is on the
-- entry of the page that is shown, under its hash, as long as the router listens and no way back is
-- awaited; and a way back that is awaited leads to that entry.
pub run-IsShown :
    (route_of : Text → Route) (es : List RouterEvent) (s : RouterState)
    → IsShown (run route_of es (start route_of s))
run-IsShown route_of es s = run-keeps route_of es (start route_of s) (start-IsShown route_of s)

-- While a task runs, a confirmation is open, or unsaved changes are kept, going through the history
-- leaves the page as it is.
pub pop-keeps_route :
    (route_of : Text → Route) (v : View) (hash : Text) (position : Option ℕ) (s : RouterState)
    → (v.busy || s.prompting || (v.dirty && not v.discards)) ≡ true
    → (pop route_of v hash position s).route ≡ s.route
unfolding pop on_popstate restore canonicalise
pop-keeps_route route_of v hash position s h = ground arith
