-- ===== src/Moved/Links.antt =====
-- What the notice of a moved server may show.
use jumpway.Prelude.{
  ℕ, Bool, true, false, not, ◌&&◌, List, [], ◌∷◌, Option, none, some, is_some, Text, is_empty,
  if◌then◌else◌, text_eq, ◌≡◌, inl, inr, arith, Bool-cases, Option-cases,
}
use jumpway.Way.{nonempty}
use jumpway.Settings.{Urls, address_url, listener_url, same_address, moved_href, MovedLinkOptions}
use jumpway.Status.{Status}
use jumpway.Moved.Target.{IsUrls, IsSoundLink, link_for-IsSoundLink}
use jumpway.Moved.{
  MovedLink, MovedNotice, unconfirmed, MovedState, cleared, link_of, begin_write, link_for, claim,
  bound, or_link, settled_claim, from_status, from_write, after_refresh, record_write, uncertain,
  reconcile,
}

-- What can happen to the notice.
pub data MovedEvent : Type 0 where
  clears : MovedEvent
  begins : ℕ → MovedEvent
  records : Text → Bool → MovedEvent
  refreshes : Option Status → MovedEvent
  fails : Text → MovedEvent
  reports : Status → ℕ → MovedEvent

module _ (urls : Urls) where
  abbrev pub IsSound : Text → Option MovedNotice → Type 0
  IsSound host none = Unit
  IsSound host (some n) = IsSoundLink urls host (link_of n)

  abbrev pub step : MovedLinkOptions → MovedEvent → MovedState → MovedState
  step page clears s = cleared
  step page (begins requested) s = begin_write requested s
  step page (records at applied) s = record_write at applied s
  step page (refreshes current) s = (after_refresh urls page current s).0
  step page (fails at) s = (uncertain urls page at s).0
  step page (reports current request) s = reconcile urls page current request s

  -- The host of a page never changes, its language and hash may at any time.
  abbrev pub page_at : Text → Option Text × Text → MovedLinkOptions
  page_at host (lang, hash) = record { current_host = host; lang = lang; hash = hash }

  abbrev pub steps : Text → List ((Option Text × Text) × MovedEvent) → MovedState → MovedState
  steps host [] s = s
  steps host ((view, e) ∷ es) s = steps host es (step (page_at host view) e s)

module _ (urls : Urls) (law : IsUrls urls) where
  module _ (page : MovedLinkOptions) where
    link_for-IsSound : (at : Text) → IsSoundLink urls page.current_host (link_for urls page at)
    link_for-IsSound at = link_for-IsSoundLink urls law page at

    claim-IsSound : (at : Text) → IsSound urls page.current_host (claim urls page at)
    unfolding claim
    claim-IsSound at = ground (arith, link_for-IsSound at)

    uncertain-IsSound :
        (at : Text) (s : MovedState)
        → IsSound urls page.current_host (uncertain urls page at s).0.notice
    unfolding uncertain
    uncertain-IsSound at s = ground (arith, link_for-IsSound at)

    from_write-IsSound : (s : MovedState) → IsSound urls page.current_host (from_write urls page s)
    unfolding from_write
    from_write-IsSound s = ground (arith, link_for-IsSound s.candidate, claim-IsSound s.candidate)

    or_link-IsSound :
        (a b : Option MovedLink)
        → IsSoundLink urls page.current_host a
        → IsSoundLink urls page.current_host b
        → IsSoundLink urls page.current_host (or_link urls page a b)
    or_link-IsSound none b h k = k
    or_link-IsSound (some a) b h k = h

    settled_claim-IsSound :
        (candidate : Text) (proof : Option MovedNotice)
        → IsSound urls page.current_host proof
        → IsSound urls page.current_host (settled_claim urls page candidate proof)
    settled_claim-IsSound candidate none h = tt
    settled_claim-IsSound candidate (some proof) h = elim (Bool-cases (nonempty candidate)) [
      | inl named ↦ rw named (claim-IsSound candidate)
      | inr unnamed ↦ rw unnamed h
    ]

    abbrev IsSettled : Option (Option MovedNotice) → Type 0
    IsSettled none = Unit
    IsSettled (some n) = IsSound urls page.current_host n

    -- What a status settles, by whether anything runs and where it is bound.
    status-IsSettled :
        (candidate at : Text) (running : Bool) (link : Option MovedLink)
        → IsSoundLink urls page.current_host link
        → IsSettled (
            if not running
            then some (
                some (
                  unconfirmed (
                    or_link urls page
                      (if nonempty candidate then link_for urls page candidate else none)
                      link)))
            else if is_empty at
            then none
            else some (settled_claim urls page candidate (claim urls page at)))
    status-IsSettled candidate at true link h = elim (Bool-cases (is_empty at)) [
      | inl nowhere ↦ rw nowhere tt
      | inr somewhere ↦
          rw somewhere (settled_claim-IsSound candidate (claim urls page at) (claim-IsSound at))
    ]
    status-IsSettled candidate at false link h = elim (Bool-cases (nonempty candidate)) [
      | inl named ↦
          rw named
            (or_link-IsSound (link_for urls page candidate) link (link_for-IsSound candidate) h)
      | inr unnamed ↦ rw unnamed h
    ]

    from_status-IsSettled :
        (candidate : Text) (current : Status) (link : Option MovedLink)
        → IsSoundLink urls page.current_host link
        → IsSettled (from_status urls page candidate current link)
    unfolding from_status
    from_status-IsSettled candidate current link h =
        status-IsSettled candidate (bound urls page current) current.running link h

    after_refresh-IsSound :
        (current : Option Status) (s : MovedState)
        → IsSound urls page.current_host (after_refresh urls page current s).0.notice
    unfolding after_refresh
    after_refresh-IsSound none s = from_write-IsSound s
    after_refresh-IsSound (some current) s =
        ground (arith, from_status-IsSettled s.candidate current none, from_write-IsSound s)

    reconcile-IsSound :
        (current : Status) (request : ℕ) (s : MovedState)
        → IsSound urls page.current_host s.notice
        → IsSound urls page.current_host (reconcile urls page current request s).notice
    unfolding reconcile
    reconcile-IsSound current request s h = elim (Option-cases s.notice) [
      | inl idle ↦ ground arith
      | inr (shown, e) ↦ ground (arith, from_status-IsSettled s.candidate current (link_of shown))
    ]

    step-IsSound :
        (e : MovedEvent) (s : MovedState)
        → IsSound urls page.current_host s.notice
        → IsSound urls page.current_host (step urls page e s).notice
    step-IsSound clears s h = tt
    step-IsSound (begins n) s h = h
    step-IsSound (records at applied) s h = h
    step-IsSound (refreshes current) s h = after_refresh-IsSound current s
    step-IsSound (fails at) s h = uncertain-IsSound at s
    step-IsSound (reports current request) s h = reconcile-IsSound current request s h

  steps-keeps :
      (host : Text) (es : List ((Option Text × Text) × MovedEvent)) (s : MovedState)
      → IsSound urls host s.notice
      → IsSound urls host (steps urls host es s).notice
  steps-keeps host [] s h = h
  steps-keeps host ((view, e) ∷ es) s h =
      steps-keeps host es (step urls (page_at urls host view) e s)
        (step-IsSound (page_at urls host view) e s h)

-- Whatever happens on a page, and in whatever order, where the members of URLs are set and read back: a link
-- that the notice shows is of an address that can be opened, and leads to the port of that address on
-- its host, or on that of the page if the address names all interfaces; port and host are not
-- those the page is served from.
pub steps-IsSound :
    (urls : Urls)
    → IsUrls urls
    → (host : Text) (es : List ((Option Text × Text) × MovedEvent))
    → IsSound urls host (steps urls host es cleared).notice
steps-IsSound urls law host es = steps-keeps urls law host es cleared tt

-- An applied write of which no status is known: the page has to be reopened exactly unless the
-- address can be opened and is the one the page is served from.
after_refresh-applied :
    (urls : Urls) (page : MovedLinkOptions) (at : Text) (s : MovedState)
    → (after_refresh urls page none (record_write at true s)).1
      ≡ not (nonempty at && is_some (address_url urls at) && same_address urls at page.current_host)
unfolding after_refresh from_write claim link_for moved_href listener_url
after_refresh-applied urls page at s = ground arith
