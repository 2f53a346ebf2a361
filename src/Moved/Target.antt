-- ===== src/Moved/Target.antt =====
-- Where the link of `linkFor` of app/web/ui/src/lib/moved.svelte.ts leads.
use jumpway.Prelude.{
  Bool, false, Option, none, some, Text, codes, text_eq, ◌==◌, ◌≡◌, if◌then◌else◌, refl, sym, ap,
  ◌∙◌, arith, inl, inr, Bool-cases, Option-cases,
}
use mathlib.Core.Path.{subst}
use jumpway.Endpoint.{or_text}
use jumpway.Settings.{
  Urls, address_url, listener_url, at_origin, with_lang, same_address, same_origin, canonical_host,
  moved_href, MovedLinkOptions, has, wildcards,
}
use jumpway.Moved.{MovedLink, link_for}

-- What the members of `URL` promise of each other, on URLs over HTTP, which are all that are made.
pub record IsUrls (urls : Urls) : Type 0 where
  pub reparsed : (u : urls.Url) → urls.parse (urls.href u) ≡ some u
  pub hash_hostname :
      (s : Text) (u : urls.Url) → urls.hostname (urls.set_hash s u) ≡ urls.hostname u
  pub hash_port : (s : Text) (u : urls.Url) → urls.port (urls.set_hash s u) ≡ urls.port u
  pub lang_hostname :
      (s : Text) (u : urls.Url) → urls.hostname (urls.set_lang s u) ≡ urls.hostname u
  pub lang_port : (s : Text) (u : urls.Url) → urls.port (urls.set_lang s u) ≡ urls.port u
  pub hostname_hostname :
      (origin u : urls.Url)
      → urls.hostname (urls.set_hostname (urls.hostname origin) u) ≡ urls.hostname origin
  pub hostname_port :
      (origin u : urls.Url) → urls.port (urls.set_hostname (urls.hostname origin) u) ≡ urls.port u

module _ (urls : Urls) where
  open urls use {Url}

  -- The port of a page over HTTP.
  abbrev pub port_or_80 : Url → Text
  port_or_80 u = or_text (urls.port u) (codes "80")

  -- The name of the host to open: that of the page for an address that names all interfaces.
  abbrev pub host_to_open : Option Url → Url → Text
  host_to_open none u = urls.hostname u
  host_to_open (some origin) u =
      if has wildcards (urls.hostname u) then urls.hostname origin else urls.hostname u

  abbrev pub IsOtherThan : Option Url → Url → Type 0
  IsOtherThan none target = Unit
  IsOtherThan (some origin) target =
      ¬ ((port_or_80 target ≡ port_or_80 origin) × (urls.hostname target ≡ urls.hostname origin))

  -- The link leads to its address: to its port on its host, which is not where the page comes from.
  pub record IsElsewhere (page : Text) (l : MovedLink) : Type 0 where
    pub asked : Url
    pub target : Url
    pub names : address_url urls l.address ≡ some asked
    pub opens : urls.parse l.href ≡ some target
    pub port : urls.port target ≡ urls.port asked
    pub hostname : urls.hostname target ≡ host_to_open (address_url urls page) asked
    pub elsewhere : IsOtherThan (address_url urls page) target

  abbrev pub IsSoundLink : Text → Option MovedLink → Type 0
  IsSoundLink page none = Unit
  IsSoundLink page (some l) = IsElsewhere page l

module _ (urls : Urls) (law : IsUrls urls) (page : MovedLinkOptions) where
  open urls use {Url}

  lang_hostname :
      (lang : Option Text) (u : Url) → urls.hostname (with_lang urls lang u) ≡ urls.hostname u
  lang_hostname none u = refl
  lang_hostname (some lang) u = ground (arith, law.lang_hostname lang u)

  lang_port : (lang : Option Text) (u : Url) → urls.port (with_lang urls lang u) ≡ urls.port u
  lang_port none u = refl
  lang_port (some lang) u = ground (arith, law.lang_port lang u)

  origin_hostname :
      (o : Option Url) (u : Url) → urls.hostname (at_origin urls o u) ≡ host_to_open urls o u
  origin_hostname none u = refl
  origin_hostname (some origin) u = ground (arith, law.hostname_hostname origin u)

  origin_port : (o : Option Url) (u : Url) → urls.port (at_origin urls o u) ≡ urls.port u
  origin_port none u = refl
  origin_port (some origin) u = ground (arith, law.hostname_port origin u)

  apart :
      (origin listener target : Url)
      → urls.port target ≡ urls.port listener
      → urls.hostname target ≡ urls.hostname listener
      → same_origin urls (some listener) (some origin) ≡ false
      → port_or_80 urls target ≡ port_or_80 urls origin
      → urls.hostname target ≡ urls.hostname origin
      → ⊥
  apart origin listener target p h e p' h' =
      let ports : port_or_80 urls listener ≡ port_or_80 urls origin =
        ap (λ t. or_text t (codes "80")) (sym p) ∙ p' in
      let hosts : canonical_host urls listener ≡ canonical_host urls origin =
        ap (λ t. if t == codes "localhost" then codes "127.0.0.1" else t) (sym h ∙ h') in
      let same_ports =
        (text_eq.same_iff (port_or_80 urls listener) (port_or_80 urls origin)).1 ports in
      let same_hosts =
        (text_eq.same_iff (canonical_host urls listener) (canonical_host urls origin)).1 hosts in
      ground (arith, e, same_ports, same_hosts)

  -- Equal ports and hosts are of one origin.
  same_origin-apart :
      (o : Option Url) (listener target : Url)
      → urls.port target ≡ urls.port listener
      → urls.hostname target ≡ urls.hostname listener
      → same_origin urls (some listener) o ≡ false
      → IsOtherThan urls o target
  same_origin-apart none listener target p h e = tt
  same_origin-apart (some origin) listener target p h e =
      λ (p', h'). apart origin listener target p h e p' h'

  -- What the link is made of: the URL of the listener, and whether the page is there.
  linked : Text → Option Url → Bool → Option MovedLink
  linked at none here = none
  linked at (some u) here =
      if here
      then none
      else some (record {
        address = at;
        href = urls.href (urls.set_hash page.hash (with_lang urls page.lang u));
      })

  link_for-linked :
      (at : Text)
      → link_for urls page at
        ≡ linked at
            (listener_url urls at (address_url urls page.current_host))
            (same_address urls at page.current_host)
  unfolding link_for moved_href linked
  link_for-linked at =
      elim (Option-cases (listener_url urls at (address_url urls page.current_host))) [
        | inl e ↦ ground (arith, e)
        | inr (u, e) ↦ elim (Bool-cases (same_address urls at page.current_host)) [
          | inl here ↦ ground (arith, e, here)
          | inr away ↦ ground (arith, e, away)
        ]
      ]

  sound_link :
      (at : Text) (u : Url)
      → address_url urls at ≡ some u
      → same_origin urls
          (some (at_origin urls (address_url urls page.current_host) u))
          (address_url urls page.current_host)
        ≡ false
      → IsElsewhere urls page.current_host (record {
        address = at;
        href = urls.href (
            urls.set_hash page.hash
              (with_lang urls page.lang (at_origin urls (address_url urls page.current_host) u)));
      })
  sound_link at u e away =
      let origin = address_url urls page.current_host in
      let l = at_origin urls origin u in
      let shown = with_lang urls page.lang l in
      let target = urls.set_hash page.hash shown in
      let port : urls.port target ≡ urls.port l =
        law.hash_port page.hash shown ∙ lang_port page.lang l in
      let name : urls.hostname target ≡ urls.hostname l =
        law.hash_hostname page.hash shown ∙ lang_hostname page.lang l in
      record {
        asked = u;
        target = target;
        names = e;
        opens = law.reparsed target;
        port = port ∙ origin_port origin u;
        hostname = name ∙ origin_hostname origin u;
        elsewhere = same_origin-apart origin l target port name away;
      }

  same_address-origin :
      (at : Text) (u : Url)
      → address_url urls at ≡ some u
      → same_address urls at page.current_host
        ≡ same_origin urls
            (some (at_origin urls (address_url urls page.current_host) u))
            (address_url urls page.current_host)
  unfolding same_address listener_url
  same_address-origin at u e =
      let origin = address_url urls page.current_host in
      let found : listener_url urls at origin ≡ some (at_origin urls origin u) =
        rw (listener_url, e) refl in
      ap (λ l. same_origin urls l origin) found

  linked-IsSoundLink :
      (at : Text) (o : Option Url)
      → address_url urls at ≡ o
      → IsSoundLink urls page.current_host (link_for urls page at)
  unfolding linked listener_url
  linked-IsSoundLink at none e =
      subst (IsSoundLink urls page.current_host) (sym (link_for-linked at))
        (rw (listener_url, e) tt)
  linked-IsSoundLink at (some u) e =
      let origin = address_url urls page.current_host in
      let l = at_origin urls origin u in
      let found : listener_url urls at origin ≡ some l = rw (listener_url, e) refl in
      subst (IsSoundLink urls page.current_host) (sym (link_for-linked at))
        (elim (Bool-cases (same_address urls at page.current_host)) [
          | inl here ↦ rw (found, here) tt
          | inr away ↦
              rw (found, away) (sound_link at u e (sym (same_address-origin at u e) ∙ away))
        ])

  pub link_for-IsSoundLink :
      (at : Text) → IsSoundLink urls page.current_host (link_for urls page at)
  link_for-IsSoundLink at = linked-IsSoundLink at (address_url urls at) refl
