-- ===== src/Format/Masked.antt =====
-- What `redactURL` leaves of a URL with credentials.
use jumpway.Prelude.{
  true, false, ◌&&◌, [], ◌∷◌, ◌++◌, append_assoc, append-nil, Option, none, some, Text, codes,
  is_empty, nat_beq, ◌≡◌, ◌≢◌, refl, sym, ap, ◌∙◌, All, All-append,
}
use jumpway.Hosts.{is_scheme_char, is_letter}
use jumpway.UrlBuilder.{Parser}
use jumpway.Format.{
  mask, scheme_end, scheme_of, ends_authority, cut_authority, cut_last, masked, redact_parsed,
  redact_url,
}

-- A letter and characters of schemes.
abbrev pub IsScheme : Text → Type 0
IsScheme [] = ⊥
IsScheme (c ∷ s) = (is_letter c ≡ true) × All (λ d. is_scheme_char d ≡ true) s

-- No character that ends an authority.
abbrev pub IsAuthority : Text → Type 0
IsAuthority = All (λ c. ends_authority c ≡ false)

abbrev pub HasNoAt : Text → Type 0
HasNoAt = All (λ c. nat_beq c b'@' ≡ false)

abbrev pub IsTail : Text → Type 0
IsTail [] = Unit
IsTail (c ∷ s) = ends_authority c ≡ true

scheme_end-append :
    (s rest : Text)
    → All (λ d. is_scheme_char d ≡ true) s
    → scheme_end (s ++ codes "://" ++ rest) ≡ some (s, rest)
unfolding scheme_end
scheme_end-append [] rest h = refl
scheme_end-append (c ∷ s) rest (e, h) = rw (e, scheme_end-append s rest h) refl

scheme_of-append :
    (s rest : Text)
    → IsScheme s
    → scheme_of (s ++ codes "://" ++ rest) ≡ some (s ++ codes "://", rest)
unfolding scheme_of
scheme_of-append [] rest h = absurd h
scheme_of-append (c ∷ s) rest (e, h) = rw (e, scheme_end-append s rest h) refl

cut_authority-append :
    (s tail : Text) → IsAuthority s → IsTail tail → cut_authority (s ++ tail) ≡ (s, tail)
unfolding cut_authority
cut_authority-append [] [] h k = refl
cut_authority-append [] (c ∷ tail) h k = rw k refl
cut_authority-append (c ∷ s) tail (e, h) k = rw (e, cut_authority-append s tail h k) refl

cut_last-none : (s : Text) → HasNoAt s → cut_last s ≡ none
unfolding cut_last
cut_last-none [] h = refl
cut_last-none (c ∷ s) (e, h) = rw (cut_last-none s h, e) refl

cut_last-append :
    (s host : Text) → HasNoAt host → cut_last (s ++ b'@' ∷ host) ≡ some (s, b'@' ∷ host)
unfolding cut_last
cut_last-append [] host h = rw (cut_last-none host h) refl
cut_last-append (c ∷ s) host h = rw (cut_last-append s host h) refl

masked-append :
    (token scheme secret host tail : Text)
    → secret ≢ []
    → HasNoAt host
    → masked token scheme (secret ++ b'@' ∷ host) tail ≡ scheme ++ (mask ++ (b'@' ∷ host ++ tail))
unfolding masked
masked-append token scheme [] host tail ne h = absurd (ne refl)
masked-append token scheme (c ∷ s) host tail ne h = rw (cut_last-append (c ∷ s) host h) refl

-- `user:password@host`
abbrev pub at : Text → Text → Text
at secret host = secret ++ b'@' ∷ host

at-IsAuthority :
    (secret host : Text) → IsAuthority secret → IsAuthority host → IsAuthority (at secret host)
at-IsAuthority secret host h k = All-append _ secret (b'@' ∷ host) h (refl, k)

module _ (parser : Parser) where
  -- The browser reads a user or a password from the URL, where the first `/`, `?` or `#` ends the
  -- authority; or else it refuses the URL, and the secret may have these characters, but the tail has no
  -- `@`.
  abbrev pub HasSecret : Option parser.Url → Text → Text → Type 0
  HasSecret none secret tail = HasNoAt tail
  HasSecret (some url) secret tail =
      IsAuthority secret
      × (is_empty (parser.username url) && is_empty (parser.password url) ≡ false)

  parsed-masks :
      (url : Option parser.Url) (token scheme secret host tail : Text)
      → secret ≢ []
      → IsAuthority host
      → HasNoAt host
      → IsTail tail
      → HasSecret url secret tail
      → redact_parsed parser url token scheme (at secret (host ++ tail))
        ≡ scheme ++ (mask ++ b'@' ∷ (host ++ tail))
  parsed-masks none token scheme secret host tail ne b n k h =
      masked-append token scheme secret (host ++ tail) [] ne (All-append _ host tail n h)
      ∙ ap (λ r. scheme ++ (mask ++ b'@' ∷ r)) (append-nil (host ++ tail))
  parsed-masks (some url) token scheme secret host tail ne b n k (a, h) =
      let cut : cut_authority (at secret (host ++ tail)) ≡ (at secret host, tail) =
        ap cut_authority (sym (append_assoc secret (b'@' ∷ host) tail))
        ∙ cut_authority-append (at secret host) tail (at-IsAuthority secret host a b) k in
      rw (h, cut) (masked-append token scheme secret host tail ne n)

  -- Of a URL with a user or a password nothing is left that stands between its scheme and its host,
  -- and the rest is left as it is: where the browser reads either from it and they have no `/`, `?`
  -- or `#`, and where it refuses the URL, whatever they consist of, provided that no `@` follows the
  -- host.
  pub redact_url-masks :
      (scheme secret host tail : Text)
      → IsScheme scheme
      → secret ≢ []
      → IsAuthority host
      → HasNoAt host
      → IsTail tail
      → HasSecret (parser.parse (scheme ++ codes "://" ++ at secret (host ++ tail))) secret tail
      → redact_url parser (scheme ++ codes "://" ++ at secret (host ++ tail))
        ≡ scheme ++ codes "://" ++ at mask (host ++ tail)
  unfolding redact_url
  redact_url-masks scheme secret host tail s ne b n k h =
      rw (redact_url, scheme_of-append scheme (at secret (host ++ tail)) s)
        (parsed-masks _ _ (scheme ++ codes "://") secret host tail ne b n k h)
