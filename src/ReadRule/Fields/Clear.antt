-- ===== src/ReadRule/Fields/Clear.antt =====
-- When `parsePort`, `parseChannel` and `readWay` refuse nothing.
use mathlib.Core.Path.{subst}
use jumpway.Prelude.{
  sym, ℕ, ◌≤◌, Bool, true, false, ◌||◌, List, [], ◌∷◌, Option, some, Text, trim, is_empty, is_space,
  any, nat_beq, ◌≡◌, ◌≢◌, ◌⊎◌, inl, inr, ◌↔◌, refl, arith, All, Bool-cases,
}
use jumpway.Endpoint.{is_virtual_channel}
use jumpway.Draft.{UrlDraft, HopDraft}
use jumpway.ReadRule.Errors.{
  MessageKey, hop_url_empty, hop_url_no_scheme, DraftErrors, put_url, has_errors, IsClear,
}
use jumpway.ReadRule.Fields.{
  parse_port, parse_channel, has_scheme, read_url, read_urls, is_usable, read_hops,
}

-- A URL is refused if it is blank where its hop has no other, or if it has no scheme.
abbrev pub UrlOk : Bool → UrlDraft → Type 0
UrlOk usable u =
    ((trim u.value ≡ []) × (usable ≡ true))
    ⊎ ((trim u.value ≢ []) × (has_scheme (trim u.value) ≡ true))

abbrev pub HopOk : HopDraft → Type 0
HopOk h = All (UrlOk (is_usable h)) h.urls

put_url-cons :
    (id : ℕ) (key : MessageKey) (urls : List (ℕ × MessageKey))
    → is_empty (put_url id key urls) ≡ false
put_url-cons id key [] = refl
put_url-cons id key ((id', key') ∷ urls) = ground arith

read_url-IsClear_iff :
    (usable : Bool) (u : UrlDraft) (e : DraftErrors)
    → IsClear (read_url usable u e) ↔ (IsClear e × UrlOk usable u)
unfolding read_url has_errors
read_url-IsClear_iff usable u e =
    ground
      (arith, put_url-cons u.id hop_url_empty e.urls, put_url-cons u.id hop_url_no_scheme e.urls)

read_urls-IsClear_iff :
    (usable : Bool) (urls : List UrlDraft) (e : DraftErrors)
    → IsClear (read_urls usable urls e) ↔ (IsClear e × All (UrlOk usable) urls)
unfolding read_urls
read_urls-IsClear_iff usable [] e = (λ h. (h, tt), λ h. h.0)
read_urls-IsClear_iff usable (u ∷ urls) e =
    let (to, from) = read_urls-IsClear_iff usable urls (read_url usable u e) in
    let (to', from') = read_url-IsClear_iff usable u e in
    (
      λ h. let (c, us) = to h in let (c', ok) = to' c in (c', (ok, us)),
      λ (c, us). from (from' (c, us.0), us.1),
    )

pub read_hops-IsClear_iff :
    (hops : List HopDraft) (e : DraftErrors)
    → IsClear (read_hops hops e) ↔ (IsClear e × All HopOk hops)
unfolding read_hops
read_hops-IsClear_iff [] e = (λ h. (h, tt), λ h. h.0)
read_hops-IsClear_iff (h ∷ hops) e =
    let (to, from) = read_hops-IsClear_iff hops (read_urls (is_usable h) h.urls e) in
    let (to', from') = read_urls-IsClear_iff (is_usable h) h.urls e in
    (
      λ g. let (c, hs) = to g in let (c', ok) = to' c in (c', (ok, hs)),
      λ (c, hs). from (from' (c, hs.0), hs.1),
    )

-- A port that is read is the number that the trimmed text stands for, and lies in the range.
pub parse_port-eq-some_iff :
    (number : Text → Option ℕ) (value : Text) (minimum port : ℕ)
    → (parse_port number value minimum ≡ some port)
      ↔ ((trim value ≢ []) × (number (trim value) ≡ some port) × (minimum ≤ port) × (port ≤ 65535))
unfolding parse_port
parse_port-eq-some_iff number value minimum port = ground arith

-- The channels of the server: not empty, with no white space and no slash.
abbrev pub IsChannel : Text → Type 0
IsChannel s = (s ≢ []) × All (λ c. (is_space c ≡ false) × (c ≢ b'/')) s

channel_chars :
    (s : Text)
    → (any (λ c. is_space c || nat_beq c b'/') s ≡ false)
      ↔ All (λ c. (is_space c ≡ false) × (c ≢ b'/')) s
channel_chars [] = (λ e. tt, λ h. refl)
channel_chars (c ∷ s) = ground (arith, channel_chars s)

is_virtual_channel_iff : (s : Text) → (is_virtual_channel s ≡ true) ↔ IsChannel s
unfolding is_virtual_channel
is_virtual_channel_iff s = ground (arith, channel_chars s)

-- A channel that is read is the trimmed text, and is one that the server accepts.
pub parse_channel-eq-some_iff :
    (value channel : Text)
    → (parse_channel value ≡ some channel) ↔ ((channel ≡ trim value) × IsChannel channel)
unfolding parse_channel
parse_channel-eq-some_iff value channel =
    let (to, from) = is_virtual_channel_iff (trim value) in
    elim (Bool-cases (is_virtual_channel (trim value))) [
      | inl good ↦ rw good (
        λ e. let same : trim value ≡ channel = cc in (sym same, subst IsChannel same (to good)),
        λ (e, h). cc,
      )
      | inr bad ↦ rw bad (λ e. cc, λ (e, h). absurd (cc (bad, from (subst IsChannel e h))))
    ]
