-- ===== src/Pages/Settings/Writes.antt =====
-- What the forms send, and that what they keep as stored is what they sent.
use jumpway.Prelude.{
  ℕ, ◌≤◌, true, false, not, ◌||◌, List, [], ◌∷◌, Option, none, some, is_some, Text, text_eq, trim,
  ◌≡◌, inl, inr, refl, arith, All, All-append, Bool-cases, IsTrimmed, trim-IsTrimmed,
}
use jumpway.Wire.{Address}
use jumpway.Settings.{Urls, MovedLinkOptions, parse_port}
use jumpway.Moved.{MovedState}
use jumpway.Api.{ok, failed}
use jumpway.Pages.Settings.{
  NoProxy, Forms, is_busy, read_bypass, load, load_finished, unmount, edit_host, edit_port,
  edit_bypass, retry, send_address, save_address, save_bypass, focused_form, Form, address_form,
  bypass_form, body_of, FormsEvent, retries, unmounts, saves_bypass, saves_address, loaded,
  load_ends, types_host, types_port, types_bypass, address_ends, bypass_ends, refreshed, shortcut,
  others, notices, Snapshots, address_dirty, bypass_dirty, adopt, load_answered, keep_address,
  lose_address, address_failed, keep_bypass, bypass_failed, moved_answered, save_focused, step, run,
  mounted,
}

-- An address that the server can be given.
abbrev pub IsSendable : Address → Type 0
IsSendable a = IsTrimmed a.host × (a.port ≤ 65535)

-- One write runs at a time, and while it does the forms still show what it sends.
pub record IsFaithful (s : Forms) : Type 0 where
  pub due_unready : is_some s.due ≡ true → s.ready ≡ false
  pub failed_unready : is_some s.load_error ≡ true → (s.ready ≡ false) × (s.due ≡ none)
  pub idle : s.ready ≡ false → (s.putting_address ≡ none) × (s.putting_bypass ≡ none)
  pub apart : is_some s.putting_address ≡ true → s.putting_bypass ≡ none
  pub address_shown :
      (body : Address)
      → s.putting_address ≡ some body
      → (body.host ≡ trim s.address.host) × (parse_port s.address.port ≡ some body.port)
  pub bypass_shown : (body : NoProxy) → s.putting_bypass ≡ some body → body ≡ read_bypass s.bypass

parse_port-bound : (value : Text) (port : ℕ) → parse_port value ≡ some port → port ≤ 65535
unfolding parse_port
parse_port-bound value port e = ground arith

sends-IsFaithful :
    (requested : ℕ) (o : Option ℕ) (s : Forms)
    → parse_port s.address.port ≡ o
    → s.ready ≡ true
    → is_busy s ≡ false
    → IsFaithful s
    → IsFaithful (send_address requested o s)
sends-IsFaithful requested none s e r b h = ground arith
sends-IsFaithful requested (some port) s e r b h = record {
  due_unready = λ d. h.due_unready d;
  failed_unready = λ l. h.failed_unready l;
  idle = λ n. absurd (cc (n, r));
  apart = λ p. ground arith;
  address_shown =
      λ body q. let same : body_of s.address port ≡ body = cc q in rw (← same) (refl, e);
  bypass_shown = h.bypass_shown;
}

save_address-IsFaithful :
    (requested : ℕ) (s : Forms) → IsFaithful s → IsFaithful (save_address requested s)
unfolding save_address
save_address-IsFaithful requested s h = elim (Bool-cases (not s.ready || is_busy s || s.loading)) [
  | inl held ↦ rw held h
  | inr free ↦ rw free (
      sends-IsFaithful requested (parse_port s.address.port) s refl (ground arith) (ground arith) h)
]

save_bypass-IsFaithful : (s : Forms) → IsFaithful s → IsFaithful (save_bypass s)
unfolding save_bypass
save_bypass-IsFaithful s h = ground arith

-- Every address that was sent is one that the server can be given.
sent_address :
    (requested : ℕ) (o : Option ℕ) (s : Forms)
    → parse_port s.address.port ≡ o
    → All IsSendable s.sent
    → All IsSendable (send_address requested o s).sent
sent_address requested none s e h = h
sent_address requested (some port) s e h =
    All-append IsSendable s.sent (body_of s.address port ∷ []) h
      ((trim-IsTrimmed s.address.host, parse_port-bound s.address.port port e), tt)

save_address-sent :
    (requested : ℕ) (s : Forms)
    → All IsSendable s.sent
    → All IsSendable (save_address requested s).sent
unfolding save_address
save_address-sent requested s h = elim (Bool-cases (not s.ready || is_busy s || s.loading)) [
  | inl held ↦ rw held h
  | inr free ↦ rw free (sent_address requested (parse_port s.address.port) s refl h)
]

same_sent : (s q : List Address) → q ≡ s → All IsSendable s → All IsSendable q
same_sent s q e h = rw e h

module _ (urls : Urls) (page : MovedLinkOptions) (hostname : Text) (texts : Snapshots) where
  focused-cases :
      (P : Forms → Type 0) (requested : ℕ) (focus : Option Form) (s : Forms)
      → P s
      → P (save_address requested s)
      → P (save_bypass s)
      → P (save_focused urls page hostname texts requested focus s)
  unfolding save_focused
  focused-cases P requested focus s k a b = by_form (
      focused_form focus (address_dirty urls page hostname texts s)
        (bypass_dirty urls page hostname texts s))
    where
      by_form :
          (o : Option Form)
          → P (elim o [
            | none ↦ s
            | some address_form ↦ save_address requested s
            | some bypass_form ↦ save_bypass s
          ])
      by_form none = k
      by_form (some address_form) = a
      by_form (some bypass_form) = b

  step-IsFaithful :
      (e : FormsEvent) (s : Forms) → IsFaithful s → IsFaithful (step urls page hostname texts e s)
  unfolding retry load unmount save_bypass load_answered load_finished edit_host edit_port
      edit_bypass keep_address lose_address address_failed keep_bypass bypass_failed moved_answered
      adopt
  step-IsFaithful retries s h = ground arith
  step-IsFaithful unmounts s h = ground arith
  step-IsFaithful saves_bypass s h = ground arith
  step-IsFaithful (saves_address requested) s h = save_address-IsFaithful requested s h
  step-IsFaithful (loaded own (ok value)) s h = ground arith
  step-IsFaithful (loaded own (failed reason)) s h = ground arith
  step-IsFaithful (load_ends own) s h = ground arith
  step-IsFaithful (types_host host) s h = ground arith
  step-IsFaithful (types_port port) s h = ground arith
  step-IsFaithful (types_bypass d) s h = ground arith
  step-IsFaithful (address_ends none) s h = ground arith
  step-IsFaithful (address_ends (some reason)) s h = ground arith
  step-IsFaithful (bypass_ends none) s h = ground arith
  step-IsFaithful (bypass_ends (some reason)) s h = ground arith
  step-IsFaithful (refreshed current) s h = ground arith
  step-IsFaithful (shortcut requested focus) s h =
      focused-cases IsFaithful requested focus s h (save_address-IsFaithful requested s h)
        (save_bypass-IsFaithful s h)
  step-IsFaithful (others tasks) s h = ground arith
  step-IsFaithful (notices notice) s h = ground arith

  step-sent :
      (e : FormsEvent) (s : Forms)
      → All IsSendable s.sent
      → All IsSendable (step urls page hostname texts e s).sent
  unfolding retry load unmount save_bypass load_answered load_finished edit_host edit_port
      edit_bypass keep_address lose_address address_failed keep_bypass bypass_failed moved_answered
      adopt
  step-sent retries s h = same_sent s.sent _ (ground arith) h
  step-sent unmounts s h = same_sent s.sent _ (ground arith) h
  step-sent saves_bypass s h = same_sent s.sent _ (ground arith) h
  step-sent (saves_address requested) s h = save_address-sent requested s h
  step-sent (loaded own (ok value)) s h = same_sent s.sent _ (ground arith) h
  step-sent (loaded own (failed reason)) s h = same_sent s.sent _ (ground arith) h
  step-sent (load_ends own) s h = same_sent s.sent _ (ground arith) h
  step-sent (types_host host) s h = same_sent s.sent _ (ground arith) h
  step-sent (types_port port) s h = same_sent s.sent _ (ground arith) h
  step-sent (types_bypass d) s h = same_sent s.sent _ (ground arith) h
  step-sent (address_ends none) s h = same_sent s.sent _ (ground arith) h
  step-sent (address_ends (some reason)) s h = same_sent s.sent _ (ground arith) h
  step-sent (bypass_ends none) s h = same_sent s.sent _ (ground arith) h
  step-sent (bypass_ends (some reason)) s h = same_sent s.sent _ (ground arith) h
  step-sent (refreshed current) s h = same_sent s.sent _ (ground arith) h
  step-sent (shortcut requested focus) s h =
      focused-cases (λ q. All IsSendable q.sent) requested focus s h
        (save_address-sent requested s h) (same_sent s.sent (save_bypass s).sent (ground arith) h)
  step-sent (others tasks) s h = same_sent s.sent _ (ground arith) h
  step-sent (notices notice) s h = same_sent s.sent _ (ground arith) h

  run-invariant :
      (es : List FormsEvent) (s : Forms)
      → IsFaithful s
      → All IsSendable s.sent
      → IsFaithful (run urls page hostname texts es s)
        × All IsSendable (run urls page hostname texts es s).sent
  run-invariant [] s h k = (h, k)
  run-invariant (e ∷ es) s h k =
      run-invariant es (step urls page hostname texts e s) (step-IsFaithful e s h) (step-sent e s k)

mounted-IsFaithful : (notice : MovedState) → IsFaithful (mounted notice)
unfolding mounted load
mounted-IsFaithful notice = ground arith

mounted-sent : (notice : MovedState) → (mounted notice).sent ≡ []
unfolding mounted load
mounted-sent notice = refl

-- Whatever is typed, saved and answered, in whatever order, every address that the page sends has a
-- trimmed host and a port up to 65535; one write runs at a time, and while it does the forms still show
-- what it sends.
pub run-IsFaithful :
    (urls : Urls) (page : MovedLinkOptions) (hostname : Text) (texts : Snapshots)
    (notice : MovedState) (es : List FormsEvent)
    → let s = run urls page hostname texts es (mounted notice) in
      All IsSendable s.sent × IsFaithful s
run-IsFaithful urls page hostname texts notice es =
    let (h, k) =
      run-invariant urls page hostname texts es (mounted notice) (mounted-IsFaithful notice)
        (rw (mounted-sent notice) tt) in
    (k, h)
