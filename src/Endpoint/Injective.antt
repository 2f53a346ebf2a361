-- ===== src/Endpoint/Injective.antt =====
-- Comparing the texts of two addresses compares the addresses.
use jumpway.Prelude.{
  ℕ, true, false, ◌||◌, [], ◌∷◌, ◌++◌, Text, codes, includes, decimal, decimal-injective,
  decimal-IsDigit, IsDigit, All, ◌≡◌, ◌≢◌, refl, ap, ◌↔◌, arith, Bool-cases, inl, inr,
}
use jumpway.Endpoint.{or_text, loopback, brackets, wrap, join_host_port, virtual_address}

-- Two texts that end in a colon and digits agree on both sides of the colon.
NoColon : Text → Type 0
NoColon s = includes b':' s ≡ false

digits-NoColon : (s : Text) → All IsDigit s → includes b':' s ≡ false
digits-NoColon [] h = refl
digits-NoColon (c ∷ s) (d, h) = ground (arith, digits-NoColon s h)

includes-append_colon : (s t : Text) → includes b':' (s ++ (b':' ∷ t)) ≡ true
includes-append_colon [] t = refl
includes-append_colon (c ∷ s) t = ground (arith, includes-append_colon s t)

split_colon :
    (a b d e : Text)
    → includes b':' d ≡ false
    → includes b':' e ≡ false
    → a ++ (b':' ∷ d) ≡ b ++ (b':' ∷ e)
    → (a ≡ b) × (d ≡ e)
split_colon [] [] d e hd he h = ground arith
split_colon [] (y ∷ b) d e hd he h = ground (arith, includes-append_colon b e)
split_colon (x ∷ a) [] d e hd he h = ground (arith, includes-append_colon a d)
split_colon (x ∷ a) (y ∷ b) d e hd he h = ground (arith, split_colon a b d e)

-- Brackets mark exactly the names that hold a colon, so no two names are wrapped alike.
includes-append : (c : ℕ) (s t : Text) → includes c (s ++ t) ≡ (includes c s || includes c t)
includes-append c [] t = refl
includes-append c (x ∷ s) t = ground (arith, includes-append c s t)

append_one-injective : (s t : Text) (c : ℕ) → s ++ c ∷ [] ≡ t ++ c ∷ [] → s ≡ t
append_one-injective [] [] c h = refl
append_one-injective [] (y ∷ []) c h = ground arith
append_one-injective [] (y ∷ z ∷ t) c h = ground arith
append_one-injective (x ∷ []) [] c h = ground arith
append_one-injective (x ∷ w ∷ s) [] c h = ground arith
append_one-injective (x ∷ s) (y ∷ t) c h = ground (arith, append_one-injective s t c)

includes-brackets : (s : Text) → includes b':' (brackets s) ≡ includes b':' s
includes-brackets s = ground (arith, includes-append b':' s (b']' ∷ []))

brackets-injective : (s t : Text) → brackets s ≡ brackets t → s ≡ t
brackets-injective s t h = append_one-injective s t b']' (ground arith)

wrap-injective : (a b : Text) → wrap a ≡ wrap b → a ≡ b
wrap-injective a b h =
    ground (
      arith,
      includes-brackets a,
      includes-brackets b,
      brackets-injective a b,
      ap (includes b':') h,
    )

-- Two addresses have the same text exactly when they have the same port and the same host, where an
-- empty host stands for 127.0.0.1.
join_host_port_iff :
    (host host' : Text) (port port' : ℕ)
    → (join_host_port host port ≡ join_host_port host' port')
      ↔ ((or_text host loopback ≡ or_text host' loopback) × (port ≡ port'))
unfolding join_host_port
join_host_port_iff host host' port port' = (to, λ (h, p). rw (h, p))
  where
    digits : (n : ℕ) → includes b':' (decimal n) ≡ false
    digits n = digits-NoColon (decimal n) (decimal-IsDigit n)

    to :
        join_host_port host port ≡ join_host_port host' port'
        → (or_text host loopback ≡ or_text host' loopback) × (port ≡ port')
    to e =
        let (w, d) = split_colon _ _ _ _ (digits port) (digits port') e in
        (wrap-injective _ _ w, decimal-injective port port' d)

split_first_colon :
    (a b d e : Text)
    → includes b':' a ≡ false
    → includes b':' b ≡ false
    → a ++ (b':' ∷ d) ≡ b ++ (b':' ∷ e)
    → (a ≡ b) × (d ≡ e)
split_first_colon [] [] d e ha hb h = ground arith
split_first_colon [] (y ∷ b) d e ha hb h = ground arith
split_first_colon (x ∷ a) [] d e ha hb h = ground arith
split_first_colon (x ∷ a) (y ∷ b) d e ha hb h = ground (arith, split_first_colon a b d e)

not-digit_slash : (s t : Text) → All IsDigit s → s ≢ b'/' ∷ t
not-digit_slash [] t h e = ground arith
not-digit_slash (c ∷ s) t (d, h) e = ground arith

plain-ne-virtual_address :
    (name channel digits : Text)
    → All IsDigit digits
    → includes b':' name ≡ false
    → name ++ (b':' ∷ digits) ≢ virtual_address channel
plain-ne-virtual_address name channel digits h n e =
    let (same, rest) =
      split_first_colon name (codes "virtual") digits (b'/' ∷ b'/' ∷ channel) n refl e in
    not-digit_slash digits (b'/' ∷ channel) h rest

-- The text of an address is never that of a virtual channel.
join_host_port-ne-virtual_address :
    (host channel : Text) (port : ℕ) → join_host_port host port ≢ virtual_address channel
unfolding join_host_port
join_host_port-ne-virtual_address host channel port e =
    elim (Bool-cases (includes b':' (or_text host loopback))) [
      | inl c ↦ ground arith
      | inr c ↦
          plain-ne-virtual_address (or_text host loopback) channel (decimal port)
            (decimal-IsDigit port) c (rw c at e)
    ]
