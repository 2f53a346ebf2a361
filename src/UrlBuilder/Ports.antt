-- ===== src/UrlBuilder/Ports.antt =====
-- When a built URL is valid.
use jumpway.Prelude.{
  ◌≤◌, All, find?, not, ◌&&◌, ◌||◌, is_empty, inl, inr, Bool, true, false, [], get_or, ◌∷◌, Option,
  none, some, Text, text_eq, trim, read_decimal, codes, ◌≡◌, ◌≢◌, ◌↔◌, ◌⊎◌, refl, sym, arith,
}
use mathlib.Core.Path.{subst}
use jumpway.Way.{nonempty}
use jumpway.Endpoint.{or_text}
use jumpway.UrlBuilder.Named.{
  FirstNamed, NoneNamed, Found, port_iff, command_iff, find-FirstNamed, find-NoneNamed,
}
use jumpway.UrlBuilder.{
  ProxyLayout, BuilderField, LayoutInput, host, port, value_of, encrypto, BuilderValues, given,
  is_shadowsocks, command_field_of, port_of, is_valid_port, all_digits, is_named, network_url,
  command_url, by_field, builder_command_hint, build_url, hint_for, Hint, command, bracketed,
  host_text,
}

-- Digits that name the port of an address.
abbrev pub IsPort : Text → Type 0
IsPort s =
    (s ≢ [])
    × All (λ c. (b'0' ≤ c) × (c ≤ b'9')) s
    × (1 ≤ read_decimal s)
    × (read_decimal s ≤ 65535)

nonempty_iff : (s : Text) → (nonempty s ≡ true) ↔ (s ≢ [])
nonempty_iff [] = ground arith
nonempty_iff (c ∷ s) = ground arith

digits_iff : (s : Text) → (all_digits s ≡ true) ↔ All (λ c. (b'0' ≤ c) × (c ≤ b'9')) s
digits_iff [] = ground arith
digits_iff (c ∷ s) = ground (arith, digits_iff s)

is_valid_port_iff : (s : Text) → (is_valid_port s ≡ true) ↔ IsPort s
is_valid_port_iff s = ground (arith, digits_iff s, nonempty_iff s)

nonempty-bracketed : (name : Text) → nonempty (bracketed name) ≡ nonempty name
nonempty-bracketed [] = refl
nonempty-bracketed (c ∷ s) = ground arith

hint_for_iff : (valid : Bool) (hint : Hint) → (hint_for valid hint ≡ none) ↔ (valid ≡ true)
hint_for_iff valid hint = ground arith

-- The values of a layout that no line of a command makes up. The port is the one that is given, or else the
-- one that the layout has for its first port.
abbrev pub IsNetwork : ProxyLayout → BuilderValues → Type 0
IsNetwork layout values =
    (trim (given values host) ≢ [])
    × (((given values port ≢ []) × IsPort (given values port))
        ⊎ ((given values port ≡ [])
            × FirstNamed port (λ i. (v : Text) × (i.value ≡ some v) × IsPort v) layout.inputs))
    × (layout.name ≡ codes "shadowsocks"
        → (given values encrypto ≢ []) × (given values BuilderField.password ≢ []))

-- What a layout asks of the values.
abbrev pub IsComplete : ProxyLayout → BuilderValues → Type 0
IsComplete layout values =
    FirstNamed command (λ i. (trim (given values command) ≢ []) ⊎ (i.option ≡ true)) layout.inputs
    ⊎ (NoneNamed command layout.inputs × IsNetwork layout values)

-- A value that is the port of an address.
abbrev HasPort : LayoutInput → Type 0
HasPort i = (v : Text) × (i.value ≡ some v) × IsPort v

nowhere-IsPort : ¬ IsPort []
nowhere-IsPort h = h.0 refl

value-IsPort : (o : Option Text) → IsPort (get_or o []) ↔ ((v : Text) × (o ≡ some v) × IsPort v)
value-IsPort none = (λ h. absurd (nowhere-IsPort h), λ (v, e, h). absurd (ground arith))
value-IsPort (some w) = (λ h. (w, refl, h), λ (v, e, h). subst IsPort (ground arith) h)

default-IsPort : (o : Option LayoutInput) → IsPort (value_of o) ↔ Found port port_iff HasPort o
default-IsPort none = (nowhere-IsPort, λ h. absurd h)
default-IsPort (some i) = value-IsPort i.value

or_text-IsPort :
    (s v : Text) → IsPort (or_text s v) ↔ (((s ≢ []) × IsPort s) ⊎ ((s ≡ []) × IsPort v))
or_text-IsPort [] v =
    (λ h. inr (refl, h), λ h. elim h [ inl (n, p) ↦ absurd (n refl) | inr (e, p) ↦ p ])
or_text-IsPort (c ∷ s) v = (
  λ h. inl (λ e. ground arith, h),
  λ h. elim h [ inl (n, p) ↦ p | inr (e, p) ↦ absurd (ground arith) ],
)

-- The port of a layout is valid if the one that is given is, or else the layout's own.
given_port :
    (layout : ProxyLayout) (values : BuilderValues)
    → (is_valid_port (port_of layout values) ≡ true) ↔ (
        ((given values port ≢ []) × IsPort (given values port))
        ⊎ ((given values port ≡ []) × FirstNamed port HasPort layout.inputs))
given_port layout values =
    let own = find? (is_named port) layout.inputs in
    let s = given values port in
    let valid = is_valid_port_iff (or_text s (value_of own)) in
    let chosen = or_text-IsPort s (value_of own) in
    let default = default-IsPort own in
    let first = find-FirstNamed port port_iff HasPort layout.inputs in
    (
      λ h. elim (chosen.0 (valid.0 h)) [
        | inl k ↦ inl k
        | inr (e, p) ↦ inr (e, first.0 (default.0 p))
      ],
      λ h.
          valid.1
            (chosen.1 (elim h [ inl k ↦ inl k | inr (e, p) ↦ inr (e, default.1 (first.1 p)) ])),
    )

filled_iff : (s : Text) → (is_empty s ≡ false) ↔ (s ≢ [])
filled_iff [] = ground arith
filled_iff (c ∷ s) = ground arith

valid_parts_iff :
    {H P S E W : Type 0} (h p s e w : Bool)
    → (h ≡ true) ↔ H
    → (p ≡ true) ↔ P
    → (s ≡ true) ↔ S
    → (e ≡ false) ↔ E
    → (w ≡ false) ↔ W
    → (h && p && not (s && (e || w)) ≡ true) ↔ (H × P × (S → E × W))
valid_parts_iff h p s e w hh pp ss ee ww = ground (arith, hh, pp, ss, ee, ww)

network_url-valid_iff :
    (enc : Text → Text) (layout : ProxyLayout) (values : BuilderValues)
    → ((network_url enc layout values).valid ≡ true) ↔ IsNetwork layout values
network_url-valid_iff enc layout values =
    valid_parts_iff (nonempty (host_text values)) (is_valid_port (port_of layout values))
      (is_shadowsocks layout) (is_empty (given values encrypto))
      (is_empty (given values BuilderField.password))
      (ground (
        arith,
        nonempty-bracketed (trim (given values host)),
        nonempty_iff (trim (given values host)),
      ))
      (given_port layout values) (text_eq.same_iff layout.name (codes "shadowsocks"))
      (filled_iff (given values encrypto)) (filled_iff (given values BuilderField.password))

command_url-valid_iff :
    (field : LayoutInput) (layout : ProxyLayout) (values : BuilderValues)
    → ((command_url field layout values).valid ≡ true)
      ↔ ((trim (given values command) ≢ []) ⊎ (field.option ≡ true))
command_url-valid_iff field layout values =
    ground (arith, nonempty_iff (trim (given values command)))

by_field-valid_iff :
    (enc : Text → Text) (layout : ProxyLayout) (values : BuilderValues) (o : Option LayoutInput)
    → command_field_of layout ≡ o
    → (((by_field enc layout values o).valid ≡ true) ↔ IsComplete layout values)
      × (((by_field enc layout values o).hint ≡ none)
          ↔ ((by_field enc layout values o).valid ≡ true))
by_field-valid_iff enc layout values none e =
    let free = (find-NoneNamed command command_iff layout.inputs).0 e in
    let url = network_url-valid_iff enc layout values in
    (
      (
        λ h. inr (free, url.0 h),
        λ h. elim h [
          | inl k ↦ absurd (
              subst (Found command command_iff _) e
                ((find-FirstNamed command command_iff _ layout.inputs).1 k))
          | inr (n, k) ↦ url.1 k
        ],
      ),
      hint_for_iff (network_url enc layout values).valid _,
    )
by_field-valid_iff enc layout values (some field) e =
    let P : LayoutInput → Type 0 = λ i. (trim (given values command) ≢ []) ⊎ (i.option ≡ true) in
    let first = find-FirstNamed command command_iff P layout.inputs in
    let url = command_url-valid_iff field layout values in
    (
      (
        λ h. inl (first.0 (subst (Found command command_iff P) (sym e) (url.0 h))),
        λ h. elim h [
          | inl k ↦ url.1 (subst (Found command command_iff P) e (first.1 k))
          | inr (n, k) ↦
              absurd (ground (arith, e, (find-NoneNamed command command_iff layout.inputs).1 n))
        ],
      ),
      hint_for_iff (command_url field layout values).valid builder_command_hint,
    )

-- A built URL is valid exactly when the values are complete: for a command a line, unless it may be left
-- out; otherwise a host, a port from 1 to 65535, the layout's own where none is given, and for
-- Shadowsocks a cipher and a password. A hint stands beside it exactly when it is not valid.
pub build_url-valid_iff :
    (enc : Text → Text) (layout : ProxyLayout) (values : BuilderValues)
    → (((build_url enc layout values).valid ≡ true) ↔ IsComplete layout values)
      × (((build_url enc layout values).hint ≡ none) ↔ ((build_url enc layout values).valid ≡ true))
unfolding build_url
build_url-valid_iff enc layout values =
    by_field-valid_iff enc layout values (command_field_of layout) refl
