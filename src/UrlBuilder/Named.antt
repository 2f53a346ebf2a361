-- ===== src/UrlBuilder/Named.antt =====
-- The first input of a layout that has a name, which `find` of app/web/ui/src/lib/urlBuilder.ts gives.
use jumpway.Prelude.{
  true, false, List, [], ◌∷◌, Option, none, some, find?, All, ◌≡◌, ◌≢◌, ◌↔◌, ◌⊎◌, inl, inr, refl,
  arith, Option-cases, Bool-cases,
}
use jumpway.UrlBuilder.{BuilderField, LayoutInput, port, command, field_beq, is_named}

-- Something that holds of the first input with a name; and that no input has the name.
abbrev pub FirstNamed : BuilderField → (LayoutInput → Type 0) → List LayoutInput → Type 0
FirstNamed field P [] = ⊥
FirstNamed field P (i ∷ is) =
    ((i.name ≡ some field) × P i) ⊎ ((i.name ≢ some field) × FirstNamed field P is)

abbrev pub NoneNamed : BuilderField → List LayoutInput → Type 0
NoneNamed field = All (λ (i : LayoutInput). i.name ≢ some field)

pub port_iff : (a : BuilderField) → (field_beq a port ≡ true) ↔ (a ≡ port)
port_iff a = ground arith

pub command_iff : (a : BuilderField) → (field_beq a command ≡ true) ↔ (a ≡ command)
command_iff a = ground arith

module _ (field : BuilderField)
    (known : (a : BuilderField) → (field_beq a field ≡ true) ↔ (a ≡ field)) where
  is_named_iff : (i : LayoutInput) → (is_named field i ≡ true) ↔ (i.name ≡ some field)
  is_named_iff i = elim (Option-cases i.name) [
    | inl e ↦ ground (arith, e)
    | inr (name, e) ↦ ground (arith, e, known name)
  ]

  abbrev pub Found : (LayoutInput → Type 0) → Option LayoutInput → Type 0
  Found P none = ⊥
  Found P (some i) = P i

  unnamed : (i : LayoutInput) → is_named field i ≡ false → i.name ≢ some field
  unnamed i e k = ground (arith, e, is_named_iff i)

  pub find-FirstNamed :
      (P : LayoutInput → Type 0) (is : List LayoutInput)
      → Found P (find? (is_named field) is) ↔ FirstNamed field P is
  find-FirstNamed P [] = (λ p. p, λ p. p)
  find-FirstNamed P (i ∷ is) = elim (Bool-cases (is_named field i)) [
    | inl e ↦ rw e (
      λ p. inl ((is_named_iff i).0 e, p),
      λ h. elim h [ inl (k, p) ↦ p | inr (k, p) ↦ absurd (k ((is_named_iff i).0 e)) ],
    )
    | inr e ↦ rw e (
      λ p. inr (unnamed i e, (find-FirstNamed P is).0 p),
      λ h. elim h [ inl (k, p) ↦ absurd (unnamed i e k) | inr (k, p) ↦ (find-FirstNamed P is).1 p ],
    )
  ]

  pub find-NoneNamed :
      (is : List LayoutInput) → (find? (is_named field) is ≡ none) ↔ NoneNamed field is
  find-NoneNamed [] = (λ e. tt, λ h. refl)
  find-NoneNamed (i ∷ is) = elim (Bool-cases (is_named field i)) [
    | inl e ↦ rw e (λ k. ground arith, λ (k, h). absurd (k ((is_named_iff i).0 e)))
    | inr e ↦ rw e (λ k. (unnamed i e, (find-NoneNamed is).0 k), λ (k, h). (find-NoneNamed is).1 h)
  ]
