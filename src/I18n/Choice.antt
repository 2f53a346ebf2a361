-- ===== src/I18n/Choice.antt =====
-- What becomes of a choice of the language.
use jumpway.Prelude.{
  Bool, true, false, not, ◌||◌, List, [], ◌∷◌, Option, none, some, is_some, Text, text_beq, codes,
  ◌≡◌, ◌∙◌, refl, ap, arith, inl, inr, Option-cases,
}
use jumpway.I18n.{
  Language, english, chinese, code_of, read_language, resolve_language, I18n, read_stored,
  write_stored, document_code, apply, reconcile, init, set_language, replace_address, dispose,
  popstate, LanguageEvent, inits, disposes, sets, moves, denies, step, run,
}

read_language-code_of : (l : Language) → read_language (some (code_of l)) ≡ some l
unfolding text_beq
read_language-code_of english = refl
read_language-code_of chinese = refl

-- Before the page starts, in a browser with a storage that may hold a text or be denied.
abbrev pub fresh : Text → Option Text → Bool → I18n
fresh query stored denied = record {
  language = english;
  explicit = false;
  listening = false;
  document_language = codes "en";
  query = query;
  stored = stored;
  denied = denied;
}

-- What `URLSearchParams` promises of a member that is set.
abbrev pub IsQuery : (Text → Option Text) → (Text → Text → Text) → Type 0
IsQuery get_lang set_lang = (query value : Text) → get_lang (set_lang query value) ≡ some value

module _ (get_lang : Text → Option Text) (set_lang : Text → Text → Text)
    (navigator : List Text) where
  -- The document names the language, and a choice that is explicit is that of the address.
  pub record IsSpoken (s : I18n) : Type 0 where
    pub document : s.document_language ≡ document_code s.language
    pub named :
        s.listening ≡ true → s.explicit ≡ true → read_language (get_lang s.query) ≡ some s.language

  resolved-named :
      (override stored : Option Text)
      → (resolve_language override stored navigator).1 ≡ true
      → read_language override ≡ some (resolve_language override stored navigator).0
  resolved-named override stored e = elim (Option-cases (read_language override)) [
    | inr (l, q) ↦ ground (arith, q)
    | inl q ↦ elim (Option-cases (read_language stored)) [
      | inl r ↦ absurd (ground (arith, e, q, r))
      | inr (l, r) ↦ absurd (ground (arith, e, q, r))
    ]
  ]

  reconcile-IsSpoken : (s : I18n) → IsSpoken (reconcile get_lang set_lang navigator s)
  unfolding reconcile apply
  reconcile-IsSpoken s = record {
    document = refl;
    named = λ l e. resolved-named (get_lang s.query) (read_stored s) e;
  }

  popstate-IsSpoken :
      (listening : Bool) (query : Text) (s : I18n)
      → s.listening ≡ listening
      → IsSpoken s
      → IsSpoken (popstate get_lang set_lang navigator listening query s)
  popstate-IsSpoken true query s e h = reconcile-IsSpoken (record s { query = query })
  popstate-IsSpoken false query s e h = record {
    document = h.document;
    named = λ l q. absurd (cc (l, e));
  }

  resolved-override :
      (override stored : Option Text) (l : Language)
      → read_language override ≡ some l
      → (resolve_language override stored navigator).0 ≡ l
  resolved-override override stored l e = rw (resolve_language, e) refl

  resolved-stored :
      (override stored : Option Text) (l : Language)
      → override ≡ none
      → read_language stored ≡ some l
      → (resolve_language override stored navigator).0 ≡ l
  resolved-stored override stored l e q = rw (resolve_language, e, q) refl

  -- What is read of a choice, by whether the address names a language.
  chosen-spoken :
      (law : IsQuery get_lang set_lang) (named : Bool) (next : Language) (s : I18n)
      → is_some (get_lang s.query) ≡ named
      → not s.denied || named ≡ true
      → (reconcile get_lang set_lang navigator (
          replace_address get_lang set_lang navigator named next
            (write_stored next (apply next s)))).language
        ≡ next
  unfolding reconcile apply
  chosen-spoken law true next s e h =
      resolved-override _ _ next
        (ap read_language (law s.query (code_of next)) ∙ read_language-code_of next)
  chosen-spoken law false next s e h =
      let usable : s.denied ≡ false = ground (arith, h) in
      resolved-stored _ _ next
        (elim (Option-cases (get_lang s.query)) [
          | inl q ↦ q
          | inr (value, q) ↦ absurd (ground (arith, e, q))
        ])
        (rw usable (read_language-code_of next))

  module _ (law : IsQuery get_lang set_lang) where
    chosen-IsSpoken :
        (named : Bool) (next : Language) (s : I18n)
        → is_some (get_lang s.query) ≡ named
        → IsSpoken s
        → IsSpoken (
            replace_address get_lang set_lang navigator named next
              (write_stored next (apply next s)))
    unfolding apply
    chosen-IsSpoken true next s e h = record {
      document = refl;
      named = λ l q. rw law (read_language-code_of next);
    }
    chosen-IsSpoken false next s e h = record {
      document = refl;
      named = λ l q. elim (Option-cases (get_lang s.query)) [
        | inl none_here ↦ absurd (ground (arith, h.named l q, none_here))
        | inr (value, here) ↦ absurd (ground (arith, e, here))
      ];
    }

    step-IsSpoken :
        (e : LanguageEvent) (s : I18n)
        → IsSpoken s
        → IsSpoken (step get_lang set_lang navigator e s)
    unfolding init dispose apply set_language
    step-IsSpoken inits s h = reconcile-IsSpoken (record s { listening = true })
    step-IsSpoken disposes s h = record { document = refl; named = λ l q. cc }
    step-IsSpoken (sets next) s h = chosen-IsSpoken (is_some (get_lang s.query)) next s refl h
    step-IsSpoken (moves query) s h = popstate-IsSpoken s.listening query s refl h
    step-IsSpoken (denies denied) s h = record { document = h.document; named = h.named }

    run-keeps :
        (es : List LanguageEvent) (s : I18n)
        → IsSpoken s
        → IsSpoken (run get_lang set_lang navigator es s)
    run-keeps [] s h = h
    run-keeps (e ∷ es) s h = run-keeps es _ (step-IsSpoken e s h)

    -- Where the member of a query that is set is read back: whatever happens, the document names the
    -- language that is spoken, and while the page listens a choice that counts as explicit is the
    -- language that the address names.
    pub run-IsSpoken :
        (es : List LanguageEvent) (query : Text) (stored : Option Text) (denied : Bool)
        → IsSpoken (run get_lang set_lang navigator es (fresh query stored denied))
    run-IsSpoken es query stored denied =
        run-keeps es (fresh query stored denied) (record { document = refl; named = λ l q. cc })

    -- Where the member of a query that is set is read back: a language that is chosen is still spoken
    -- after the address is read again, if the storage can be used or the address named a language.
    pub reconcile-set_language :
        (next : Language) (s : I18n)
        → not s.denied || is_some (get_lang s.query) ≡ true
        → (reconcile get_lang set_lang navigator
            (set_language get_lang set_lang navigator next s)).language
          ≡ next
    unfolding set_language
    reconcile-set_language next s h = chosen-spoken law (is_some (get_lang s.query)) next s refl h
