-- ===== src/ReadRule/Results.antt =====
-- What `readRule` answers: a rule exactly for an acceptable draft, and otherwise errors.
use mathlib.Core.Path.{subst}
use jumpway.Prelude.{
  ap, sym, ℕ, true, Option, none, some, Text, if◌then◌else◌, ◌≡◌, ◌≢◌, ◌⊎◌, inl, inr, ◌↔◌, refl,
  arith, Bool-cases,
}
use jumpway.Wire.{Rule}
use jumpway.Draft.{RuleDraft}
use jumpway.ReadRule.Errors.{DraftErrors, has_errors, IsClear, ReadContext, ReadResult, ok, errors}
use jumpway.ReadRule.Accept.{IsAcceptable, all_errors-IsClear_iff}
use jumpway.ReadRule.Stages.{TargetOk}
use jumpway.ReadRule.{
  listen_port, listen_channel, target_port, target_channel, all_errors, built_rule, read_fields,
  read_rule,
}

some_of_ne_none : {A : Type 0} (o : Option A) → o ≢ none → (a : A) × (o ≡ some a)
some_of_ne_none none h = absurd (h refl)
some_of_ne_none (some a) h = (a, refl)

some_of_TargetOk :
    (o listen_channel : Option Text) → TargetOk o listen_channel → (a : Text) × (o ≡ some a)
some_of_TargetOk none lc h = absurd h
some_of_TargetOk (some a) lc h = (a, refl)

module _ (number : Text → Option ℕ) (d : RuleDraft) where
  -- The four fields are read, and the rule is the one that is built from them.
  pub record IsRead (rule : Rule) : Type 0 where
    pub lp : ℕ
    pub lc : Text
    pub tp : ℕ
    pub tc : Text
    pub listen_port_read : listen_port number d ≡ some lp
    pub listen_channel_read : listen_channel number d ≡ some lc
    pub target_port_read : target_port number d ≡ some tp
    pub target_channel_read : target_channel number d ≡ some tc
    pub built : rule ≡ built_rule number d lp lc tp tc

  -- The last step of `readRule`, where the fields and the errors are known.
  finish : Option Rule → DraftErrors → ReadResult
  finish o e = elim o [ none ↦ errors e | some rule ↦ if has_errors e then errors e else ok rule ]

  abbrev fields : Option Rule
  fields =
      read_fields number d (listen_port number d) (listen_channel number d) (target_port number d)
        (target_channel number d)

  read_rule-finish :
      (context : Option ReadContext)
      → read_rule number d context ≡ finish fields (all_errors number d context)
  unfolding read_rule finish
  read_rule-finish context = refl

  IsRead-fields : {rule : Rule} → IsRead rule → fields ≡ some rule
  unfolding read_fields
  IsRead-fields {rule} r =
      rw (r.listen_port_read, r.listen_channel_read, r.target_port_read, r.target_channel_read)
        (ap some (sym r.built))

  -- An acceptable draft has all four fields.
  acceptable-IsRead :
      (context : Option ReadContext)
      → IsAcceptable number d context
      → (rule : Rule) × IsRead rule × (fields ≡ some rule)
  acceptable-IsRead context a =
      let (lp, elp) = some_of_ne_none (listen_port number d) a.entry.1 in
      let (lc, elc) = some_of_ne_none (listen_channel number d) a.entry.2 in
      let (tp, etp) = some_of_ne_none (target_port number d) a.targets.0 in
      let (tc, etc) = some_of_TargetOk (target_channel number d) _ a.targets.1 in
      let r : IsRead (built_rule number d lp lc tp tc) = record {
        lp = lp;
        lc = lc;
        tp = tp;
        tc = tc;
        listen_port_read = elp;
        listen_channel_read = elc;
        target_port_read = etp;
        target_channel_read = etc;
        built = refl;
      } in
      (built_rule number d lp lc tp tc, r, IsRead-fields r)

  finish-eq-ok :
      (o : Option Rule) (e : DraftErrors) {rule : Rule}
      → finish o e ≡ ok rule
      → IsClear e × (o ≡ some rule)
  unfolding finish
  finish-eq-ok none e h = ground arith
  finish-eq-ok (some r) e h = ground arith

  finish_of_clear :
      (o : Option Rule) (e : DraftErrors) {rule : Rule}
      → IsClear e
      → o ≡ some rule
      → finish o e ≡ ok rule
  unfolding finish
  finish_of_clear none e c h = ground arith
  finish_of_clear (some r) e c h = ground arith

  finish-eq-errors :
      (o : Option Rule) (e e' : DraftErrors)
      → finish o e ≡ errors e'
      → (e' ≡ e) × ((has_errors e ≡ true) ⊎ (o ≡ none))
  unfolding finish
  finish-eq-errors none e e' h = ground arith
  finish-eq-errors (some r) e e' h = ground arith

  -- The answer is a rule exactly when the draft is acceptable, and then it is the rule that is built
  -- from the fields as they are read.
  pub read_rule_iff :
      (context : Option ReadContext) (rule : Rule)
      → (read_rule number d context ≡ ok rule) ↔ (IsAcceptable number d context × IsRead rule)
  read_rule_iff context rule = rw read_rule-finish (to, from)
    where
      to :
          finish fields (all_errors number d context) ≡ ok rule
          → IsAcceptable number d context × IsRead rule
      to h =
          let (clear, found) = finish-eq-ok fields _ h in
          let a = (all_errors-IsClear_iff number d context).0 clear in
          let (rule', r, found') = acceptable-IsRead context a in
          let same : rule' ≡ rule = cc in (a, subst IsRead same r)

      from :
          IsAcceptable number d context × IsRead rule
          → finish fields (all_errors number d context) ≡ ok rule
      from (a, r) =
          finish_of_clear fields _ ((all_errors-IsClear_iff number d context).1 a) (IsRead-fields r)

  -- An answer that is no rule names at least one error, and is given only to a draft that is not
  -- acceptable.
  pub read_rule-errors :
      (context : Option ReadContext) (e : DraftErrors)
      → read_rule number d context ≡ errors e
      → (has_errors e ≡ true) × ¬ (IsAcceptable number d context)
  read_rule-errors context e h =
      let (same, why) = finish-eq-errors fields _ e (rw read_rule-finish at h) in
      let refused : ¬ (IsAcceptable number d context) = λ a.
        let clear = (all_errors-IsClear_iff number d context).1 a in
        let (rule', r, found) = acceptable-IsRead context a in
        elim why [ inl bad ↦ cc | inr lost ↦ cc ] in
      (
        elim (Bool-cases (has_errors e)) [
          | inl bad ↦ bad
          | inr clear ↦
              absurd (refused ((all_errors-IsClear_iff number d context).0 (rw same at clear)))
        ],
        refused,
      )
