-- ===== src/Examples/Asking.antt =====
-- The dialogs, the tooltip and the messages, at concrete events.
use jumpway.Prelude.{
  ℕ, any, nat_beq, Bool-cases, true, false, List, [], ◌∷◌, Option, none, some, is_some, Text,
  text_eq, text_beq, codes, lookup, if◌then◌else◌, ◌==◌, ◌≡◌, refl, inl, inr, In,
}
use jumpway.UrlBuilder.{host}
use jumpway.Dialogs.Confirm
use jumpway.Dialogs.Answers
use jumpway.Dialogs.Builder
use jumpway.Dialogs.Usable
use jumpway.Tooltip
use jumpway.Tooltip.Owner
use jumpway.I18n.{I18n, reconcile, set_language, english, chinese, messages, t}
use jumpway.I18n.Choice.{fresh, reconcile-set_language}
use jumpway.I18n.English.{en}
use jumpway.I18n.Agree.{message, names, t-names}
use jumpway.Examples.Building.{no_urls}

abbrev question : Confirm.ConfirmOptions
question = record {
  title = none;
  message = codes "Delete?";
  confirm_label = none;
  cancel_label = none;
  danger = true;
}

-- A second question while the first waits, a late event of a closing, and a yes.
abbrev answers : List Confirm.ConfirmEvent
answers =
    Confirm.asks question false
    ∷ Confirm.mounts
    ∷ Confirm.asks question false
    ∷ Confirm.asks question false
    ∷ Confirm.ticks 1
    ∷ Confirm.closes
    ∷ Confirm.clicks true
    ∷ Confirm.unmounts
    ∷ []

answers_test :
    (Confirm.run answers Confirm.no_dialog).answers ≡ (1, true) ∷ (2, false) ∷ (0, false) ∷ []
unfolding Confirm.handle Confirm.settle Confirm.ticked Confirm.on_close Confirm.register
    Confirm.unregister
answers_test = refl

run-IsAnswering_example : Answers.IsAnswering (Confirm.run answers Confirm.no_dialog)
run-IsAnswering_example = Answers.run-IsAnswering answers

-- A URL is asked for, a host is typed, and the form is sent.
abbrev built : List Builder.BuilderEvent
built =
    Builder.opens []
    ∷ Builder.ticks 0 (some 7)
    ∷ Builder.submits
    ∷ Builder.types host (codes "a")
    ∷ Builder.submits
    ∷ []

run-IsUsable_example :
    Usable.IsAnswering
      (λ s. s)
      (λ s. s)
      no_urls
      some
      (Builder.run (λ s. s) (λ s. s) no_urls some built Builder.new_builder)
run-IsUsable_example = Usable.run-IsUsable (λ s. s) (λ s. s) no_urls some built

-- The element 1 has a token of its own.
abbrev own : ℕ → List Text
own n = if nat_beq n 1 then codes "hint" ∷ [] else []

abbrev shown : List Tooltip.TooltipEvent
shown =
    Tooltip.mounts
    ∷ Tooltip.enters 1 (codes "Reload")
    ∷ Tooltip.enters 2 (codes "Delete")
    ∷ Tooltip.leaves 2
    ∷ Tooltip.enters 1 (codes "Reload")
    ∷ Tooltip.runs
    ∷ []

own-free : (n : ℕ) → any Tooltip.is_tooltip (own n) ≡ false
unfolding text_beq
own-free n = elim (Bool-cases (nat_beq n 1)) [ inl e ↦ rw e refl | inr e ↦ rw e refl ]

run-IsOwned_example : Owner.IsOwned own (Tooltip.run shown (Tooltip.hidden own))
run-IsOwned_example = Owner.run-IsOwned own own-free shown

-- The message of `ago` asks for a time alone.
abbrev minutes : Text → Option Text
minutes name = if name == codes "time" then some (codes "5 min") else none

abbrev minutes_and_more : Text → Option Text
minutes_and_more name = if name == codes "time" then some (codes "5 min") else some (codes "x")

same_time :
    (name : Text)
    → In name (names (message (codes "ago") en))
    → minutes name ≡ minutes_and_more name
unfolding names en text_beq lookup
same_time name m = elim m [ inl e ↦ rw (← e) refl | inr k ↦ absurd k ]

t-names_example :
    (is_some (lookup (codes "ago") (messages chinese)) ≡ is_some (lookup (codes "ago") en))
    × (t chinese (codes "ago") minutes ≡ t chinese (codes "ago") minutes_and_more)
t-names_example = t-names chinese (codes "ago") minutes minutes_and_more same_time

t_test : t english (codes "ago") minutes ≡ codes "5 min ago"
unfolding t en text_beq lookup
t_test = refl

-- An address that is the code of the language itself.
abbrev addressed : I18n
addressed = fresh (codes "en") none true

reconcile-set_language_example :
    (reconcile some (λ q v. v) [] (set_language some (λ q v. v) [] chinese addressed)).language
    ≡ chinese
reconcile-set_language_example =
    reconcile-set_language some (λ q v. v) [] (λ q v. refl) chinese addressed refl
