-- ===== src/Examples/Moving.antt =====
-- The notice of a moved server, and the lines of a text field.
use jumpway.Prelude.{
  ℕ, true, false, List, [], ◌∷◌, ◌++◌, none, some, Text, trim, text_beq, codes, nat_beq,
  if◌then◌else◌, ◌≡◌, ◌≢◌, refl, arith, inr, Option, All,
}
use jumpway.Way.Laws.{IsUsable}
use jumpway.Settings.{Urls, address_url, same_address, listener_url, MovedLinkOptions}
use jumpway.Status.{Status}
use jumpway.Moved.Before.{reconcile-before_write}
use jumpway.Moved.Target.{IsUrls}
use jumpway.Poller.{
  absent, step, create, run, Event, subscribed, answers, cleaned, rescheduled, fired, value,
}
use jumpway.Moved.{cleared, begin_write, reconcile}
use jumpway.Moved.Links.{
  MovedEvent, begins, records, refreshes, reports, IsSound, steps, steps-IsSound,
}
use jumpway.Examples.Polling.{options}

-- What stands before the first colon, and what stands after it.
abbrev before_colon : Text → Text
before_colon [] = []
before_colon (c ∷ s) = if nat_beq c b':' then [] else c ∷ before_colon s

abbrev after_colon : Text → Text
after_colon [] = []
after_colon (c ∷ s) = if nat_beq c b':' then s else after_colon s

abbrev strip_scheme : Text → Text
strip_scheme (_ ∷ _ ∷ _ ∷ _ ∷ _ ∷ _ ∷ _ ∷ s) = s
strip_scheme _ = []

-- URLs of a host and a port alone.
abbrev pub plain_urls : Urls
plain_urls = record {
  Url = Text;
  parse = λ s. some (strip_scheme s);
  username = λ u. [];
  password = λ u. [];
  pathname = λ u. codes "/";
  search = λ u. [];
  hash = λ u. [];
  hostname = before_colon;
  port = after_colon;
  href = λ u. codes "http://" ++ u;
  set_hostname = λ h u. h ++ (b':' ∷ after_colon u);
  set_lang = λ l u. u;
  set_hash = λ h u. u;
}

abbrev pub host : Text
host = codes "10.0.0.1:8080"

abbrev pub page : MovedLinkOptions
page = record { current_host = host; lang = none; hash = codes "#/" }

abbrev elsewhere : Text
elsewhere = codes "10.0.0.1:9090"

abbrev stopped_status : Status
stopped_status = record { address = host; running = false; error = none; rules = none }

cut_back : (o t : Text) → before_colon (before_colon o ++ b':' ∷ t) ≡ before_colon o
cut_back [] t = refl
cut_back (c ∷ o) t = ground (arith, cut_back o t)

cut_on : (o t : Text) → after_colon (before_colon o ++ b':' ∷ t) ≡ t
cut_on [] t = refl
cut_on (c ∷ o) t = ground (arith, cut_on o t)

plain-IsUrls : IsUrls plain_urls
plain-IsUrls = record {
  reparsed = λ u. refl;
  hash_hostname = λ h u. refl;
  hash_port = λ h u. refl;
  lang_hostname = λ l u. refl;
  lang_port = λ l u. refl;
  hostname_hostname = λ o u. cut_back o (after_colon u);
  hostname_port = λ o u. cut_on o (after_colon u);
}

steps-IsSound_example :
    IsSound plain_urls host
      (steps plain_urls host
        (((none, codes "#/"), begins 3)
          ∷ ((none, codes "#/"), records elsewhere true)
          ∷ ((none, codes "#/"), refreshes none)
          ∷ ((none, codes "#/yaml"), reports stopped_status 4)
          ∷ [])
        cleared).notice
steps-IsSound_example = steps-IsSound plain_urls plain-IsUrls host (
    ((none, codes "#/"), begins 3)
    ∷ ((none, codes "#/"), records elsewhere true)
    ∷ ((none, codes "#/"), refreshes none)
    ∷ ((none, codes "#/yaml"), reports stopped_status 4)
    ∷ [])

-- A write begins while the second load is on the wire; it is applied, and its refresh gets no answer.
abbrev in_flight : List (Event ℕ ℕ)
in_flight = subscribed ∷ answers 1 (value 7) ∷ cleaned 1 ∷ rescheduled 1 ∷ fired ∷ []

abbrev written : List ((Option Text × Text) × MovedEvent)
written = ((none, codes "#/"), records elsewhere true) ∷ ((none, codes "#/"), refreshes none) ∷ []

on_wire : (run options in_flight (create true false)).loads 2 ≢ absent
unfolding step
on_wire = λ e. cc

reconcile-before_write_example :
    reconcile plain_urls page stopped_status 2 (
      steps plain_urls host written
        (begin_write (run options in_flight (create true false)).requested cleared))
    ≡ steps plain_urls host written
        (begin_write (run options in_flight (create true false)).requested cleared)
reconcile-before_write_example =
    reconcile-before_write plain_urls host options in_flight true false 2 written (none, codes "#/")
      stopped_status cleared (inr on_wire) (tt, (tt, tt))

-- The two ports differ, so the page has to be reopened.
not_same : same_address plain_urls elsewhere host ≡ false
unfolding same_address text_beq listener_url address_url
not_same = refl

abbrev lines : List Text
lines = codes "10.0.0.0/8" ∷ codes "*.lan" ∷ []

lines-IsUsable : All IsUsable lines
unfolding trim
lines-IsUsable = ((refl, refl), ((refl, refl), tt))
