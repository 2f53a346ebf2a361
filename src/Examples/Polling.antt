-- ===== src/Examples/Polling.antt =====
-- A poller at work.
use jumpway.Prelude.{
  ℕ, ◌*◌, min, ◌≤◌, ◌<◌, ◌⊎◌, true, false, List, [], ◌∷◌, none, some, ◌≡◌, refl, arith,
}
use jumpway.Poller.{
  Options, Poller, create, delay, step, run, Event, value, failed, subscribed, released, shown,
  answers,
}
use jumpway.Poller.Invariant.{IsValid, run-IsValid}
use jumpway.Poller.Progress.{IsWanted, Loads, run-Loads}
use jumpway.Poller.Late.{IsStop, stop-drops_late}
use jumpway.Poller.Backoff.{delay_backoff}

abbrev pub options : Options
options = record { interval = 10000; max_interval = 60000 }

-- A page subscribes, is hidden while the load runs, and the answer comes late.
abbrev hidden : List (Event ℕ ℕ)
hidden = subscribed ∷ shown false ∷ answers 1 (value 7) ∷ []

abbrev watched : Poller ℕ ℕ
watched = run options (subscribed ∷ []) (create true false)

late_dropped : (run options hidden (create true false)).data' ≡ none
unfolding step
late_dropped = refl

in_time_shown : (run options (answers 1 (value 7) ∷ []) watched).data' ≡ some 7
unfolding step
in_time_shown = refl

run-IsValid_example : IsValid (run options hidden (create true false))
run-IsValid_example = run-IsValid options hidden true false

watched-IsStop : IsStop released watched
unfolding step
watched-IsStop = refl

abbrev late : List (Event ℕ ℕ)
late = answers 1 (value 7) ∷ []

stop-drops_late_example :
    (((run options late (step options released watched)).answered
        ≡ (step options released watched).answered)
      × ((run options late (step options released watched)).data'
          ≡ (step options released watched).data')
      × ((run options late (step options released watched)).delivered
          ≡ (step options released watched).delivered))
    ⊎ (watched.requested < (run options late (step options released watched)).answered)
stop-drops_late_example = stop-drops_late options released late watched watched-IsStop

delay_backoff_example :
    (delay options 0 ≡ 10000)
    × (10000 ≤ delay options 3)
    × (delay options 3 ≤ 60000)
    × (delay options 4 ≡ min (2 * delay options 3) 60000)
delay_backoff_example = delay_backoff options 3 (omega arith)

-- The load fails again and again, and the next one is started.
watched-IsWanted : IsWanted watched
unfolding step
watched-IsWanted = (omega arith, refl, refl)

run-Loads_example : Loads options (failed 0) 4 watched
run-Loads_example = run-Loads options (failed 0) (subscribed ∷ []) true false watched-IsWanted
