-- ===== src/Times/Tests.antt =====
-- Runs of the range of time.
use job_mon.Js.Object.{get, put}
use job_mon.Js.Text.Decimal.{numeral, numeral_from}
use job_mon.Times.Ranges.{IsKnownIn, run-IsRange}
use job_mon.Base.{List, String, [], ◌∷◌, ◌≡◌, some, refl, arith, false, true}
use job_mon.Base.Int.{◌*ℤ◌, ◌+ℤ◌, ◌-ℤ◌, ℤ}
use job_mon.Times.{
  Event, Span, Times, fresh, marks, on_after_change, on_change, place_marks, run, set_time_range,
  start_effect, step, stop_effect, tooltip_effect, started, stopped, shown_again, changed,
  after_change, zoomed,
}

abbrev finished : Span
finished = record { start_time = 100; stop_time = 500; is_running = false }

abbrev live : Span
live = record { start_time = 100; stop_time = 500; is_running = true }

abbrev moves : List Event
moves =
    started 900_000
    ∷ stopped 900_000
    ∷ shown_again
    ∷ changed (200_000, 300_000)
    ∷ after_change (200_000, 300_000)
    ∷ zoomed 210_000 220_000
    ∷ shown_again
    ∷ []

run-IsRange_example :
    IsKnownIn finished (run finished moves (fresh finished)).start_time
    × IsKnownIn finished (run finished moves (fresh finished)).stop_time
run-IsRange_example = run-IsRange finished moves refl (omega arith) (ground arith)

zoomed_range : (run finished moves (fresh finished)).tooltip_values ≡ (210_000, 220_000)
unfolding run step start_effect stop_effect tooltip_effect on_change on_after_change set_time_range
zoomed_range = refl

abbrev slides : List Event
slides = changed (200_000, 300_000) ∷ after_change (200_000, 300_000) ∷ shown_again ∷ []

abbrev watched : Times
watched = record (fresh live) { start_time = some 100_000; stop_time = some 400_000 }

printed : ℤ → String
printed t = "time"

quarter : get "200000" (marks printed live) ≡ some "time"
unfolding marks place_marks put get numeral numeral_from ◌+ℤ◌ ◌-ℤ◌ ◌*ℤ◌ printed
quarter = refl
