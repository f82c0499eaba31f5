-- ===== src/Times.antt =====
-- The range of time that a job's page shows: the effects of frontend/pages/job/[id].tsx that set it,
-- and frontend/components/jobview/TimeControl.tsx, which moves it. Times are in milliseconds, those of
-- the job in seconds. The clock (`now`) is an argument.
pub mod Marks
pub mod Ranges
mod Tests
use job_mon.Js.Object.{Object, put}
use job_mon.Js.Text.Decimal.{numeral}
use job_mon.Storage.{start}
use job_mon.Base.{
  Bool, List, Option, String, ℕ, [], ◌∷◌, ◌*◌, ◌-◌, false, if◌then◌else◌, max, none, not, some, suc,
  true, zero,
}
use job_mon.Base.Int.{ℤ, pos, negsuc, ◌*ℤ◌, ◌+ℤ◌, ◌-ℤ◌}
use Prim.Native.String
use job_mon.Cache.{truthy}

-- What is read of the job's metadata.
pub record Span : Type 0 where
  pub start_time : ℕ
  pub stop_time : ℕ
  pub is_running : Bool

-- The range of the page, and the state of the slider.
pub record Times : Type 0 where
  pub start_time : Option ℕ
  pub stop_time : Option ℕ
  pub tooltip_values : ℕ × ℕ
  pub show_tooltip : Bool

abbrev set_start : ℕ → Times → Times
set_start t s = record s { start_time = some t }

abbrev set_stop : ℕ → Times → Times
set_stop t s = record s { stop_time = some t }

-- The time that the effect on the start of a job chooses.
abbrev start_of : ℕ → Bool → ℕ → ℕ
start_of now true start = max (now - 3600 * 1000) (start * 1000)
start_of now false start = start * 1000

abbrev start_from : ℕ → Bool → Option ℕ → Times → Times
start_from now is_running none s = s
start_from now is_running (some start) s = set_start (start_of now is_running start) s

-- The effect that sets the start. Below 0 the clock is below every job's start too.
unfoldable pub start_effect : ℕ → Span → Times → Times
start_effect now span s = start_from now span.is_running (truthy (some span.start_time)) s

abbrev stop_from : ℕ → Bool → Option ℕ → Times → Times
stop_from now true stop s = set_stop now s
stop_from now false none s = s
stop_from now false (some stop) s = set_stop (stop * 1000) s

-- The effect that sets the stop.
unfoldable pub stop_effect : ℕ → Span → Times → Times
stop_effect now span s = stop_from now span.is_running (truthy (some span.stop_time)) s

abbrev pub or_default : ℕ → Option ℕ → ℕ
or_default d none = d
or_default d (some t) = t

-- The effect of the slider on a new range.
unfoldable pub tooltip_effect : Times → Times
tooltip_effect s = record s {
  tooltip_values = (or_default 0 s.start_time, or_default 1 s.stop_time);
}

-- `onBeforeChange` and `onChange`
unfoldable pub on_change : Span → ℕ × ℕ → Times → Times
on_change span val s = record s {
  show_tooltip = true;
  tooltip_values = if span.is_running then (val.0, s.tooltip_values.1) else val;
}

-- `onAfterChange`
unfoldable pub on_after_change : Span → ℕ × ℕ → Times → Times
on_after_change span val s = record s {
  show_tooltip = false;
  start_time = some val.0;
  stop_time = if span.is_running then s.stop_time else some val.1;
}

-- The button "Reset Time Range".
unfoldable pub reset : Span → Times → Times
reset span s = record s {
  start_time = some (span.start_time * 1000);
  stop_time = some (span.stop_time * 1000);
}

-- `setTimeRange`, which the charts of a job get that is not running.
unfoldable pub set_time_range : Span → ℕ → ℕ → Times → Times
set_time_range span from to s =
    if span.is_running then s else record s { start_time = some from; stop_time = some to }

pub data Event : Type 0 where
  started stopped : ℕ → Event
  shown_again was_reset : Event
  changed after_change : ℕ × ℕ → Event
  zoomed : ℕ → ℕ → Event

unfoldable pub step : Span → Event → Times → Times
unfolding start_effect stop_effect tooltip_effect on_change on_after_change reset set_time_range
step span (started now) s = start_effect now span s
step span (stopped now) s = stop_effect now span s
step span shown_again s = tooltip_effect s
step span was_reset s = reset span s
step span (changed val) s = on_change span val s
step span (after_change val) s = on_after_change span val s
step span (zoomed from to) s = set_time_range span from to s

unfoldable pub run : Span → List Event → Times → Times
unfolding step
run span [] s = s
run span (e ∷ es) s = run span es (step span e s)

-- The page before it has a range.
abbrev pub fresh : Span → Times
fresh span = record {
  start_time = none;
  stop_time = none;
  tooltip_values = (span.start_time * 1000, span.stop_time * 1000);
  show_tooltip = false;
}

-- The text of a whole number, as it is used for a key.
abbrev pub text_of : ℤ → String
text_of (pos n) = numeral n
text_of (negsuc n) = String.◌++◌ "-" (numeral (suc n))

-- `inc`: a quarter of a second is exact, and so is the number of milliseconds.
abbrev pub mark_distance : Span → ℤ
mark_distance span = (pos span.stop_time -ℤ pos span.start_time) *ℤ pos 250

module _ (to_locale_string : ℤ → String) where
  -- The loop that places the marks, for the rounds that are left: the marks, and the time after them.
  unfoldable pub place_marks : ℕ → ℤ → ℤ → Object String → Object String × ℤ
  unfolding put numeral
  place_marks zero inc t marks = (marks, t)
  place_marks (suc rounds) inc t marks =
      place_marks rounds inc (t +ℤ inc) (put (text_of t) (to_locale_string t) marks)

  abbrev last_mark : Bool → Object String × ℤ → Object String
  last_mark is_running (marks, t) =
      put (text_of t) (if is_running then "Live" else to_locale_string t) marks

  -- The marks of the slider.
  unfoldable pub marks : Span → Object String
  unfolding place_marks put numeral
  marks span =
      last_mark span.is_running
        (place_marks 4 (mark_distance span) (pos (span.start_time * 1000)) [])
