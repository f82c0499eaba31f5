-- ===== src/Times/Ranges.antt =====
-- Where the range of a page stays.
use job_mon.Cache.{truthy}
use job_mon.Storage.{start}
use job_mon.Base.{
  ap, All, List, Option, ℕ, [], ◌∷◌, ◌*◌, ◌≡◌, ◌≤◌, arith, false, none, refl, some, suc, true, zero,
}
use job_mon.Times.{
  stop_from, fresh, or_default, run, start_from, Event, Span, Times, on_after_change, on_change,
  reset, set_time_range, start_effect, step, stop_effect, tooltip_effect, started, stopped,
  shown_again, was_reset, changed, after_change, zoomed,
}

abbrev pub IsIn : Span → ℕ → Type 0
IsIn span t = (span.start_time * 1000 ≤ t) × (t ≤ span.stop_time * 1000)

abbrev pub IsKnownIn : Span → Option ℕ → Type 0
IsKnownIn span none = Unit
IsKnownIn span (some t) = IsIn span t

-- The slider answers values between its ends, and a chart the dates of its points.
abbrev pub IsAnswer : Span → Event → Type 0
IsAnswer span (changed val) = IsIn span val.0 × IsIn span val.1
IsAnswer span (after_change val) = IsIn span val.0 × IsIn span val.1
IsAnswer span (zoomed from to) = IsIn span from × IsIn span to
IsAnswer span _ = Unit

abbrev IsRange : Span → Times → Type 0
IsRange span s = IsKnownIn span s.start_time × IsKnownIn span s.stop_time

truthy-same : (n m : ℕ) → truthy (some n) ≡ some m → n ≡ m
truthy-same zero m e = absurd (cc e)
truthy-same (suc n) m e = ground arith

IsRange-start :
    (span : Span) (now : ℕ) (start : Option ℕ) (s : Times)
    → span.start_time ≤ span.stop_time
    → truthy (some span.start_time) ≡ start
    → IsRange span s
    → IsRange span (start_from now false start s)
IsRange-start span now none s h e r = r
IsRange-start span now (some start) s h e r =
    let same = truthy-same span.start_time start e in ((omega arith, omega arith), r.1)

IsRange-stop :
    (span : Span) (now : ℕ) (stop : Option ℕ) (s : Times)
    → span.start_time ≤ span.stop_time
    → truthy (some span.stop_time) ≡ stop
    → IsRange span s
    → IsRange span (stop_from now false stop s)
IsRange-stop span now none s h e r = r
IsRange-stop span now (some stop) s h e r =
    let same = truthy-same span.stop_time stop e in (r.0, (omega arith, omega arith))

IsRange-step :
    (span : Span) (e : Event) (s : Times)
    → span.is_running ≡ false
    → span.start_time ≤ span.stop_time
    → IsAnswer span e
    → IsRange span s
    → IsRange span (step span e s)
unfolding step start_effect stop_effect tooltip_effect on_change on_after_change reset
    set_time_range
IsRange-step span (started now) s f h a r = rw (f) (IsRange-start span now _ s h refl r)
IsRange-step span (stopped now) s f h a r = rw (f) (IsRange-stop span now _ s h refl r)
IsRange-step span shown_again s f h a r = r
IsRange-step span was_reset s f h a r = ((omega arith, omega arith), (omega arith, omega arith))
IsRange-step span (changed val) s f h a r = r
IsRange-step span (after_change val) s f h a r = rw (f) a
IsRange-step span (zoomed from to) s f h a r = rw (f) a

IsRange-run :
    (span : Span) (es : List Event) (s : Times)
    → span.is_running ≡ false
    → span.start_time ≤ span.stop_time
    → All (IsAnswer span) es
    → IsRange span s
    → IsRange span (run span es s)
unfolding run
IsRange-run span [] s f h a r = r
IsRange-run span (e ∷ es) s f h a r =
    IsRange-run span es (step span e s) f h a.1 (IsRange-step span e s f h a.0 r)

-- For a job that is not running and does not stop before its start, whatever effects, drags of
-- the slider, resets and zooms follow each other, the start and the stop of the range that is
-- shown lie within the job, if the slider and the charts answer times within the job.
pub run-IsRange :
    (span : Span) (es : List Event)
    → span.is_running ≡ false
    → span.start_time ≤ span.stop_time
    → All (IsAnswer span) es
    → IsKnownIn span (run span es (fresh span)).start_time
      × IsKnownIn span (run span es (fresh span)).stop_time
run-IsRange span es f h a = IsRange-run span es (fresh span) f h a (tt, tt)

-- Moving the slider.
abbrev pub IsSliding : Event → Type 0
IsSliding (changed val) = Unit
IsSliding (after_change val) = Unit
IsSliding shown_again = Unit
IsSliding _ = ⊥

abbrev IsFixed : Option ℕ → Times → Type 0
IsFixed stop s = (s.stop_time ≡ stop) × (s.tooltip_values.1 ≡ or_default 1 stop)

IsFixed-step :
    (span : Span) (e : Event) (stop : Option ℕ) (s : Times)
    → span.is_running ≡ true
    → IsSliding e
    → IsFixed stop s
    → IsFixed stop (step span e s)
unfolding step tooltip_effect on_change on_after_change
IsFixed-step span (changed val) stop s f k h = rw (f) h
IsFixed-step span (after_change val) stop s f k h = rw (f) h
IsFixed-step span shown_again stop s f k h = (h.0, ap (or_default 1) h.0)
IsFixed-step span (started now) stop s f k h = absurd k
IsFixed-step span (stopped now) stop s f k h = absurd k
IsFixed-step span was_reset stop s f k h = absurd k
IsFixed-step span (zoomed from to) stop s f k h = absurd k

IsFixed-run :
    (span : Span) (es : List Event) (stop : Option ℕ) (s : Times)
    → span.is_running ≡ true
    → All IsSliding es
    → IsFixed stop s
    → IsFixed stop (run span es s)
unfolding run
IsFixed-run span [] stop s f k h = h
IsFixed-run span (e ∷ es) stop s f k h =
    IsFixed-run span es stop (step span e s) f k.1 (IsFixed-step span e stop s f k.0 h)

-- For a running job no events of the slider change the end of the range, and the tooltip keeps the end.
pub run-stop_time :
    (span : Span) (es : List Event) (s : Times)
    → span.is_running ≡ true
    → All IsSliding es
    → (let after = run span es (tooltip_effect s) in
        (after.stop_time ≡ s.stop_time) × (after.tooltip_values.1 ≡ or_default 1 s.stop_time))
unfolding tooltip_effect
run-stop_time span es s f k = IsFixed-run span es s.stop_time (tooltip_effect s) f k (refl, refl)
