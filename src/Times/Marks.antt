-- ===== src/Times/Marks.antt =====
-- Where the marks of the slider stand.
use job_mon.Js.Object.Laws.{get-put}
use mathlib.Core.Path.{subst}
use text.Mathlib.TextPositions.{eq_refl}
use job_mon.Base.{sym}
use job_mon.Base.Int.{pos_part, neg_part}
use job_mon.Js.Text.Decimal.{numeral}
use job_mon.Js.Object.{get, Object, put}
use job_mon.Times.{marks, Span, mark_distance, place_marks, text_of}
use job_mon.Base.{
  Bool-cases, inl, inr, All, Bool, String, ℕ, [], ◌∷◌, ◌*◌, ◌≡◌, ◌≤◌, ◌==◌, ◌∙◌, arith, refl, suc,
  zero, if◌then◌else◌, some, ap,
}
use job_mon.Base.Int.{+ℤ_parts, ℤ, pos, ◌*ℤ◌, ◌+ℤ◌, ◌-ℤ◌, ◌≤ℤ◌}

module _ (to_locale_string : ℤ → String) where
  -- A mark with a time between two times.
  abbrev pub IsMark : ℤ → ℤ → String × String → Type 0
  IsMark low high e = (t : ℤ) × (e.0 ≡ text_of t) × (low ≤ℤ t) × (t ≤ℤ high)

  IsMark-put :
      (low high t : ℤ) (v : String) (o : Object String)
      → (low ≤ℤ t)
      → (t ≤ℤ high)
      → All (IsMark low high) o
      → All (IsMark low high) (put (text_of t) v o)
  unfolding put
  IsMark-put low high t v [] l h a = ((t, refl, l, h), tt)
  IsMark-put low high t v ((j, w) ∷ o) l h a = elim (Bool-cases (j == text_of t)) [
    | inl same ↦ rw (same) a
    | inr other ↦ rw (other) (a.0, IsMark-put low high t v o l h a.1)
  ]

  -- The time after some rounds.
  abbrev advanced : ℕ → ℤ → ℤ → ℤ
  advanced zero inc t = t
  advanced (suc n) inc t = advanced n inc (t +ℤ inc)

  advanced-le : (n : ℕ) (inc t : ℤ) → pos 0 ≤ℤ inc → t ≤ℤ advanced n inc t
  advanced-le zero inc t p = omega arith
  advanced-le (suc n) inc t p = omega (arith, advanced-le n inc (t +ℤ inc) p, +ℤ_parts t inc)

  place_marks-time :
      (n : ℕ) (inc t : ℤ) (o : Object String)
      → (place_marks to_locale_string n inc t o).1 ≡ advanced n inc t
  unfolding place_marks
  place_marks-time zero inc t o = refl
  place_marks-time (suc n) inc t o = place_marks-time n inc (t +ℤ inc) _

  place_marks-IsMark :
      (n : ℕ) (low high inc t : ℤ) (o : Object String)
      → pos 0 ≤ℤ inc
      → low ≤ℤ t
      → advanced n inc t ≤ℤ high
      → All (IsMark low high) o
      → All (IsMark low high) (place_marks to_locale_string n inc t o).0
  unfolding place_marks
  place_marks-IsMark zero low high inc t o p l h a = a
  place_marks-IsMark (suc n) low high inc t o p l h a =
      place_marks-IsMark n low high inc (t +ℤ inc) _ p (omega (arith, +ℤ_parts t inc)) h (
        IsMark-put low high t _ o l
          (omega (arith, h, advanced-le n inc (t +ℤ inc) p, +ℤ_parts t inc)) a)

  arrives :
      (span : Span)
      → advanced 4 (mark_distance span) (pos (span.start_time * 1000)) ≡ pos (span.stop_time * 1000)
  unfolding ◌*ℤ◌ ◌+ℤ◌ ◌-ℤ◌
  arrives span = ground arith

  ascends : (span : Span) → span.start_time ≤ span.stop_time → pos 0 ≤ℤ mark_distance span
  unfolding ◌*ℤ◌ ◌-ℤ◌
  ascends span h = ground arith

  last-get :
      (b : Bool) (t high : ℤ) (o : Object String)
      → t ≡ high
      → get (text_of high) (put (text_of t) (if b then "Live" else to_locale_string t) o)
        ≡ some (if b then "Live" else to_locale_string high)
  last-get b t high o e =
      subst
        (λ x.
          get (text_of high) (put (text_of x) (if b then "Live" else to_locale_string x) o)
          ≡ some (if b then "Live" else to_locale_string high))
        (sym e) (get-put (text_of high) (text_of high) _ o ∙ rw (eq_refl (text_of high)) refl)

  -- If a job does not stop before its start, every mark of the slider stands at a time between
  -- its start and its stop, and the mark at the stop says "Live" if the job is running and
  -- otherwise the time.
  pub marks-IsMark :
      (span : Span)
      → span.start_time ≤ span.stop_time
      → All
          (IsMark (pos (span.start_time * 1000)) (pos (span.stop_time * 1000)))
          (marks to_locale_string span)
        × (get (numeral (span.stop_time * 1000)) (marks to_locale_string span)
            ≡ some (
                if span.is_running then "Live" else to_locale_string (pos (span.stop_time * 1000))))
  unfolding marks
  marks-IsMark span h =
      let low = pos (span.start_time * 1000) in
      let high = pos (span.stop_time * 1000) in
      let inc = mark_distance span in
      let (placed, t) = place_marks to_locale_string 4 inc low [] in
      let there : t ≡ high = place_marks-time 4 inc low [] ∙ arrives span in
      let below : advanced 4 inc low ≤ℤ high = rw (arrives span) omega arith in
      let all = place_marks-IsMark 4 low high inc low [] (ascends span h) (omega arith) below tt in
      (
        IsMark-put low high t _ placed
            (omega (arith, ascends span h, ap pos_part there, ap neg_part there, h))
            (omega (arith, ap pos_part there, ap neg_part there)) all,
        last-get span.is_running t high placed there,
      )
