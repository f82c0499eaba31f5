-- ===== src/LineChart/Dragging.antt =====
-- The range that a drag sets.
use job_mon.LineChart.Narrowing.{IsBetween, IsInside, filtered_data-IsInside}
use job_mon.Times.Ranges.{IsAnswer, IsIn}
use job_mon.Paging.{clamp}
use mathlib.Core.Path.{subst}
use job_mon.Times.{Span, zoomed}
use job_mon.Base.{◌*◌, ap}
use job_mon.Paging.Settling.{clamp_bounds}
use job_mon.Base.{
  get_elem?, ◌+◌, All, List, Option, ℕ, String, [], ◌∷◌, ◌≡◌, arith, none, some, refl, zero, suc,
  take,
}
use job_mon.Base.Int.{ℤ, ◌≤ℤ◌}
use job_mon.LineChart.{
  Domain, filtered_data, with_range, chosen_range, drag_run, line_point_count, nearest_point, Drag,
  DragEvent, dates_from, drag_step, dragged_from, dragged_to, dropped_at,
}

-- The nearest date is one of those it is chosen of.
abbrev pub IsChoice : (ℤ → List (ℕ × ℕ) → Option (ℕ × ℕ)) → Type 0
IsChoice nearest =
    (at : ℤ) (ps : List (ℕ × ℕ)) (p : ℕ × ℕ)
    → nearest at ps ≡ some p
    → (k : ℕ) × (get_elem? ps k ≡ some p)

-- Both positions of a drag lie on the chart.
abbrev pub IsOn : ℤ × ℤ → Drag → Type 0
IsOn (left, right) drag =
    (left ≤ℤ drag.drag_start)
    × (drag.drag_start ≤ℤ right)
    × (left ≤ℤ drag.drag_end)
    × (drag.drag_end ≤ℤ right)

get_elem?-take :
    {D : Type 0} (n k : ℕ) (ds : List D) (d : D)
    → get_elem? (take n ds) k ≡ some d
    → get_elem? ds k ≡ some d
get_elem?-take zero k ds d e = absurd (cc e)
get_elem?-take (suc n) k [] d e = e
get_elem?-take (suc n) zero (c ∷ ds) d e = e
get_elem?-take (suc n) (suc k) (c ∷ ds) d e = get_elem?-take n k ds d e

get_elem?-All :
    {D : Type 0} (P : D → Type 0) (ds : List D) (k : ℕ) (d : D)
    → All P ds
    → get_elem? ds k ≡ some d
    → P d
get_elem?-All P [] k d h e = absurd (cc e)
get_elem?-All P (c ∷ ds) zero d h e = let same : c ≡ d = ground arith in subst P same h.0
get_elem?-All P (c ∷ ds) (suc k) d h e = get_elem?-All P ds k d h.1 e

module _ {D : Type 0} (x : D → ℕ) (z : D → String)
    (nearest : ℤ → List (ℕ × ℕ) → Option (ℕ × ℕ)) where
  IsOn-step :
      (ds : List D) (left right : ℤ) (e : DragEvent) (drag : Drag)
      → left ≤ℤ right
      → IsOn (left, right) drag
      → IsOn (left, right) (drag_step x z nearest ds (left, right) e drag).0
  unfolding drag_step
  IsOn-step ds left right (dragged_from at) drag o h =
      let (a, b, c) = clamp_bounds at left right o in (a, b, a, b)
  IsOn-step ds left right (dragged_to at) drag o (p, q, r, s) =
      let (a, b, c) = clamp_bounds at left right o in (p, q, a, b)
  IsOn-step ds left right (dropped_at at) drag o (p, q, r, s) =
      let (a, b, c) = clamp_bounds at left right o in (p, q, a, b)

  IsOn-run :
      (ds : List D) (left right : ℤ) (es : List DragEvent) (drag : Drag)
      → left ≤ℤ right
      → IsOn (left, right) drag
      → IsOn (left, right) (drag_run x z nearest ds (left, right) es drag).0
  unfolding drag_run
  IsOn-run ds left right [] drag o h = h
  IsOn-run ds left right (e ∷ es) drag o h =
      IsOn-run ds left right es (drag_step x z nearest ds (left, right) e drag).0 o
        (IsOn-step ds left right e drag o h)

  -- A drag that starts inside the chart, whose bounds are in order, is kept inside them by all that follows.
  pub drag_run-IsOn :
      (ds : List D) (left right at : ℤ) (es : List DragEvent) (drag : Drag)
      → left ≤ℤ right
      → IsOn (left, right) (drag_run x z nearest ds (left, right) (dragged_from at ∷ es) drag).0
  unfolding drag_run drag_step
  drag_run-IsOn ds left right at es drag o =
      let (a, b, c) = clamp_bounds at left right o in IsOn-run ds left right es _ o (a, b, a, b)

  pub get_elem?-dates :
      (i k : ℕ) (ds : List D) (p : ℕ × ℕ)
      → get_elem? (dates_from x i ds) k ≡ some p
      → (d : D) × (get_elem? ds k ≡ some d) × (p.0 ≡ i + k) × (x d ≡ p.1)
  get_elem?-dates i k [] p e = absurd (cc e)
  get_elem?-dates i zero (d ∷ ds) p e =
      let same : (i, x d) ≡ p = ground arith in
      (d, refl, omega (arith, ap (λ q. q.0) same), ap (λ q. q.1) same)
  get_elem?-dates i (suc k) (d ∷ ds) p e =
      let (c, found, place, same) = get_elem?-dates (suc i) k ds p e in
      (c, found, omega arith, same)

  -- A date of a point behind the first one.
  abbrev pub IsLater : List D → ℕ → Type 0
  IsLater ds t = (k : ℕ) × (d : D) × (get_elem? ds (suc k) ≡ some d) × (x d ≡ t)

  nearest-IsLater :
      (ds : List D) (at : ℤ) (i t : ℕ)
      → IsChoice nearest
      → nearest_point x z nearest ds at ≡ some (suc i, t)
      → IsLater ds t
  unfolding nearest_point
  nearest-IsLater ds at i t c e =
      let n = line_point_count z ds in
      let (k, found) = c at (dates_from x 0 (take n ds)) (suc i, t) e in
      let (d, held, place, same) = get_elem?-dates 0 k (take n ds) (suc i, t) found in
      let here : k ≡ suc i = omega arith in
      (i, d, subst (λ j. get_elem? ds j ≡ some d) here (get_elem?-take n k ds d held), same)

  chosen-IsLater :
      (ds : List D) (a b : ℤ) (n m : Option (ℕ × ℕ)) (s e : ℕ)
      → IsChoice nearest
      → nearest_point x z nearest ds a ≡ n
      → nearest_point x z nearest ds b ≡ m
      → chosen_range n m ≡ some (s, e)
      → IsLater ds s × IsLater ds e
  chosen-IsLater ds a b none m s e c p q h = absurd (cc h)
  chosen-IsLater ds a b (some (zero, u)) m s e c p q h = absurd (cc h)
  chosen-IsLater ds a b (some (suc i, u)) none s e c p q h = absurd (cc h)
  chosen-IsLater ds a b (some (suc i, u)) (some (zero, v)) s e c p q h = absurd (cc h)
  chosen-IsLater ds a b (some (suc i, u)) (some (suc j, v)) s e c p q h =
      let first : u ≡ s = ground arith in
      let second : v ≡ e = ground arith in
      (
        subst (IsLater ds) first (nearest-IsLater ds a i u c p),
        subst (IsLater ds) second (nearest-IsLater ds b j v c q),
      )

  abbrev pub AreLater : List D → ℕ × ℕ → Type 0
  AreLater ds (s, e) = IsLater ds s × IsLater ds e

  AreLater-step :
      (ds : List D) (range : ℤ × ℤ) (e : DragEvent) (drag : Drag) (r : ℕ × ℕ)
      → IsChoice nearest
      → (drag_step x z nearest ds range e drag).1 ≡ some r
      → AreLater ds r
  unfolding drag_step
  AreLater-step ds range (dragged_from at) drag r c h = absurd (cc h)
  AreLater-step ds range (dragged_to at) drag r c h = absurd (cc h)
  AreLater-step ds range (dropped_at at) drag (s, e) c h =
      chosen-IsLater ds drag.drag_start (clamp at range.0 range.1) _ _ s e c refl refl h

  All-with_range :
      (ds : List D) (set : Option (ℕ × ℕ)) (rest : List (ℕ × ℕ))
      → ((r : ℕ × ℕ) → set ≡ some r → AreLater ds r)
      → All (AreLater ds) rest
      → All (AreLater ds) (with_range set rest)
  All-with_range ds none rest f h = h
  All-with_range ds (some r) rest f h = (f r refl, h)

  IsIn-later :
      (span : Span) (ds : List D) (t : ℕ)
      → IsBetween x (span.start_time * 1000) (span.stop_time * 1000) ds
      → IsLater ds t
      → IsIn span t
  IsIn-later span ds t between (k, d, held, same) =
      subst (IsIn span) same (get_elem?-All (λ e. IsIn span (x e)) ds (suc k) d between held)

  answers :
      (span : Span) (ds : List D)
      → IsBetween x (span.start_time * 1000) (span.stop_time * 1000) ds
      → (rs : List (ℕ × ℕ)) → All (AreLater ds) rs
      → All (λ r. IsAnswer span (zoomed r.0 r.1)) rs
  answers span ds between [] h = tt
  answers span ds between (r ∷ rs) h = (
    (IsIn-later span ds r.0 between h.0.0, IsIn-later span ds r.1 between h.0.1),
    answers span ds between rs h.1,
  )

  -- Where the search answers an index of the points, both ends of every range that a drag sets are times of
  -- points after the first.
  pub drag_run-AreLater :
      (ds : List D) (range : ℤ × ℤ) (es : List DragEvent) (drag : Drag)
      → IsChoice nearest
      → All (AreLater ds) (drag_run x z nearest ds range es drag).1
  unfolding drag_run
  drag_run-AreLater ds range [] drag c = tt
  drag_run-AreLater ds range (e ∷ es) drag c =
      let (next, set) = drag_step x z nearest ds range e drag in
      All-with_range ds set _ (λ r. AreLater-step ds range e drag r c)
        (drag_run-AreLater ds range es next c)

  -- If a chart is given a domain within the job and the point nearest to a position is one of its
  -- points, every range that any drag on the chart sets lies within the job, as the time control
  -- of the job asks for.
  pub drag_run-IsAnswer :
      (span : Span) (points : List D) (domain : Option Domain) (range : ℤ × ℤ) (es : List DragEvent)
      (drag : Drag)
      → IsChoice nearest
      → IsInside x (span.start_time * 1000) (span.stop_time * 1000) domain
      → All
          (λ r. IsAnswer span (zoomed r.0 r.1))
          (drag_run x z nearest (filtered_data x points domain).0 range es drag).1
  drag_run-IsAnswer span points domain range es drag c inside =
      let ds = (filtered_data x points domain).0 in
      let between = (filtered_data-IsInside x _ _ points domain inside).1 in
      answers span ds between _ (drag_run-AreLater ds range es drag c)
