-- ===== src/LineChart/Tests.antt =====
-- Runs of the data of a line chart. A point is a pair of its date and its value.
use job_mon.Metrics.{add_all}
use job_mon.Paging.{clamp}
use job_mon.Js.Text.Decimal.{numeral, numeral_from}
use job_mon.LineChart.Dragging.{IsChoice, drag_run-IsAnswer}
use job_mon.LineChart.Narrowing.{IsBetween, draw_all-first, filtered_data-between}
use job_mon.LineChart.Tooltips.{tooltip_lines-short}
use job_mon.Times.Ranges.{IsAnswer}
use job_mon.Base.{
  suc, All, List, Option, ℕ, [], ◌∷◌, ◌++◌, ◌≡◌, none, some, refl, arith, false, filter, map, take,
  drop,
}
use job_mon.Base.Int.{◌-ℤ◌, ℤ, pos}
use job_mon.LineChart.{
  drag_step, line_count, line_point_count, nearest_point, Drag, DragEvent, check_between, drag_run,
  draw_all, filtered_data, hidden_text, tooltip_lines, dragged_to, dropped_at,
}
use job_mon.Times.{Span, zoomed}

abbrev Point : Type 0
Point = ℕ × ℕ

abbrev date : Point → ℕ
date p = p.0

abbrev points : List Point
points = (10, 5) ∷ (20, 6) ∷ (30, 7) ∷ (40, 8) ∷ []

filtered_data-between_example :
    (filtered_data date points (some (15, 90))).0
    ≡ filter (λ e. check_between 15 90 (date e)) points
filtered_data-between_example =
    filtered_data-between date (10, 5) ((20, 6) ∷ (30, 7) ∷ (40, 8) ∷ []) 15 90 (ground arith)

-- The second chart loses its last point, because the first one has none so late.
draw_all-first_example :
    All
      (IsBetween date 10 40)
      (draw_all date (points ∷ ((20, 1) ∷ (50, 2) ∷ []) ∷ []) (some (0, 100))).0
draw_all-first_example =
    draw_all-first date (10, 5) ((20, 6) ∷ (30, 7) ∷ (40, 8) ∷ []) (((20, 1) ∷ (50, 2) ∷ []) ∷ []) 0
      100

lost :
    (draw_all date (points ∷ ((20, 1) ∷ (50, 2) ∷ []) ∷ []) (some (0, 100))).0
    ≡ points ∷ ((20, 1) ∷ []) ∷ []
unfolding draw_all filtered_data
lost = refl

-- A pointer behind all points: the last one is the nearest.
nearest_end : ℤ → List (ℕ × ℕ) → Option (ℕ × ℕ)
nearest_end at [] = none
nearest_end at (p ∷ []) = some p
nearest_end at (p ∷ q ∷ ps) = nearest_end at (q ∷ ps)

nearest_end-IsChoice : IsChoice nearest_end
unfolding nearest_end
nearest_end-IsChoice at [] p e = absurd (cc e)
nearest_end-IsChoice at (q ∷ []) p e = (0, e)
nearest_end-IsChoice at (q ∷ r ∷ ps) p e =
    let (k, found) = nearest_end-IsChoice at (r ∷ ps) p e in (suc k, found)

abbrev drag : Drag
drag = record { drag_start = pos 0; drag_end = pos 0 }

abbrev moves : List DragEvent
moves = dragged_to (pos 50) ∷ dropped_at (pos 700) ∷ []

abbrev span : Span
span = record { start_time = 0; stop_time = 1; is_running = false }

drag_run-IsAnswer_example :
    All
      (λ r. IsAnswer span (zoomed r.0 r.1))
      (drag_run date
        (λ _. "line")
        nearest_end
        (filtered_data date points (some (15, 90))).0
        (pos 90, pos 630)
        moves
        drag).1
drag_run-IsAnswer_example =
    drag_run-IsAnswer date (λ _. "line") nearest_end span points (some (15, 90)) (pos 90, pos 630)
      moves drag nearest_end-IsChoice (omega arith, omega arith)

abbrev two_lines : List (List ℕ)
two_lines = (1 ∷ 2 ∷ []) ∷ (3 ∷ 4 ∷ []) ∷ []

abbrev seven : List ℕ
seven = 1 ∷ 2 ∷ 3 ∷ 4 ∷ 5 ∷ 6 ∷ 7 ∷ []

tooltip_lines-short_example :
    tooltip_lines (λ _. "v") seven
    ≡ map (λ _. "v") (take 3 seven) ++ hidden_text 7 ∷ map (λ _. "v") (drop 4 seven)
tooltip_lines-short_example = tooltip_lines-short (λ _. "v") seven (omega arith)

chosen :
    (drag_run date (λ _. "line") nearest_end points (pos 90, pos 630) moves drag).1 ≡ (40, 40) ∷ []
unfolding nearest_end drag_run drag_step nearest_point clamp line_point_count line_count add_all
chosen = refl

less_than_none : hidden_text 7 ≡ "[-3 more hidden]"
unfolding numeral numeral_from ◌-ℤ◌
less_than_none = refl
