-- ===== src/LineChart/Drawn/Tests.antt =====
-- Runs of the drawing of lines and of the tooltip.
use job_mon.LineChart.Drawn.Grouped.{front_grouping, front_grouping-IsGrouping}
use job_mon.Base.Int.{pos, ℤ}
use job_mon.LineChart.{line_count, line_point_count, nearest_point}
use job_mon.LineChart.Dragging.{IsChoice}
use job_mon.LineChart.Drawn.Layout.{IsDistinct, IsLine}
use job_mon.LineChart.Drawn.Lines.{lines-drawn, seen_line}
use job_mon.LineChart.Drawn.Pointing.{pointer_values-lines}
use job_mon.Metrics.{add_all}
use job_mon.Base.{
  arith, eqb, map, ◌<◌, All, List, Option, String, [], eq_iff, none, refl, some, ℕ, ◌++◌, ◌∷◌, ◌≡◌,
}
use job_mon.LineChart.Drawn.{drawn_indices, drawn_lines, line, pointer_values}

-- A point of a line: its name, its time and its value, where 7 stands for a missing one.
abbrev Point : Type 0
Point = String × ℕ × ℕ

abbrev time : Point → ℕ
time p = p.1

abbrev value : Point → ℕ
value p = p.2

abbrev name : Point → String
name p = p.0

abbrev of_a : List Point
of_a = ("a", 10, 1) ∷ ("a", 20, 7) ∷ ("a", 30, 3) ∷ []

abbrev of_b : List Point
of_b = ("b", 10, 7) ∷ ("b", 20, 5) ∷ ("b", 30, 6) ∷ []

abbrev both : List (String × List Point)
both = ("a", of_a) ∷ ("b", of_b) ∷ []

both-IsDistinct : IsDistinct both
both-IsDistinct = ((λ e. absurd (cc ((eq_iff "b" "a").1 e)), tt), (tt, tt))

both-IsLine : All (IsLine name 3) both
both-IsLine = ((refl, (refl, (refl, (refl, tt)))), ((refl, (refl, (refl, (refl, tt)))), tt))

lines-drawn_example :
    drawn_lines time value name (eqb 7) front_grouping none (of_a ++ of_b)
    ≡ map (seen_line time value name (eqb 7) of_a) both
lines-drawn_example =
    lines-drawn time value name (eqb 7) front_grouping front_grouping-IsGrouping 3 "a" of_a
      (("b", of_b) ∷ []) (omega arith) both-IsLine both-IsDistinct

-- The second line has its gap where the first one has a gap, and is drawn where its own value is missing.
gaps :
    drawn_lines time value name (eqb 7) front_grouping none (of_a ++ of_b)
    ≡ (some "a", some (10, 1) ∷ none ∷ some (30, 3) ∷ [])
      ∷ (some "b", some (10, 7) ∷ none ∷ some (30, 6) ∷ [])
      ∷ []
unfolding drawn_lines drawn_indices line front_grouping
gaps = refl

abbrev nearest_front : ℤ → List (ℕ × ℕ) → Option (ℕ × ℕ)
nearest_front at [] = none
nearest_front at (p ∷ ps) = some p

nearest_front-IsChoice : IsChoice nearest_front
nearest_front-IsChoice at [] p e = absurd (cc e)
nearest_front-IsChoice at (q ∷ ps) p e = (0, e)

near : nearest_point time name nearest_front (of_a ++ of_b) (pos 90) ≡ some (0, 10)
unfolding nearest_point line_point_count line_count add_all
near = refl

pointer_values-lines_example :
    (0 < 3)
    × (pointer_values time name nearest_front (of_a ++ of_b) (pos 90)
        ≡ ("b", 10, 7) ∷ ("a", 10, 1) ∷ [])
pointer_values-lines_example =
    pointer_values-lines time name nearest_front 3 ("a", of_a) (("b", of_b) ∷ []) (pos 90) 0 10
      (omega arith) both-IsLine both-IsDistinct nearest_front-IsChoice near
