-- ===== src/LineChart.antt =====
-- The data of a line chart in frontend/components/charts/LineChart.tsx: the range of time that it
-- draws, the points that a position of the pointer stands for, the drag that chooses a range, and the
-- lines of its tooltip. What is drawn of them, by the library d3, is left out. Dates are whole numbers
-- of milliseconds, positions on the chart whole parts of a pixel.
pub mod Narrowing
pub mod Dragging
pub mod Tooltips
pub mod Drawn
mod Tests
use job_mon.Times.{text_of}
use job_mon.Js.Array.{sort}
use job_mon.Js.Text.Decimal.{numeral}
use job_mon.Metrics.{add_all}
use job_mon.Paging.{clamp}
use job_mon.Base.{
  ◌++◌, Bool, List, Option, String, ℕ, [], ◌∷◌, ◌&&◌, ◌*◌, ◌+◌, ◌-◌, ◌/◌, eqb, false, filter,
  get_elem?, if◌then◌else◌, leb, length, ltb, map, none, not, some, suc, take, true, zero,
}
use job_mon.Base.Int.{ℤ, negsuc, pos, ◌-ℤ◌}
use Prim.Native.String

-- `checkBetween`
abbrev pub check_between : ℕ → ℕ → ℕ → Bool
check_between d1 d2 point = leb d1 point && leb point d2

abbrev pub Domain : Type 0
Domain = ℕ × ℕ

module _ {D : Type 0} (x : D → ℕ) where
  abbrev pub last_of : D → List D → D
  last_of d [] = d
  last_of d (e ∷ es) = last_of e es

  -- The assignments to `xDomain[0]` and `xDomain[1]`, by the first and the last date.
  abbrev pub narrowed : ℕ → ℕ → Domain → Domain
  narrowed first_date last_date (low, high) = (
    if leb first_date low then low else first_date,
    if leb high last_date then high else last_date,
  )

  -- `filteredData`, and what becomes of the array `xDomain`.
  unfoldable pub filtered_data : List D → Option Domain → List D × Option Domain
  filtered_data [] domain = ([], domain)
  filtered_data (d ∷ ds) none = (d ∷ ds, none)
  filtered_data (d ∷ ds) (some domain) =
      let (low, high) = narrowed (x d) (x (last_of d ds)) domain in
      (filter (λ e. check_between low high (x e)) (d ∷ ds), some (low, high))

  -- The effects of charts that are given the same array `xDomain`, in their order.
  unfoldable pub draw_all : List (List D) → Option Domain → List (List D) × Option Domain
  unfolding filtered_data
  draw_all [] domain = ([], domain)
  draw_all (c ∷ cs) domain =
      let drawn = filtered_data c domain in
      let rest = draw_all cs drawn.1 in (drawn.0 ∷ rest.0, rest.1)

  -- The change points that a chart with a domain draws.
  abbrev pub filtered_cp : Option Domain → List ℕ → List ℕ
  filtered_cp none cp = cp
  filtered_cp (some (low, high)) cp = filter (λ t. leb low t && leb t high) cp

module _ {D : Type 0} (z : D → String) where
  -- `zSet.size`, the number of the lines.
  unfoldable pub line_count : List D → ℕ
  unfolding add_all
  line_count ds = length (add_all [] (map z ds))

  abbrev divided : ℕ → ℕ → ℕ
  divided n zero = 0
  divided n (suc k) = n / suc k

  -- `linePointCount`; without points it is not a number, and there are none to look at.
  unfoldable pub line_point_count : List D → ℕ
  unfolding line_count
  line_point_count ds = divided (length ds) (line_count ds)

abbrev pub dates_from : {D : Type 0} → (D → ℕ) → ℕ → List D → List (ℕ × ℕ)
dates_from x i [] = []
dates_from x i (d ∷ ds) = (i, x d) ∷ dates_from x (suc i) ds

-- The positions where a drag starts and ends.
pub record Drag : Type 0 where
  pub drag_start : ℤ
  pub drag_end : ℤ

pub data DragEvent : Type 0 where
  dragged_from dragged_to dropped_at : ℤ → DragEvent

-- `if (startIdx && endIdx)`: an index is not 0.
abbrev pub chosen_range : Option (ℕ × ℕ) → Option (ℕ × ℕ) → Option (ℕ × ℕ)
chosen_range (some (suc i, s)) (some (suc j, e)) = some (s, e)
chosen_range _ _ = none

abbrev pub with_range : Option (ℕ × ℕ) → List (ℕ × ℕ) → List (ℕ × ℕ)
with_range none rest = rest
with_range (some r) rest = r ∷ rest

-- `nearest` is `d3.least` of the distances of some dates, each with its index, from a position.
module _ {D : Type 0} (x : D → ℕ) (z : D → String)
    (nearest : ℤ → List (ℕ × ℕ) → Option (ℕ × ℕ)) where
  -- `getNearestPointIdx`, with the date of the point.
  unfoldable pub nearest_point : List D → ℤ → Option (ℕ × ℕ)
  unfolding line_point_count
  nearest_point ds at = nearest at (dates_from x 0 (take (line_point_count z ds) ds))

  -- A step of a drag on a chart between two positions, and the range that it sets.
  unfoldable pub drag_step : List D → ℤ × ℤ → DragEvent → Drag → Drag × Option (ℕ × ℕ)
  unfolding nearest_point clamp
  drag_step ds (left, right) (dragged_from at) drag =
      (record { drag_start = clamp at left right; drag_end = clamp at left right }, none)
  drag_step ds (left, right) (dragged_to at) drag =
      (record drag { drag_end = clamp at left right }, none)
  drag_step ds (left, right) (dropped_at at) drag =
      let end = clamp at left right in
      (
        record drag { drag_end = end },
        chosen_range (nearest_point ds drag.drag_start) (nearest_point ds end),
      )

  -- The ranges that some steps set.
  unfoldable pub drag_run : List D → ℤ × ℤ → List DragEvent → Drag → Drag × List (ℕ × ℕ)
  unfolding drag_step
  drag_run ds range [] drag = (drag, [])
  drag_run ds range (e ∷ es) drag =
      let (next, set) = drag_step ds range e drag in
      let rest = drag_run ds range es next in (rest.0, with_range set rest.1)

abbrev pub hidden_text : ℕ → String
hidden_text n = String.◌++◌ "[" (String.◌++◌ (text_of (pos n -ℤ pos 10)) " more hidden]")

abbrev marker : ℕ → ℕ → List String
marker n idx = if eqb idx 3 then hidden_text n ∷ [] else []

module _ {D : Type 0} where
  abbrev pub with_point : Option D → List D → List D
  with_point none rest = rest
  with_point (some d) rest = d ∷ rest

  -- The loop that reads the point at the place `i` of each line, from the last one to the first.
  unfoldable pub point_values : List D → ℕ → ℕ → ℕ → List D
  point_values ds count i zero = []
  point_values ds count i (suc lines) =
      let rest = point_values ds count i lines in with_point (get_elem? ds (lines * count + i)) rest

  -- `y(a) < y(b) ? -1 : 1`
  abbrev by_value : (D → D → Bool) → D → D → ℤ
  by_value less a b = if less a b then negsuc 0 else pos 1

  unfoldable pub sorted_values : (D → D → Bool) → List D → List D
  unfolding sort
  sorted_values less ds = sort (by_value less) ds

  abbrev titled : (D → String) → List String → Option D → List String → List String
  titled title before none rest = rest
  titled title before (some d) rest = before ++ title d ∷ rest

  -- The rounds of the loop from `idx` on, for more than 6 values.
  unfoldable pub short_lines : (D → String) → List D → ℕ → ℕ → List String
  unfolding ◌-ℤ◌ numeral
  short_lines title values idx zero = []
  short_lines title values idx (suc rounds) =
      let n = length values in
      let at = if ltb idx 3 then idx else n + idx - 6 in
      titled title (marker n idx) (get_elem? values at) (short_lines title values (suc idx) rounds)

  -- The titles in the tooltip, in the order in which they are added.
  unfoldable pub tooltip_lines : (D → String) → List D → List String
  unfolding short_lines
  tooltip_lines title values =
      if ltb 6 (length values) then short_lines title values 0 6 else map title values
