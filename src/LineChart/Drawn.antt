-- ===== src/LineChart/Drawn.antt =====
-- The lines that frontend/components/charts/LineChart.tsx draws: the arrays `X`, `Y`, `Z` and `D` of its
-- effect, the indices that it groups, the points of each line, and the points of its tooltip.
pub mod Layout
pub mod Lines
pub mod Pointing
pub mod Ranges
pub mod Grouped
mod Tests
use job_mon.Base.{
  All, Bool, List, Option, String, [], false, filter, get_elem?, if◌then◌else◌, length, map, none,
  not, some, suc, zero, ℕ, ◌++◌, ◌∷◌, ◌≡◌, ◌≢◌,
}
use job_mon.Base.Int.{ℤ}
use job_mon.LineChart.{line_count, line_point_count, nearest_point, point_values}
use job_mon.Metrics.{is_in}

-- `d3.range`
abbrev pub range_from : ℕ → ℕ → List ℕ
range_from i zero = []
range_from i (suc n) = i ∷ range_from (suc i) n

-- A grouping of indices by their keys, `d3.group`.
abbrev pub Grouping : Type 0
Grouping = (ℕ → Option String) → List ℕ → List (Option String × List ℕ)

-- What is documented of it: the groups are in the order of the first index of each, with their
-- indices in the given order. It is said for indices of one key before those of other keys.
pub record IsGrouping (group : Grouping) : Type 0 where
  pub nothing : (f : ℕ → Option String) → group f [] ≡ []
  pub first_block :
      (f : ℕ → Option String) (k : Option String) (i : ℕ) (block rest : List ℕ)
      → All (λ j. f j ≡ k) (i ∷ block)
      → All (λ j. f j ≢ k) rest
      → group f (i ∷ block ++ rest) ≡ (k, i ∷ block) ∷ group f rest

abbrev flag : Option Bool → Bool
flag none = false
flag (some b) = b

abbrev pair_of : {V : Type 0} → Option ℕ → Option V → Option (ℕ × V)
pair_of (some a) (some b) = some (a, b)
pair_of _ _ = none

abbrev is_member : List String → Option String → Bool
is_member domain none = false
is_member domain (some k) = is_in domain k

module _ {D V : Type 0} (x : D → ℕ) (y : D → V) (z : D → String) (is_nan : V → Bool) where
  -- `zDomain`, which is `Z` if none is given.
  abbrev z_domain : Option (List String) → List D → List String
  z_domain none ds = map z ds
  z_domain (some domain) ds = domain

  -- `I`
  unfoldable pub drawn_indices : Option (List String) → List D → List ℕ
  drawn_indices domain ds =
      filter (λ i. is_member (z_domain domain ds) (get_elem? (map z ds) i))
        (range_from 0 (length (map x ds)))

  -- `D[index]`, for the place of a point on its line.
  abbrev pub is_defined : List D → ℕ → Bool
  is_defined ds place = flag (get_elem? (map (λ d. not (is_nan (y d))) ds) place)

  -- `X[index]` and `Y[index]`, for the index of a point.
  abbrev pub point_at : List D → ℕ → Option (ℕ × V)
  point_at ds i = pair_of (get_elem? (map x ds) i) (get_elem? (map y ds) i)

  -- `line(I)` from a place on: a point for each index, or a gap.
  unfoldable pub line : List D → ℕ → List ℕ → List (Option (ℕ × V))
  line ds place [] = []
  line ds place (i ∷ is) =
      (if is_defined ds place then point_at ds i else none) ∷ line ds (suc place) is

  abbrev pub drawn_line : List D → Option String × List ℕ → Option String × List (Option (ℕ × V))
  drawn_line ds (key, is) = (key, line ds 0 is)

  unfoldable pub drawn_lines :
      Grouping → Option (List String) → List D → List (Option String × List (Option (ℕ × V)))
  unfolding drawn_indices line
  drawn_lines group domain ds =
      map (drawn_line ds) (group (get_elem? (map z ds)) (drawn_indices domain ds))

module _ {D : Type 0} (x : D → ℕ) (z : D → String)
    (nearest : ℤ → List (ℕ × ℕ) → Option (ℕ × ℕ)) where
  abbrev values_at : List D → Option (ℕ × ℕ) → List D
  values_at ds none = []
  values_at ds (some (i, date)) = point_values ds (line_point_count z ds) i (line_count z ds)

  -- `values` of `pointermoved`, before they are sorted.
  unfoldable pub pointer_values : List D → ℤ → List D
  unfolding nearest_point point_values line_point_count line_count
  pointer_values ds at = values_at ds (nearest_point x z nearest ds at)
