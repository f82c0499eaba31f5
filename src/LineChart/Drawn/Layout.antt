-- ===== src/LineChart/Drawn/Layout.antt =====
-- Data of a chart whose lines stand one behind the other.
use job_mon.Base.{
  All, List, String, [], ap, arith, get_elem?, length, map, refl, some, suc, zero, ℕ, ◌++◌, ◌+◌,
  ◌<◌, ◌∷◌, ◌≡◌, ◌≢◌,
}
use job_mon.LineChart.Drawn.{range_from}
use job_mon.LineChart.Tooltips.{joined}
use mathlib.Core.Path.{subst}

module _ {D : Type 0} where
  -- The lines with their keys, one behind the other.
  abbrev pub data_of : List (String × List D) → List D
  data_of ls = joined (map (λ e. e.1) ls)

  module _ (z : D → String) where
    -- A line of a number of points with one key.
    abbrev pub IsLine : ℕ → String × List D → Type 0
    IsLine count e = (length e.1 ≡ count) × All (λ d. z d ≡ e.0) e.1

  abbrev pub IsDistinct : List (String × List D) → Type 0
  IsDistinct [] = Unit
  IsDistinct (e ∷ ls) = All (λ f. f.0 ≢ e.0) ls × IsDistinct ls

module _ {A : Type 0} where
  pub get_elem?-map :
      {B : Type 0} (f : A → B) (xs : List A) (i : ℕ) (a : A)
      → get_elem? xs i ≡ some a
      → get_elem? (map f xs) i ≡ some (f a)
  get_elem?-map f [] i a e = absurd (cc e)
  get_elem?-map f (b ∷ xs) zero a e = ground (arith, e)
  get_elem?-map f (b ∷ xs) (suc i) a e = get_elem?-map f xs i a e

  pub get_elem?-All :
      {P : A → Type 0} (xs : List A) (i : ℕ)
      → i < length xs
      → All P xs
      → (a : A) × (get_elem? xs i ≡ some a) × P a
  get_elem?-All [] i h p = absurd (omega arith)
  get_elem?-All (a ∷ xs) zero h p = (a, refl, p.0)
  get_elem?-All (a ∷ xs) (suc i) h p = get_elem?-All xs i (omega arith) p.1

pub range_from-add : (i m n : ℕ) → range_from i (m + n) ≡ range_from i m ++ range_from (i + m) n
range_from-add i zero n =
    let none_before : 0 + n ≡ n = omega arith in
    let same : i + 0 ≡ i = omega arith in rw (none_before, same) refl
range_from-add i (suc m) n =
    let longer : suc m + n ≡ suc (m + n) = omega arith in
    let same : i + suc m ≡ suc i + m = omega arith in
    rw (longer, same) (ap (◌∷◌ i) (range_from-add (suc i) m n))

pub All-range_from :
    (P : ℕ → Type 0) (i n : ℕ) → ((j : ℕ) → j < n → P (i + j)) → All P (range_from i n)
All-range_from P i zero h = tt
All-range_from P i (suc n) h =
    let same : i + 0 ≡ i = omega arith in
    (
      subst P same (h 0 (omega arith)),
      All-range_from P (suc i) n (λ j b.
          let next : i + suc j ≡ suc i + j = omega arith in subst P next (h (suc j) (omega arith))),
    )
