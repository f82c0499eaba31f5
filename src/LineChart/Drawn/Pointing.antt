-- ===== src/LineChart/Drawn/Pointing.antt =====
-- The points that the tooltip of a chart takes of data whose lines stand one behind the other.
use job_mon.Base.Int.{ℤ}
use job_mon.LineChart.Dragging.{IsChoice, get_elem?-dates}
use job_mon.LineChart.Drawn.{pointer_values}
use job_mon.LineChart.Tooltips.{point_values-lines, points_back}
use job_mon.Base.{
  Option, get_elem?, length-map, some, suc, take, zero, ap, map-append, All, Bool-cases, List,
  String, [], any-append, arith, eq_iff, false, inl, inr, length, length-append, map, refl, sym,
  true, ℕ, ◌*◌, ◌++◌, ◌+◌, ◌<◌, ◌==◌, ◌||◌, ◌∙◌, ◌∷◌, ◌≡◌, ◌≢◌,
}
use job_mon.LineChart.{dates_from, nearest_point, line_count, line_point_count}
use job_mon.LineChart.Drawn.Layout.{IsDistinct, IsLine, data_of}
use job_mon.Metrics.{add_all, is_in}
use native.Mathlib.Nat.{mul-div_cancel_left}
use text.Mathlib.TextPositions.{eq_refl}
use text.Mathlib.TextEquality.{eq_iff}
use mathlib.Core.Bool.{◌||◌}

line_of_none :
    {D : Type 0} (z : D → String) (k : String) (ds : List D) (seen ks : List String)
    → is_in seen k ≡ true
    → All (λ d. z d ≡ k) ds
    → add_all seen (map z ds ++ ks) ≡ add_all seen ks
unfolding add_all
line_of_none z k [] seen ks h p = refl
line_of_none z k (d ∷ ds) seen ks h p =
    let known : is_in seen (z d) ≡ true = rw (p.0) h in
    rw (known, add_all) (line_of_none z k ds seen ks h p.1)

new_line :
    {D : Type 0} (z : D → String) (k : String) (d : D) (ds : List D) (seen ks : List String)
    → is_in seen k ≡ false
    → All (λ e. z e ≡ k) (d ∷ ds)
    → add_all seen (map z (d ∷ ds) ++ ks) ≡ add_all (seen ++ k ∷ []) ks
unfolding add_all
new_line z k d ds seen ks h p =
    let new : is_in seen (z d) ≡ false = rw (p.0) h in
    let known : is_in (seen ++ k ∷ []) k ≡ true =
      rw (any-append (λ m. m == k) seen (k ∷ []), eq_refl k) (ground arith) in
    rw (new, p.0, add_all) (line_of_none z k ds (seen ++ k ∷ []) ks known p.1)

module _ {D : Type 0} (z : D → String) where
  -- None of the keys of some lines has been seen.
  abbrev AreNew : List String → List (String × List D) → Type 0
  AreNew seen ls = All (λ e. is_in seen e.0 ≡ false) ls

  AreNew-more :
      (seen : List String) (k : String) (ls : List (String × List D))
      → AreNew seen ls
      → All (λ e. e.0 ≢ k) ls
      → AreNew (seen ++ k ∷ []) ls
  AreNew-more seen k [] h u = tt
  AreNew-more seen k (e ∷ ls) h u = (
    rw (any-append (λ n. n == e.0) seen (k ∷ []), h.0) (other k e.0 u.0),
    AreNew-more seen k ls h.1 u.1,
  )
    where
      other : (k j : String) → j ≢ k → ((k == j) || false) ≡ false
      other k j n = elim (Bool-cases (k == j)) [
        | inl same ↦ absurd (n (sym (ground (arith, eq_iff k j))))
        | inr unlike ↦ rw unlike refl
      ]

  seen_keys :
      (count : ℕ) (seen : List String) (ls : List (String × List D))
      → 0 < count
      → All (IsLine z count) ls
      → IsDistinct ls
      → AreNew seen ls
      → length (add_all seen (map z (data_of ls))) ≡ length seen + length ls
  unfolding add_all
  seen_keys count seen [] b h u n = omega arith
  seen_keys count seen ((k, []) ∷ ls) b h u n = absurd (omega (arith, h.0.0))
  seen_keys count seen ((k, d ∷ l) ∷ ls) b h u n =
      let more = seen ++ k ∷ [] in
      let later = seen_keys count more ls b h.1 u.1 (AreNew-more seen k ls n.1 u.0) in
      let step =
        ap (add_all seen) (map-append z (d ∷ l) (data_of ls))
        ∙ new_line z k d l seen (map z (data_of ls)) n.0 h.0.1 in
      ap length step ∙ later ∙ omega (arith, length-append seen (k ∷ []))

  pub line_count-lines :
      (count : ℕ) (ls : List (String × List D))
      → 0 < count
      → All (IsLine z count) ls
      → IsDistinct ls
      → line_count z (data_of ls) ≡ length ls
  unfolding line_count
  line_count-lines count ls b h u = omega (arith, seen_keys count [] ls b h u (fresh ls))
    where
      fresh : (ls : List (String × List D)) → AreNew [] ls
      fresh [] = tt
      fresh (e ∷ ls) = (refl, fresh ls)

  length-data_of :
      (count : ℕ) (ls : List (String × List D))
      → All (IsLine z count) ls
      → length (data_of ls) ≡ length ls * count
  length-data_of count [] h = omega arith
  length-data_of count ((k, l) ∷ ls) h =
      omega (arith, h.0.0, length-append l (data_of ls), length-data_of count ls h.1)

  pub line_point_count-lines :
      (count : ℕ) (e : String × List D) (ls : List (String × List D))
      → 0 < count
      → All (IsLine z count) (e ∷ ls)
      → IsDistinct (e ∷ ls)
      → line_point_count z (data_of (e ∷ ls)) ≡ count
  unfolding line_point_count
  line_point_count-lines count e ls b h u =
      rw (line_count-lines count (e ∷ ls) b h u, length-data_of count (e ∷ ls) h)
        (mul-div_cancel_left count (omega arith))

get_elem?-take_bound :
    {D : Type 0} (n k : ℕ) (ds : List D) (d : D) → get_elem? (take n ds) k ≡ some d → k < n
get_elem?-take_bound zero k ds d e = absurd (cc e)
get_elem?-take_bound (suc n) k [] d e = absurd (cc e)
get_elem?-take_bound (suc n) zero (c ∷ ds) d e = omega arith
get_elem?-take_bound (suc n) (suc k) (c ∷ ds) d e =
    let b = get_elem?-take_bound n k ds d e in omega arith

module _ {D : Type 0} (x : D → ℕ) (z : D → String)
    (nearest : ℤ → List (ℕ × ℕ) → Option (ℕ × ℕ)) where
  nearest-bound :
      (ds : List D) (at : ℤ) (p : ℕ × ℕ)
      → IsChoice nearest
      → nearest_point x z nearest ds at ≡ some p
      → p.0 < line_point_count z ds
  unfolding nearest_point
  nearest-bound ds at p c e =
      let n = line_point_count z ds in
      let (k, found) = c at (dates_from x 0 (take n ds)) p e in
      let (d, held, place, _) = get_elem?-dates x z nearest 0 k (take n ds) p found in
      let b = get_elem?-take_bound n k ds d held in omega arith

  -- For data whose lines stand one behind the other, with the same number of points, at least
  -- one, and with different keys, and a library that finds the nearest of the given dates, the
  -- index of the point that the pointer is on lies on each line, and the tooltip takes the point
  -- of each line at this index, from the last line to the first.
  pub pointer_values-lines :
      (count : ℕ) (e : String × List D) (ls : List (String × List D)) (at : ℤ) (i date : ℕ)
      → 0 < count
      → All (IsLine z count) (e ∷ ls)
      → IsDistinct (e ∷ ls)
      → IsChoice nearest
      → nearest_point x z nearest (data_of (e ∷ ls)) at ≡ some (i, date)
      → (i < count)
        × (pointer_values x z nearest (data_of (e ∷ ls)) at
            ≡ points_back (map (λ l. l.1) (e ∷ ls)) i (suc (length ls)))
  unfolding pointer_values
  pointer_values-lines count e ls at i date b h u c near =
      let whole = data_of (e ∷ ls) in
      let points = line_point_count-lines z count e ls b h u in
      let lines = line_count-lines z count (e ∷ ls) b h u in
      let inside : i < count = rw points at (nearest-bound whole at (i, date) c near) in
      (
        inside,
        rw (near, points, lines)
            (point_values-lines (map (λ l. l.1) (e ∷ ls)) count i (suc (length ls))
              (lengths (e ∷ ls) h) inside (omega (arith, length-map (λ l. l.1) ls))),
      )
    where
      lengths :
          (ls : List (String × List D))
          → All (IsLine z count) ls
          → All (λ l. length l ≡ count) (map (λ e. e.1) ls)
      lengths [] h = tt
      lengths (e ∷ ls) h = (h.0.0, lengths ls h.1)
