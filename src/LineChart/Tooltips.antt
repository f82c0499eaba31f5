-- ===== src/LineChart/Tooltips.antt =====
-- The lines of a tooltip.
use job_mon.LineChart.{with_point, hidden_text, point_values, short_lines, tooltip_lines}
use job_mon.Base.{
  sym, All, List, Option, ℕ, String, [], ◌∷◌, ◌++◌, ◌≡◌, ◌≤◌, ◌<◌, ◌*◌, ◌+◌, ◌-◌, ◌∙◌, arith, drop,
  take, map, none, some, refl, true, zero, suc, length, get_elem?, ltb, ap,
}

module _ {D : Type 0} where
  -- Lines one behind the other.
  abbrev pub joined : List (List D) → List D
  joined [] = []
  joined (l ∷ ls) = l ++ joined ls

  -- The `i`-th point of each of the first lines, from the last of these lines on.
  abbrev pub point_of : Option (List D) → ℕ → List D → List D
  point_of none i rest = rest
  point_of (some l) i rest = with_point (get_elem? l i) rest

  abbrev pub points_back : List (List D) → ℕ → ℕ → List D
  points_back ls i zero = []
  points_back ls i (suc k) = point_of (get_elem? ls k) i (points_back ls i k)

  pub get_elem?-front :
      (l rest : List D) (i : ℕ) → i < length l → get_elem? (l ++ rest) i ≡ get_elem? l i
  get_elem?-front [] rest i h = absurd (omega arith)
  get_elem?-front (d ∷ l) rest zero h = refl
  get_elem?-front (d ∷ l) rest (suc i) h = get_elem?-front l rest i (omega arith)

  pub get_elem?-back :
      (l rest : List D) (i : ℕ) → get_elem? (l ++ rest) (length l + i) ≡ get_elem? rest i
  get_elem?-back [] rest i = ap (get_elem? rest) (omega arith)
  get_elem?-back (d ∷ l) rest i =
      let next : suc (length l) + i ≡ suc (length l + i) = omega arith in
      ap (get_elem? (d ∷ l ++ rest)) next ∙ get_elem?-back l rest i

  get_elem?-joined :
      (count i k : ℕ) (ls : List (List D))
      → All (λ l. length l ≡ count) ls
      → i < count
      → k < length ls
      → (l : List D) × (get_elem? ls k ≡ some l)
        × (get_elem? (joined ls) (k * count + i) ≡ get_elem? l i)
  get_elem?-joined count i k [] h b c = absurd (omega arith)
  get_elem?-joined count i zero (l ∷ ls) h b c = (
    l,
    refl,
    ap (get_elem? (l ++ joined ls)) (omega arith)
        ∙ get_elem?-front l (joined ls) i (omega (arith, h.0)),
  )
  get_elem?-joined count i (suc k) (l ∷ ls) h b c =
      let (m, held, same) = get_elem?-joined count i k ls h.1 b (omega arith) in
      (
        m,
        held,
        ap (get_elem? (l ++ joined ls)) (omega (arith, h.0))
            ∙ get_elem?-back l (joined ls) (k * count + i)
            ∙ same,
      )

  -- If all lines of a chart have the same number of points and stand one behind the other, the
  -- loop of the tooltip reads from each line the point at the same place, from the last line to
  -- the first.
  pub point_values-lines :
      (ls : List (List D)) (count i k : ℕ)
      → All (λ l. length l ≡ count) ls
      → i < count
      → k ≤ length ls
      → point_values (joined ls) count i k ≡ points_back ls i k
  unfolding point_values
  point_values-lines ls count i zero h b c = refl
  point_values-lines ls count i (suc k) h b c =
      let (l, held, same) = get_elem?-joined count i k ls h b (omega arith) in
      let rest = point_values-lines ls count i k h b (omega arith) in
      ap (λ o. with_point o (point_values (joined ls) count i k)) same
      ∙ ap (with_point (get_elem? l i)) rest
      ∙ ap (λ o. point_of o i (points_back ls i k)) (sym held)

  -- The last three elements.
  last_three :
      (k : ℕ) (ds : List D)
      → k + 3 ≡ length ds
      → (a : D) × (b : D) × (c : D) × (get_elem? ds k ≡ some a)
        × (get_elem? ds (suc k) ≡ some b)
        × (get_elem? ds (suc (suc k)) ≡ some c)
        × (drop k ds ≡ a ∷ b ∷ c ∷ [])
  last_three zero [] e = absurd (omega arith)
  last_three zero (a ∷ []) e = absurd (omega arith)
  last_three zero (a ∷ b ∷ []) e = absurd (omega arith)
  last_three zero (a ∷ b ∷ c ∷ []) e = (a, b, c, refl, refl, refl, refl)
  last_three zero (a ∷ b ∷ c ∷ d ∷ ds) e = absurd (omega arith)
  last_three (suc k) [] e = absurd (omega arith)
  last_three (suc k) (d ∷ ds) e = last_three k ds (omega arith)

  six_lines :
      (title : D → String) (values : List D) (a b c d e f : D)
      → get_elem? values 0 ≡ some a
      → get_elem? values 1 ≡ some b
      → get_elem? values 2 ≡ some c
      → get_elem? values (length values + 3 - 6) ≡ some d
      → get_elem? values (length values + 4 - 6) ≡ some e
      → get_elem? values (length values + 5 - 6) ≡ some f
      → short_lines title values 0 6
        ≡ title a
          ∷ title b
          ∷ title c
          ∷ hidden_text (length values)
          ∷ title d
          ∷ title e
          ∷ title f
          ∷ []
  unfolding short_lines
  six_lines title values a b c d e f p q r s t u = rw (p, q, r, s, t, u) refl

  short :
      (title : D → String) (values : List D)
      → 6 < length values
      → short_lines title values 0 6
        ≡ map title (take 3 values)
          ++ hidden_text (length values) ∷ map title (drop (length values - 3) values)
  short title [] h = absurd (omega arith)
  short title (a ∷ []) h = absurd (omega arith)
  short title (a ∷ b ∷ []) h = absurd (omega arith)
  short title (a ∷ b ∷ c ∷ values) h =
      let all = a ∷ b ∷ c ∷ values in
      let k = length all - 3 in
      let (d, e, f, at_d, at_e, at_f, end) = last_three k all (omega arith) in
      let n = length all in
      let at = get_elem? all in
      let fourth : n + 3 - 6 ≡ k = omega arith in
      let fifth : n + 4 - 6 ≡ suc k = omega arith in
      let sixth : n + 5 - 6 ≡ suc (suc k) = omega arith in
      six_lines title all a b c d e f refl refl refl (ap at fourth ∙ at_d) (ap at fifth ∙ at_e)
        (ap at sixth ∙ at_f)
      ∙ ap (λ ds. title a ∷ title b ∷ title c ∷ hidden_text (length all) ∷ map title ds) (sym end)

  -- For more than 6 values the tooltip shows the titles of the first three and of the last three,
  -- and between them the text that counts the hidden ones, which counts 10 values as shown.
  pub tooltip_lines-short :
      (title : D → String) (values : List D)
      → 6 < length values
      → tooltip_lines title values
        ≡ map title (take 3 values)
          ++ hidden_text (length values) ∷ map title (drop (length values - 3) values)
  unfolding tooltip_lines
  tooltip_lines-short title values h =
      let many : ltb 6 (length values) ≡ true = ground arith in rw (many) (short title values h)
