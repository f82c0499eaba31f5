-- ===== src/LineChart/Drawn/Lines.antt =====
-- The lines that a chart draws of data whose lines stand one behind the other.
use job_mon.Base.{
  filter, length-map, true, zero, length-append, ◌<◌, All, All-append, Bool, List, Option, String,
  [], ap, arith, get_elem?, if◌then◌else◌, length, map, none, not, refl, some, suc, sym, ℕ, ◌++◌,
  ◌+◌, ◌∙◌, ◌∷◌, ◌≡◌, ◌≢◌,
}
use job_mon.LineChart.Drawn.{
  drawn_line, is_member, drawn_indices, drawn_lines, Grouping, IsGrouping, is_defined, line,
  point_at, range_from,
}
use job_mon.LineChart.Drawn.Layout.{
  All-range_from, IsDistinct, get_elem?-All, range_from-add, IsLine, data_of, get_elem?-map,
}
use job_mon.LineChart.Tooltips.{get_elem?-front, get_elem?-back}
use mathlib.Core.Path.{subst}
use text.Mathlib.TextPositions.{eq_refl}

module _ {D V : Type 0} (x : D → ℕ) (y : D → V) (z : D → String) (is_nan : V → Bool) where
  -- A line with the gaps of the first one: its points at the places where the first line has values.
  abbrev pub beside : List D → List D → List (Option (ℕ × V))
  beside (a ∷ first) (d ∷ ds) =
      (if not (is_nan (y a)) then some (x d, y d) else none) ∷ beside first ds
  beside _ _ = []

  -- A line as it is drawn with the gaps of the first one.
  abbrev pub seen_line : List D → String × List D → Option String × List (Option (ℕ × V))
  seen_line first (key, ds) = (some key, beside first ds)

  -- From a place on the data goes on with some points.
  abbrev GoesOn : List D → ℕ → List D → Type 0
  GoesOn whole o ds = (i : ℕ) → get_elem? whole (o + i) ≡ get_elem? ds i

  next-GoesOn :
      (whole : List D) (o : ℕ) (d : D) (ds : List D)
      → GoesOn whole o (d ∷ ds)
      → GoesOn whole (suc o) ds
  next-GoesOn whole o d ds h i =
      let same : suc o + i ≡ o + suc i = omega arith in ap (get_elem? whole) same ∙ h (suc i)

  behind-GoesOn :
      (whole : List D) (o : ℕ) (l ds : List D)
      → GoesOn whole o (l ++ ds)
      → GoesOn whole (o + length l) ds
  behind-GoesOn whole o l ds h i =
      let same : o + length l + i ≡ o + (length l + i) = omega arith in
      ap (get_elem? whole) same ∙ h (length l + i) ∙ get_elem?-back l ds i

  here-GoesOn :
      (whole : List D) (o : ℕ) (d : D) (ds : List D)
      → GoesOn whole o (d ∷ ds)
      → get_elem? whole o ≡ some d
  here-GoesOn whole o d ds h = let same : o ≡ o + 0 = omega arith in ap (get_elem? whole) same ∙ h 0

  point-shown :
      (whole : List D) (place i : ℕ) (a d : D)
      → get_elem? whole place ≡ some a
      → get_elem? whole i ≡ some d
      → (if is_defined x y z is_nan whole place then point_at x y z is_nan whole i else none)
        ≡ (if not (is_nan (y a)) then some (x d, y d) else none)
  point-shown whole place i a d p q =
      rw
        (
          get_elem?-map (λ e. not (is_nan (y e))) whole place a p,
          get_elem?-map x whole i d q,
          get_elem?-map y whole i d q,
        )
        refl

  line-beside :
      (whole : List D) (place o : ℕ) (first l r s : List D)
      → GoesOn whole place (first ++ r)
      → GoesOn whole o (l ++ s)
      → length first ≡ length l
      → line x y z is_nan whole place (range_from o (length l)) ≡ beside first l
  unfolding line
  line-beside whole place o [] [] r s h k e = refl
  line-beside whole place o [] (d ∷ l) r s h k e = absurd (omega arith)
  line-beside whole place o (a ∷ first) [] r s h k e = absurd (omega arith)
  line-beside whole place o (a ∷ first) (d ∷ l) r s h k e =
      let head =
        point-shown whole place o a d (here-GoesOn whole place a (first ++ r) h)
          (here-GoesOn whole o d (l ++ s) k) in
      let rest =
        line-beside whole (suc place) (suc o) first l r s (next-GoesOn whole place a (first ++ r) h)
          (next-GoesOn whole o d (l ++ s) k) (omega arith) in
      cc

  -- The groups of indices that the lines stand at.
  abbrev blocks : ℕ → List (String × List D) → List (Option String × List ℕ)
  blocks o [] = []
  blocks o ((k, l) ∷ ls) = (some k, range_from o (length l)) ∷ blocks (o + length l) ls

  other_keys :
      (count : ℕ) (k : String) (ls : List (String × List D))
      → All (IsLine z count) ls
      → All (λ f. f.0 ≢ k) ls
      → All (λ d. z d ≢ k) (data_of ls)
  other_keys count k [] h n = tt
  other_keys count k ((j, l) ∷ ls) h n =
      All-append _ l (data_of ls) (each l h.0.1) (other_keys count k ls h.1 n.1)
    where
      each : (l : List D) → All (λ d. z d ≡ j) l → All (λ d. z d ≢ k) l
      each [] p = tt
      each (d ∷ l) p = (λ e. n.0 (sym p.0 ∙ e), each l p.1)

  abbrev key_at : List D → ℕ → Option String
  key_at whole i = get_elem? (map z whole) i

  key_there :
      (whole : List D) (o : ℕ) (ds : List D) (P : Option String → Type 0)
      → ((i : ℕ) → i < length ds → get_elem? whole (o + i) ≡ get_elem? ds i)
      → All (λ d. P (some (z d))) ds
      → All (λ i. P (key_at whole i)) (range_from o (length ds))
  key_there whole o ds P h p =
      All-range_from (λ i. P (key_at whole i)) o (length ds)
        (λ j b.
          let (d, held, shown) = get_elem?-All ds j b p in
          subst P (sym (get_elem?-map z whole (o + j) d (h j b ∙ held))) shown)

  keyed : (k : String) (ds : List D) → All (λ d. z d ≡ k) ds → All (λ d. some (z d) ≡ some k) ds
  keyed k [] p = tt
  keyed k (d ∷ ds) p = (ap some p.0, keyed k ds p.1)

  unlike : (k : String) (ds : List D) → All (λ d. z d ≢ k) ds → All (λ d. some (z d) ≢ some k) ds
  unlike k [] p = tt
  unlike k (d ∷ ds) p = (λ e. p.0 (cc e), unlike k ds p.1)

  module _ (group : Grouping) (grouping : IsGrouping group) where
    grouped :
        (count : ℕ) (whole : List D) (o : ℕ) (ls : List (String × List D))
        → 0 < count
        → All (IsLine z count) ls
        → IsDistinct ls
        → GoesOn whole o (data_of ls)
        → group (key_at whole) (range_from o (length (data_of ls))) ≡ blocks o ls
    grouped count whole o [] b h u g = grouping.nothing (key_at whole)
    grouped count whole o ((k, []) ∷ ls) b h u g = absurd (omega (arith, h.0.0))
    grouped count whole o ((k, d ∷ l) ∷ ls) b h u g =
        let line = d ∷ l in
        let rest = data_of ls in
        let later = behind-GoesOn whole o line rest g in
        let own =
          key_there whole o line (λ m. m ≡ some k) (λ i c. g i ∙ get_elem?-front line rest i c)
            (keyed k line h.0.1) in
        let others =
          key_there whole (o + length line) rest (λ m. m ≢ some k) (λ i _. later i)
            (unlike k rest (other_keys count k ls h.1 u.0)) in
        ap (group (key_at whole)) (
          ap (range_from o) (length-append line rest)
          ∙ range_from-add o (length line) (length rest))
        ∙ grouping.first_block (key_at whole) (some k) o (range_from (suc o) (length l))
            (range_from (o + length line) (length rest)) own others
        ∙ ap (◌∷◌ (some k, range_from o (length line)))
            (grouped count whole (o + length line) ls b h.1 u.1 later)

    mapped_blocks :
        (count : ℕ) (whole first r : List D) (o : ℕ) (ls : List (String × List D))
        → length first ≡ count
        → All (IsLine z count) ls
        → GoesOn whole 0 (first ++ r)
        → GoesOn whole o (data_of ls)
        → map (drawn_line x y z is_nan whole) (blocks o ls) ≡ map (seen_line first) ls
    mapped_blocks count whole first r o [] c h f g = refl
    mapped_blocks count whole first r o ((k, l) ∷ ls) c h f g =
        let head = line-beside whole 0 o first l r (data_of ls) f g (c ∙ sym h.0.0) in
        let rest =
          mapped_blocks count whole first r (o + length l) ls c h.1 f
            (behind-GoesOn whole o l (data_of ls) g) in
        cc

    in_own : (p : ℕ → Bool) (is : List ℕ) → All (λ i. p i ≡ true) is → filter p is ≡ is
    in_own p [] h = refl
    in_own p (i ∷ is) h = rw (h.0, in_own p is h.1) refl

    get_elem?-member :
        (ks : List String) (i : ℕ) → i < length ks → is_member ks (get_elem? ks i) ≡ true
    get_elem?-member [] i b = absurd (omega arith)
    get_elem?-member (k ∷ ks) zero b = rw (eq_refl k) refl
    get_elem?-member (k ∷ ks) (suc i) b =
        wider (get_elem? ks i) (get_elem?-member ks i (omega arith))
      where
        wider : (o : Option String) → is_member ks o ≡ true → is_member (k ∷ ks) o ≡ true
        wider none e = absurd (cc e)
        wider (some j) e = ground (arith, e)

    all_drawn : (ds : List D) → drawn_indices x y z is_nan none ds ≡ range_from 0 (length ds)
    unfolding drawn_indices
    all_drawn ds = rw (length-map x ds) (
        in_own _ (range_from 0 (length ds)) (
          All-range_from _ 0 (length ds)
            (λ j b. get_elem?-member (map z ds) (0 + j) (rw (length-map z ds) (omega arith)))))

    -- For data whose lines stand one behind the other, with the same number of points, at least
    -- one, and with different keys, and a grouping as d3 documents it, a chart draws each line
    -- under its key, with its points in their order, and with gaps exactly at the places where
    -- the first line has no value.
    pub lines-drawn :
        (count : ℕ) (k : String) (l : List D) (ls : List (String × List D))
        → 0 < count
        → All (IsLine z count) ((k, l) ∷ ls)
        → IsDistinct ((k, l) ∷ ls)
        → drawn_lines x y z is_nan group none (data_of ((k, l) ∷ ls))
          ≡ map (seen_line l) ((k, l) ∷ ls)
    unfolding drawn_lines
    lines-drawn count k l ls b h u =
        let all = (k, l) ∷ ls in
        let whole = data_of all in
        let at : GoesOn whole 0 whole = λ i. ap (get_elem? whole) (omega arith) in
        ap (λ is. map (drawn_line x y z is_nan whole) (group (key_at whole) is)) (all_drawn whole)
        ∙ ap (map (drawn_line x y z is_nan whole)) (grouped count whole 0 all b h u at)
        ∙ mapped_blocks count whole l (data_of ls) 0 all h.0.0 h at at
