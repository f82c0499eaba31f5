-- ===== src/LineChart/Drawn/Ranges.antt =====
-- What a range of time leaves of the lines of a chart.
use job_mon.Base.{
  All, Bool, Bool-cases, List, String, [], ap, arith, eq_iff, false, filter, inl, inr, length, map,
  refl, some, ℕ, ◌++◌, ◌∙◌, ◌∷◌, ◌≡◌, ◌≢◌,
}
use job_mon.Js.Object.{Object, has_own}
use job_mon.Js.Object.Laws.{IsUnique}
use job_mon.LineChart.{Domain, check_between, filtered_data, last_of, narrowed}
use job_mon.LineChart.Drawn.Layout.{IsDistinct, IsLine, data_of}

module _ {D : Type 0} (x : D → ℕ) where
  -- What a range of time leaves of a line.
  abbrev pub within : ℕ → ℕ → String × List D → String × List D
  within low high (k, ds) = (k, filter (λ d. check_between low high (x d)) ds)

  pub filtered-by :
      (ds : List D) (domain : Domain) (low high : ℕ)
      → (filtered_data x ds (some domain)).1 ≡ some (low, high)
      → (filtered_data x ds (some domain)).0 ≡ filter (λ d. check_between low high (x d)) ds
  unfolding filtered_data
  filtered-by [] domain low high e = refl
  filtered-by (d ∷ ds) domain low high e =
      let range : Domain = narrowed x (x d) (x (last_of x d ds)) domain in
      let chosen : Domain = (low, high) in
      let same : range ≡ chosen = cc e in
      ap (λ r. filter (λ c. check_between r.0 r.1 (x c)) (d ∷ ds)) same

  filter-append :
      (p : D → Bool) (first bs : List D) → filter p (first ++ bs) ≡ filter p first ++ filter p bs
  filter-append p [] bs = refl
  filter-append p (a ∷ first) bs = ground (arith, filter-append p first bs)

  pub filter-data_of :
      (low high : ℕ) (ls : List (String × List D))
      → filter (λ d. check_between low high (x d)) (data_of ls) ≡ data_of (map (within low high) ls)
  filter-data_of low high [] = refl
  filter-data_of low high ((k, l) ∷ ls) =
      let mine = filter (λ d. check_between low high (x d)) l in
      filter-append (λ d. check_between low high (x d)) l (data_of ls)
      ∙ ap (λ rest. mine ++ rest) (filter-data_of low high ls)

  filtered-count :
      (p : ℕ → Bool) (ds : List D)
      → length (filter (λ d. p (x d)) ds) ≡ length (filter p (map x ds))
  filtered-count p [] = refl
  filtered-count p (d ∷ ds) = ground (arith, filtered-count p ds)

  filtered-All : (P : D → Type 0) (p : D → Bool) (ds : List D) → All P ds → All P (filter p ds)
  filtered-All P p [] h = tt
  filtered-All P p (d ∷ ds) h = elim (Bool-cases (p d)) [
    | inl passes ↦ rw (passes, All) (h.0, filtered-All P p ds h.1)
    | inr left_out ↦ rw left_out (filtered-All P p ds h.1)
  ]

  module _ (host : D → String) (times : List ℕ) where
    -- The points of a host at some times.
    abbrev pub IsSampled : String × List D → Type 0
    IsSampled e = (map x e.1 ≡ times) × All (λ d. host d ≡ e.0) e.1

    pub sampled-IsLine :
        (low high : ℕ) (ls : List (String × List D))
        → All IsSampled ls
        → All
            (IsLine host (length (filter (check_between low high) times)))
            (map (within low high) ls)
    sampled-IsLine low high [] h = tt
    sampled-IsLine low high ((k, ds) ∷ ls) h = (
      (
        filtered-count (check_between low high) ds
            ∙ ap (λ ts. length (filter (check_between low high) ts)) h.0.0,
        filtered-All _ (λ d. check_between low high (x d)) ds h.0.1,
      ),
      sampled-IsLine low high ls h.1,
    )

  own_name : (k : String) (ls : Object (List D)) → has_own k ls ≡ false → All (λ f. f.0 ≢ k) ls
  unfolding has_own
  own_name k [] h = tt
  own_name k ((j, ds) ∷ ls) h =
      (λ e. absurd (ground (arith, eq_iff j k, e)), own_name k ls (ground arith))

  pub within-IsDistinct :
      (low high : ℕ) (ls : Object (List D)) → IsUnique ls → IsDistinct (map (within low high) ls)
  within-IsDistinct low high [] u = tt
  within-IsDistinct low high ((k, ds) ∷ ls) u =
      (names ls (own_name k ls u.0), within-IsDistinct low high ls u.1)
    where
      names :
          (ls : List (String × List D))
          → All (λ f. f.0 ≢ k) ls
          → All (λ f. f.0 ≢ k) (map (within low high) ls)
      names [] h = tt
      names (f ∷ ls) h = (h.0, names ls h.1)
