-- ===== src/LineChart/Narrowing.antt =====
-- The range of time that a chart draws.
use job_mon.LineChart.{Domain, draw_all, check_between, filtered_data, last_of, narrowed}
use job_mon.Base.{All, List, Option, ℕ, [], ◌∷◌, ◌≡◌, ◌≤◌, arith, filter, none, some, refl}

module _ {D : Type 0} (x : D → ℕ) where
  -- The dates of some points lie between two dates.
  abbrev pub IsBetween : ℕ → ℕ → List D → Type 0
  IsBetween low high ds = All (λ d. (low ≤ x d) × (x d ≤ high)) ds

  narrowed-filter :
      (first last low high : ℕ) (ds : List D)
      → IsBetween first last ds
      → (let (l, h) = narrowed x first last (low, high) in filter (λ e. check_between l h (x e)) ds)
        ≡ filter (λ e. check_between low high (x e)) ds
  narrowed-filter first last low high [] b = refl
  narrowed-filter first last low high (d ∷ ds) b =
      ground (arith, narrowed-filter first last low high ds b.1, b.0)

  -- If all dates of a chart lie between the first and the last one, narrowing the domain to these
  -- loses no point: the chart draws the points whose date lies in the domain it is given.
  pub filtered_data-between :
      (d : D) (ds : List D) (low high : ℕ)
      → IsBetween (x d) (x (last_of x d ds)) (d ∷ ds)
      → (filtered_data x (d ∷ ds) (some (low, high))).0
        ≡ filter (λ e. check_between low high (x e)) (d ∷ ds)
  unfolding filtered_data
  filtered_data-between d ds low high b =
      narrowed-filter (x d) (x (last_of x d ds)) low high (d ∷ ds) b

  -- A domain that lies between two dates.
  abbrev pub IsInside : ℕ → ℕ → Option Domain → Type 0
  IsInside first last none = ⊥
  IsInside first last (some (low, high)) = (first ≤ low) × (high ≤ last)

  filter-IsBetween :
      (first last low high : ℕ) (ds : List D)
      → first ≤ low
      → high ≤ last
      → IsBetween first last (filter (λ e. check_between low high (x e)) ds)
  filter-IsBetween first last low high [] l h = tt
  filter-IsBetween first last low high (d ∷ ds) l h =
      ground (arith, filter-IsBetween first last low high ds l h)

  -- A chart neither widens the domain nor draws a point outside of it.
  pub filtered_data-IsInside :
      (first last : ℕ) (ds : List D) (domain : Option Domain)
      → IsInside first last domain
      → IsInside first last (filtered_data x ds domain).1
        × IsBetween first last (filtered_data x ds domain).0
  unfolding filtered_data
  filtered_data-IsInside first last ds none h = absurd h
  filtered_data-IsInside first last [] (some (low, high)) h = (h, tt)
  filtered_data-IsInside first last (d ∷ ds) (some (low, high)) h =
      let (l, k) = narrowed x (x d) (x (last_of x d ds)) (low, high) in
      let lower : first ≤ l = ground (arith, h.0) in
      let upper : k ≤ last = ground (arith, h.1) in
      ((lower, upper), filter-IsBetween first last l k (d ∷ ds) lower upper)

  draw_all-IsInside :
      (first last : ℕ) (charts : List (List D)) (domain : Option Domain)
      → IsInside first last domain
      → All (IsBetween first last) (draw_all x charts domain).0
  unfolding draw_all
  draw_all-IsInside first last [] domain h = tt
  draw_all-IsInside first last (c ∷ cs) domain h =
      let (inside, between) = filtered_data-IsInside first last c domain h in
      (between, draw_all-IsInside first last cs (filtered_data x c domain).1 inside)

  -- Charts that are given the same array of the domain show, after the first one has points, no
  -- point before the first or after the last date of the first chart, whatever their own dates
  -- are.
  pub draw_all-first :
      (d : D) (ds : List D) (charts : List (List D)) (low high : ℕ)
      → All
          (IsBetween (x d) (x (last_of x d ds)))
          (draw_all x ((d ∷ ds) ∷ charts) (some (low, high))).0
  unfolding draw_all filtered_data
  draw_all-first d ds charts low high =
      let (l, k) = narrowed x (x d) (x (last_of x d ds)) (low, high) in
      let lower : x d ≤ l = ground arith in
      let upper : k ≤ x (last_of x d ds) = ground arith in
      (
        filter-IsBetween (x d) (x (last_of x d ds)) l k (d ∷ ds) lower upper,
        draw_all-IsInside (x d) (x (last_of x d ds)) charts (some (l, k)) (lower, upper),
      )
