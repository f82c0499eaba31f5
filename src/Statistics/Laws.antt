-- ===== src/Statistics/Laws.antt =====
-- What the statistics panels show.
use job_mon.Groups.Laws.{group_by-throws_iff}
use job_mon.Js.Array.Order.{All-everywhere}
use job_mon.Groups.{group_at, group_by}
use job_mon.Groups.Totals.{total-group_by}
use job_mon.Js.Array.Laws.{slice-first, IsSorted, sort-IsSorted, sort-perm}
use job_mon.Js.Object.{Object, is_inherited, keys}
use job_mon.Base.{
  drop, length-take, map-none_iff, some-map, take-append-drop, Bool, Bool-cases, any, ap, false,
  inl, inr, length, none, refl, some, ◌++◌, ◌↔◌, ◌≤◌, List, String, [], arith, true, ◌∙◌, ◌∷◌, ◌≡◌,
}
use job_mon.Base.Int.{neg_part, pos, pos_part, +ℤ_assoc, int_laws, ℤ, ◌+ℤ◌, ◌-ℤ◌, ◌≤ℤ◌}
use job_mon.Base.Sums.{sum_by-map, sum_by-perm, sum_by_congr, sum_by}
use job_mon.Job.{JobMetadata}
use job_mon.Js.Array.{sort, is_negative}
use job_mon.Statistics.{
  Panel, compute_time, computed_attribute, computed_tuples, duration, job_length, node_seconds,
  one_job, simple_attribute, tuples_of, by_value, reduce_from,
}
use mathlib.Core.Path.{◌≡⟨◌⟩◌, ◌∎}

-- The larger value stands first.
abbrev pub Descends : String × ℤ → String × ℤ → Type 0
Descends a b = b.1 ≤ℤ a.1

Descends-trans : (a b c : String × ℤ) → Descends a b → Descends b c → Descends a c
Descends-trans a b c p q = omega (arith, p, q)

pub is_negative-minus : (x y : ℤ) → is_negative (x -ℤ y) ≡ true → x ≤ℤ y
unfolding ◌-ℤ◌
is_negative-minus x y h = ground arith

pub is_negative-minus_false : (x y : ℤ) → is_negative (x -ℤ y) ≡ false → y ≤ℤ x
unfolding ◌-ℤ◌
is_negative-minus_false x y h = ground arith

sort-Descends : (tuples : List (String × ℤ)) → IsSorted Descends (sort by_value tuples)
sort-Descends =
    sort-IsSorted Descends Descends-trans by_value (λ a b. is_negative-minus b.1 a.1)
      (λ a b. is_negative-minus_false b.1 a.1)

module _ {F : Type 0} where
  reduce_from-sum :
      (weight : JobMetadata F → ℤ) (acc : ℤ) (jobs : List (JobMetadata F))
      → reduce_from weight acc jobs ≡ acc +ℤ sum_by weight jobs
  unfolding reduce_from
  reduce_from-sum weight acc [] = omega int_laws
  reduce_from-sum weight acc (job ∷ jobs) =
      reduce_from-sum weight (acc +ℤ weight job) jobs
      ∙ +ℤ_assoc acc (weight job) (sum_by weight jobs)

  tuples_of-sum :
      (key : JobMetadata F → String) (weight : JobMetadata F → ℤ)
      (measure : List (JobMetadata F) → ℤ)
      → ((group : List (JobMetadata F)) → measure group ≡ sum_by weight group)
      → (jobs : List (JobMetadata F)) (groups : Object (List (JobMetadata F)))
      → group_by key jobs ≡ some groups
      → sum_by (λ t. t.1) (tuples_of measure groups) ≡ sum_by weight jobs
  tuples_of-sum key weight measure agrees jobs groups grouped =
      sum_by (λ t. t.1) (tuples_of measure groups)
      ≡⟨ sum_by-map (λ t. t.1) _ (keys groups) ⟩
        sum_by (λ k. measure (group_at k groups)) (keys groups)
      ≡⟨ sum_by_congr _ _ (keys groups)
          (All-everywhere _ (keys groups) (λ k. agrees (group_at k groups))) ⟩
        sum_by (λ k. sum_by weight (group_at k groups)) (keys groups)
      ≡⟨ total-group_by weight key jobs groups grouped ⟩ sum_by weight jobs ∎

  pub length-sum : (jobs : List (JobMetadata F)) → pos (length jobs) ≡ sum_by one_job jobs
  unfolding ◌+ℤ◌
  length-sum [] = refl
  length-sum (job ∷ jobs) = let ih = length-sum jobs in rw (← ih) (ground arith)

  reduce-sum :
      (weight : JobMetadata F → ℤ) (jobs : List (JobMetadata F))
      → reduce_from weight (pos 0) jobs ≡ sum_by weight jobs
  reduce-sum weight jobs = omega (
    int_laws,
    ap pos_part (reduce_from-sum weight (pos 0) jobs),
    ap neg_part (reduce_from-sum weight (pos 0) jobs),
  )

  -- The bars of a panel in the order in which it sorts them.
  sorted_sum :
      (key : JobMetadata F → String) (weight : JobMetadata F → ℤ) (jobs : List (JobMetadata F))
      (groups : Object (List (JobMetadata F)))
      → group_by key jobs ≡ some groups
      → sum_by (λ t. t.1) (sort by_value (tuples_of (reduce_from weight (pos 0)) groups))
        ≡ sum_by weight jobs
  sorted_sum key weight jobs groups grouped =
      sum_by-perm (λ t. t.1) (sort-perm by_value (tuples_of (reduce_from weight (pos 0)) groups))
      ∙ tuples_of-sum key weight (reduce_from weight (pos 0)) (reduce-sum weight) jobs groups
          grouped

  -- If grouping does not throw, all bars of "Compute time" together are the node seconds of all
  -- jobs, whatever the jobs are grouped by.
  pub compute_time_total :
      (key : JobMetadata F → String) (jobs : List (JobMetadata F)) (tuples : List (String × ℤ))
      → computed_tuples compute_time key jobs ≡ some tuples
      → sum_by (λ t. t.1) tuples ≡ sum_by node_seconds jobs
  unfolding computed_tuples
  compute_time_total key jobs tuples e =
      let (groups, grouped, same) = some-map _ (group_by key jobs) tuples e in
      rw (← same) (sorted_sum key node_seconds jobs groups grouped)

  -- If grouping does not throw, all bars of "Job length" together are the durations of all jobs,
  -- whatever the jobs are grouped by.
  pub job_length_total :
      (key : JobMetadata F → String) (jobs : List (JobMetadata F)) (tuples : List (String × ℤ))
      → computed_tuples job_length key jobs ≡ some tuples
      → sum_by (λ t. t.1) tuples ≡ sum_by duration jobs
  unfolding computed_tuples
  job_length_total key jobs tuples e =
      let (groups, grouped, same) = some-map _ (group_by key jobs) tuples e in
      rw (← same) (sorted_sum key duration jobs groups grouped)

  -- If grouping does not throw, the counts of a bar chart, sorted by value or not, together are
  -- the number of jobs: no job is left out and none is counted twice.
  pub count_total :
      (key : JobMetadata F → String) (sort_by_value : Bool) (jobs : List (JobMetadata F))
      (tuples : List (String × ℤ))
      → simple_attribute key sort_by_value false jobs ≡ some tuples
      → sum_by (λ t. t.1) tuples ≡ pos (length jobs)
  unfolding simple_attribute
  count_total key sort_by_value jobs tuples e =
      let (groups, grouped, same) = some-map _ (group_by key jobs) tuples e in
      let counts = tuples_of (λ group. pos (length group)) groups in
      let counted =
        tuples_of-sum key one_job (λ g. pos (length g)) length-sum jobs groups grouped in
      let moved = sum_by-perm (λ t. t.1) (sort-perm by_value counts) in
      elim (Bool-cases sort_by_value) [
        | inl sorted ↦ rw (← same, sorted, length-sum jobs) (moved ∙ counted)
        | inr unsorted ↦ rw (← same, unsorted, length-sum jobs) counted
      ]

  computed_tuples-Descends :
      (panel : Panel) (key : JobMetadata F → String) (jobs : List (JobMetadata F))
      (tuples : List (String × ℤ))
      → computed_tuples panel key jobs ≡ some tuples
      → IsSorted Descends tuples
  unfolding computed_tuples
  computed_tuples-Descends panel key jobs tuples e =
      let (groups, grouped, same) = some-map _ (group_by key jobs) tuples e in
      rw (← same) (sort-Descends _)

  -- If it renders, a horizontal chart of computed values shows the first 20 at most of all bars,
  -- from the largest value down, and no bar that it leaves out has a larger value than one that
  -- it shows.
  pub computed_attribute-top :
      (panel : Panel) (key : JobMetadata F → String) (jobs : List (JobMetadata F))
      (shown : List (String × ℤ))
      → computed_attribute panel key jobs ≡ some shown
      → (length shown ≤ 20)
        × ((rest : List (String × ℤ)) × (computed_tuples panel key jobs ≡ some (shown ++ rest))
            × IsSorted Descends (shown ++ rest))
  unfolding computed_attribute
  computed_attribute-top panel key jobs shown e =
      let (tuples, computed, same) = some-map _ (computed_tuples panel key jobs) shown e in
      let cut = slice-first 20 tuples in
      let whole : shown ++ drop 20 tuples ≡ tuples = rw (← same, cut, take-append-drop 20 tuples) in
      (
        rw (← same, cut) (omega (arith, length-take 20 tuples)),
        (
          drop 20 tuples,
          rw whole computed,
          rw whole (computed_tuples-Descends panel key jobs tuples computed),
        ),
      )

  -- A bar chart fails to render exactly if the key of some job is the name of a property of
  -- `Object.prototype`.
  pub simple_attribute-throws_iff :
      (key : JobMetadata F → String) (sort_by_value horizontal : Bool) (jobs : List (JobMetadata F))
      → (simple_attribute key sort_by_value horizontal jobs ≡ none)
        ↔ (any (λ job. is_inherited (key job)) jobs ≡ true)
  unfolding simple_attribute
  simple_attribute-throws_iff key sort_by_value horizontal jobs =
      let mapped = map-none_iff _ (group_by key jobs) in
      let throws = group_by-throws_iff key jobs in
      (λ e. throws.0 (mapped.0 e), λ bad. mapped.1 (throws.1 bad))
