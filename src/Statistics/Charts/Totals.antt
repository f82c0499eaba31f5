-- ===== src/Statistics/Charts/Totals.antt =====
-- What the bars of a panel add up to.
use job_mon.Base.{
  Bool, List, String, [], ap, arith, false, if◌then◌else◌, inl, inr, length, refl, some, some-map,
  suc, sym, take, true, zero, ℕ, ◌<◌, ◌∙◌, ◌∷◌, ◌≡◌, ◌⊎◌,
}
use job_mon.Base.Int.{pos, ℤ}
use job_mon.Base.Sums.{sum_by}
use job_mon.Groups.{group_by}
use job_mon.Job.{JobMetadata}
use job_mon.Js.Array.{slice, sort}
use job_mon.Js.Array.Laws.{slice-first}
use job_mon.Statistics.{
  Panel, by_value, compute_time, computed_attribute, computed_tuples, duration, group_name,
  job_length, node_seconds, num_nodes, one_job, partition, simple_attribute, tuples_of, username,
}
use job_mon.Statistics.Charts.{
  Attribute, StatChart, attribute_text, computed_chart, of_group_name, of_num_nodes, of_partition,
  of_user_name, render_computed_attribute, render_panel, render_simple_attribute, simple_chart,
}
use job_mon.Statistics.Laws.{compute_time_total, count_total, job_length_total, length-sum}

take-short : {A : Type 0} (n : ℕ) (xs : List A) → length (take n xs) < n → take n xs ≡ xs
take-short zero xs h = absurd (omega (arith, h))
take-short (suc n) [] h = refl
take-short (suc n) (x ∷ xs) h = ap (λ ys. x ∷ ys) (take-short n xs (omega (arith, h)))

slice-short :
    {A : Type 0} (xs : List A)
    → length (slice (pos 0) (pos 20) xs) < 20
    → slice (pos 0) (pos 20) xs ≡ xs
slice-short xs h = let cut = slice-first 20 xs in cut ∙ take-short 20 xs (rw cut at h)

-- A chart that shows all its bars.
abbrev pub IsWhole : StatChart → Type 0
IsWhole chart = (chart.horizontal ≡ false) ⊎ (length chart.tuples < 20)

shown_few : (shown : List (String × ℤ)) → (true ≡ false) ⊎ (length shown < 20) → length shown < 20
shown_few shown (inl e) = absurd (cc e)
shown_few shown (inr h) = h

module _ {F : Type 0} where
  -- What a panel adds up over the jobs.
  abbrev pub bar_weight : Panel → JobMetadata F → ℤ
  bar_weight compute_time = node_seconds
  bar_weight job_length = duration
  bar_weight _ = one_job

  simple-total :
      (attribute : Attribute) (sort_by_value : Bool) (tooltip title : String) (horizontal : Bool)
      (jobs : List (JobMetadata F)) (chart : StatChart)
      → render_simple_attribute jobs attribute sort_by_value horizontal tooltip title ≡ some chart
      → IsWhole chart
      → sum_by (λ t. t.1) chart.tuples ≡ sum_by one_job jobs
  unfolding render_simple_attribute simple_attribute
  simple-total attribute sort_by_value tooltip title false jobs chart e h =
      let (tuples, counted, same) =
        some-map (simple_chart attribute sort_by_value false tooltip title)
          (simple_attribute (attribute_text attribute) sort_by_value false jobs) chart e in
      rw (← same)
        (count_total (attribute_text attribute) sort_by_value jobs tuples counted ∙ length-sum jobs)
  simple-total attribute sort_by_value tooltip title true jobs chart e h =
      let (shown, counted, same) =
        some-map (simple_chart attribute sort_by_value true tooltip title)
          (simple_attribute (attribute_text attribute) sort_by_value true jobs) chart e in
      let (groups, grouped, first) =
        some-map _ (group_by (attribute_text attribute) jobs) shown counted in
      let counts = tuples_of (λ group. pos (length group)) groups in
      let sorted = if sort_by_value then sort by_value counts else counts in
      let all : simple_attribute (attribute_text attribute) sort_by_value false jobs ≡ some sorted =
        rw grouped refl in
      let few : length shown < 20 = shown_few shown (rw (← same) at h) in
      let whole : shown ≡ sorted = sym first ∙ slice-short sorted (rw (← first) at few) in
      rw (← same, whole)
        (count_total (attribute_text attribute) sort_by_value jobs sorted all ∙ length-sum jobs)

  computed-total :
      (weight : JobMetadata F → ℤ) (panel : Panel) (group_key : Attribute) (tooltip title : String)
      (jobs : List (JobMetadata F)) (chart : StatChart)
      → ((tuples : List (String × ℤ))
          → computed_tuples panel (attribute_text group_key) jobs ≡ some tuples
          → sum_by (λ t. t.1) tuples ≡ sum_by weight jobs)
      → render_computed_attribute jobs panel group_key tooltip title ≡ some chart
      → IsWhole chart
      → sum_by (λ t. t.1) chart.tuples ≡ sum_by weight jobs
  unfolding render_computed_attribute computed_attribute
  computed-total weight panel group_key tooltip title jobs chart total e h =
      let (shown, cut, same) =
        some-map (computed_chart panel group_key tooltip title)
          (computed_attribute panel (attribute_text group_key) jobs) chart e in
      let (tuples, computed, first) =
        some-map (slice (pos 0) (pos 20)) (computed_tuples panel (attribute_text group_key) jobs)
          shown cut in
      let few : length shown < 20 = shown_few shown (rw (← same) at h) in
      let whole : shown ≡ tuples = sym first ∙ slice-short tuples (rw (← first) at few) in
      rw (← same, whole) (total tuples computed)

  -- Whichever panel is chosen and whatever its jobs are grouped by, if its chart is drawn and is
  -- not cut off, which a bar chart never is and a horizontal one with fewer than 20 bars is not,
  -- all bars together are the node seconds of all jobs for "Compute Time", their durations for
  -- "Job Length", and the number of jobs for the other panels.
  pub render_panel-total :
      (panel : Panel) (group_key : Attribute) (jobs : List (JobMetadata F)) (chart : StatChart)
      → render_panel panel group_key jobs ≡ some chart
      → IsWhole chart
      → sum_by (λ t. t.1) chart.tuples ≡ sum_by (bar_weight panel) jobs
  unfolding render_panel
  render_panel-total partition group_key jobs chart =
      simple-total of_partition true _ _ true jobs chart
  render_panel-total username group_key jobs chart =
      simple-total of_user_name true _ _ true jobs chart
  render_panel-total num_nodes group_key jobs chart =
      simple-total of_num_nodes false _ _ false jobs chart
  render_panel-total group_name group_key jobs chart =
      simple-total of_group_name true _ _ true jobs chart
  render_panel-total job_length group_key jobs chart =
      computed-total duration job_length group_key _ _ jobs chart
        (job_length_total (attribute_text group_key) jobs)
  render_panel-total compute_time group_key jobs chart =
      computed-total node_seconds compute_time group_key _ _ jobs chart
        (compute_time_total (attribute_text group_key) jobs)
