-- ===== src/Charts/Hosts.antt =====
-- From the data of a metric to the lines of its chart: `prepareMetricData` of
-- frontend/components/jobview/MetricDataCharts.tsx with the effect of
-- frontend/components/charts/LineChart.tsx.
use job_mon.LineChart.Drawn.Ranges.{
  IsSampled, filter-data_of, filtered-by, sampled-IsLine, within, within-IsDistinct,
}
use job_mon.Js.Object.Places.Uniqueness.{entries-IsUnique, filter-IsUnique}
use job_mon.LineChart.Drawn.{Grouping, IsGrouping, drawn_lines}
use job_mon.LineChart.Drawn.Lines.{lines-drawn, seen_line}
use mathlib.Core.Path.{subst}
use job_mon.Js.Object.Entries.{get-entry}
use job_mon.Js.Object.Places.{All-entries}
use job_mon.Js.Object.{keys}
use job_mon.Job.{agg_name, MetricData}
use job_mon.Js.Number.{Number}
use job_mon.Charts.{separation, ends_with, MetricPoint, field_text, prepare_metric_data, points_of}
use job_mon.Metrics.{is_in}
use job_mon.Base.{
  none, if◌then◌else◌, Option, eqb, ltb, ◌<◌, not, true, ◌||◌, All, Bool, Bool-cases, List, String,
  [], ap, arith, false, filter, inl, inr, length, map, refl, some, ℕ, ◌++◌, ◌∙◌, ◌∷◌, ◌≡◌,
}
use job_mon.Js.Object.{entries, get, Object}
use job_mon.Js.Object.Laws.{IsUnique}
use job_mon.LineChart.{Domain, check_between, filtered_data}
use job_mon.LineChart.Drawn.Layout.{data_of}

-- The entries of the selected hosts.
abbrev pub shown_hosts : {D : Type 0} → List String → Object (List D) → List (String × List D)
shown_hosts selection o = filter (λ e. is_in selection e.0) (entries o)

hosts_points :
    {D : Type 0} (selection : List String) (o es : Object (List D)) (known : Bool)
    → known ≡ true
    → All (λ e. get e.0 o ≡ some e.1) es
    → points_of o (filter (λ k. not known || is_in selection k) (map (λ e. e.0) es))
      ≡ data_of (filter (λ e. is_in selection e.0) es)
unfolding points_of
hosts_points selection o [] known t h = refl
hosts_points selection o ((k, ds) ∷ es) known t h =
    let rest = hosts_points selection o es known t h.1 in
    elim (Bool-cases (is_in selection k)) [
      | inl chosen ↦ rw (t, chosen, points_of, h.0) (ap (λ r. ds ++ r) rest)
      | inr other ↦ rw (t, other) rest
    ]

-- If a host is selected, its points are of its own name, at some times.
abbrev pub IsHost :
    {C : Type 0}
    → (MetricPoint C → ℕ)
    → List ℕ
    → List String
    → String × List (MetricPoint C)
    → Type 0
IsHost x times selection e =
    is_in selection e.0 ≡ true → (map x e.1 ≡ times) × All (λ d. d.hostname ≡ e.0) e.1

module _ (n : Number) (print : n.Carrier → String)
    (d3_max : List n.Carrier → Option n.Carrier) where
  prepared-hosts :
      (metric : MetricData n.Carrier (MetricPoint n.Carrier)) (selection : List String)
      → 1 < length selection
      → IsUnique metric.points
      → ((prepare_metric_data n print d3_max metric selection).metric_data
          ≡ data_of (shown_hosts selection metric.points))
        × ((prepare_metric_data n print d3_max metric selection).z
            ≡ some (field_text n print "" "hostname"))
  unfolding prepare_metric_data keys
  prepared-hosts metric selection several u =
      let one : eqb (length selection) 1 ≡ false = ground arith in
      let some_selected : ltb 0 (length selection) ≡ true = ground arith in
      let many : ltb 1 (length selection) ≡ true = ground arith in
      let by_host : separation n print d3_max metric.config selection ≡ "hostname" =
        rw many (or_many (ends_with metric.config.measurement (agg_name metric.config.agg_fn))) in
      let o = metric.points in
      let shown =
        hosts_points selection o (entries o) true refl
          (All-entries (λ e. get e.0 o ≡ some e.1) o (get-entry o u)) in
      (rw (one, some_selected, by_host) shown, rw (one, some_selected, by_host) refl)
    where
      or_many :
          (b : Bool) → (if b || true then "hostname" else metric.config.separation_key) ≡ "hostname"
      or_many b = ground arith

  hostname-read : (d : MetricPoint n.Carrier) → field_text n print "" "hostname" d ≡ d.hostname
  unfolding field_text
  hostname-read d = refl

  module _ (x : MetricPoint n.Carrier → ℕ) (is_nan : n.Carrier → Bool) (group : Grouping)
      (grouping : IsGrouping group) where
    sampled :
        (times : List ℕ) (selection : List String) (es : Object (List (MetricPoint n.Carrier)))
        → All (IsHost x times selection) es
        → All
            (IsSampled x (field_text n print "" "hostname") times)
            (filter (λ e. is_in selection e.0) es)
    sampled times selection [] h = tt
    sampled times selection ((k, ds) ∷ es) h = elim (Bool-cases (is_in selection k)) [
      | inl chosen ↦
          let (at_times, named) = h.0 chosen in
          rw (chosen, All) ((at_times, read ds named), sampled times selection es h.1)
      | inr other ↦ rw other (sampled times selection es h.1)
    ]
      where
        read :
            (ds : List (MetricPoint n.Carrier))
            → All (λ d. d.hostname ≡ k) ds
            → All (λ d. field_text n print "" "hostname" d ≡ k) ds
        read [] p = tt
        read (d ∷ ds) p = (hostname-read d ∙ p.0, read ds p.1)

    -- From the data of a metric to its drawn chart: if several nodes are selected, names are
    -- unique, each selected host of the data has points of its own name, all at the same times,
    -- some of which lie in the range that the chart is narrowed to, then, with a grouping as d3
    -- documents it, the chart draws for each selected host of the data, in the order of its
    -- enumeration, one line under its name with exactly its points in that range, and with the
    -- gaps of the first line.
    pub hosts-drawn :
        (metric : MetricData n.Carrier (MetricPoint n.Carrier)) (selection : List String)
        (times : List ℕ) (domain : Domain) (low high : ℕ)
        (e : String × List (MetricPoint n.Carrier))
        (ls : List (String × List (MetricPoint n.Carrier))) (z : MetricPoint n.Carrier → String)
        → 1 < length selection
        → IsUnique metric.points
        → All (IsHost x times selection) metric.points
        → shown_hosts selection metric.points ≡ e ∷ ls
        → (prepare_metric_data n print d3_max metric selection).z ≡ some z
        → (filtered_data x
            (prepare_metric_data n print d3_max metric selection).metric_data
            (some domain)).1
          ≡ some (low, high)
        → 0 < length (filter (check_between low high) times)
        → (let points =
              (filtered_data x
                (prepare_metric_data n print d3_max metric selection).metric_data
                (some domain)).0 in
            drawn_lines x (λ d. d.value) z is_nan group none points
            ≡ map
                (seen_line x (λ d. d.value) z is_nan (within x low high e).1)
                (map (within x low high) (e ∷ ls)))
    hosts-drawn metric selection times domain low high e ls z several u hosts shown key range kept =
        let (points, own_z) = prepared-hosts metric selection several u in
        let by_host = field_text n print "" "hostname" in
        let same_z : by_host ≡ z = cc (own_z, key) in
        let prepared = (prepare_metric_data n print d3_max metric selection).metric_data in
        let lines : All (IsSampled x by_host times) (e ∷ ls) = rw shown at (
          sampled times selection (entries metric.points)
            (All-entries (IsHost x times selection) metric.points hosts)) in
        let unique : IsUnique (e ∷ ls) = rw shown at (
          filter-IsUnique (λ f. is_in selection f.0) (entries metric.points)
            (entries-IsUnique metric.points u)) in
        let left : (filtered_data x prepared (some domain)).0
            ≡ data_of (map (within x low high) (e ∷ ls)) =
          filtered-by x prepared domain low high range
          ∙ ap (filter (λ d. check_between low high (x d))) (points ∙ ap data_of shown)
          ∙ filter-data_of x low high (e ∷ ls) in
        let drawn =
          lines-drawn x (λ d. d.value) by_host is_nan group grouping
            (length (filter (check_between low high) times)) e.0 (within x low high e).1
            (map (within x low high) ls) kept
            (sampled-IsLine x by_host times low high (e ∷ ls) lines)
            (within-IsDistinct x low high (e ∷ ls) unique) in
        subst
          (λ w.
            drawn_lines x (λ d. d.value) w is_nan group none
              (filtered_data x prepared (some domain)).0
            ≡ map (seen_line x (λ d. d.value) w is_nan (within x low high e).1)
                (map (within x low high) (e ∷ ls)))
          same_z (ap (drawn_lines x (λ d. d.value) by_host is_nan group none) left ∙ drawn)
