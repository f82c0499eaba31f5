-- ===== src/Panels/Listing.antt =====
-- Which charts there are, and which change points they show.
use job_mon.Job.{JobMetadataData}
use job_mon.Js.Object.{keys}
use job_mon.Charts.{points_of, prepare_metric_data, MetricPoint}
use job_mon.Js.Array.Laws.{sort-perm}
use job_mon.Js.Number.{Number}
use job_mon.Metrics.{by_name}
use job_mon.Panels.{
  QuantilePoint, change_points, change_points_of, changepoint_dates, joined_dates, metric_props,
  quantile_chart, quantile_charts, quantile_props, with_change_points, ChangePoint, Source,
  charts_of, metric_chart, metric_charts, sorted_charts, with_chart,
}
use mathlib.Core.List
use mathlib.Core.List.Perm
use mathlib.Core.Option
use mathlib.Core.Path.{subst}
use job_mon.Base.{
  Bool, List, Option, String, ℕ, [], ◌∷◌, ◌++◌, ◌==◌, ◌≡◌, ◌∙◌, Perm, arith, filter, is_some, map,
  none, some, refl, sym, true, false, ap, if◌then◌else◌, Option-cases, inl, inr,
}
use mathlib.Core.List.{append_assoc, append-nil}

module _ {M C : Type 0} (name : M → String) (chart : M → Option C) where
  charts_of-filter_map : (ms : List M) → charts_of name chart ms ≡ List.filter_map chart ms
  unfolding charts_of List.filter_map
  charts_of-filter_map [] = refl
  charts_of-filter_map (m ∷ ms) = elim (Option-cases (chart m)) [
    | inl e ↦ rw (e) (charts_of-filter_map ms)
    | inr (c, e) ↦ rw (e) (ap (◌∷◌ c) (charts_of-filter_map ms))
  ]

  -- Sorting the metrics rearranges the charts.
  sorted_charts-perm : (ms : List M) → Perm (sorted_charts name chart ms) (charts_of name chart ms)
  unfolding sorted_charts
  sorted_charts-perm ms =
      subst (λ cs. Perm cs (charts_of name chart ms)) (sym (charts_of-filter_map _))
        (subst (Perm _) (sym (charts_of-filter_map ms))
          (Perm.filter_map chart (sort-perm (λ a b. by_name (name a) (name b)) ms)))

module _ {M P C : Type 0} (name : M → String) (points : M → Option P) (make : M → P → C)
    (title : C → String) (named : (m : M) (p : P) → title (make m p) ≡ name m) where
  with_chart-titles :
      (m : M) (o : Option P) (rest : List C)
      → map title
          (with_chart name (λ x. Option.map (make x) (points x)) (Option.map (make m) o) rest)
        ≡ (if is_some o then name m ∷ map title rest else map title rest)
  with_chart-titles m none rest = refl
  with_chart-titles m (some p) rest = ap (λ t. t ∷ map title rest) (named m p)

  charts_of-titles :
      (ms : List M)
      → map title (charts_of name (λ x. Option.map (make x) (points x)) ms)
        ≡ map name (filter (λ m. is_some (points m)) ms)
  unfolding charts_of
  charts_of-titles [] = refl
  charts_of-titles (m ∷ ms) = with_chart-titles m (points m) _ ∙ ground (arith, charts_of-titles ms)

  pub sorted_charts-titles :
      (ms : List M)
      → Perm
          (map title (sorted_charts name (λ x. Option.map (make x) (points x)) ms))
          (map name (filter (λ m. is_some (points m)) ms))
  sorted_charts-titles ms =
      subst (Perm _) (charts_of-titles ms) (Perm.map title (sorted_charts-perm name _ ms))

module _ (n : Number) (is_zero : n.Carrier → Bool) (print : n.Carrier → String)
    (d3_max : List n.Carrier → Option n.Carrier) (show_cp auto_scale : Bool)
    (ps : List ChangePoint) where
  pub metric_charts-titles :
      (selection : List String) (ms : List (Source n.Carrier (MetricPoint n.Carrier)))
      → Perm
          (map
            (λ c. c.chart_title)
            (metric_charts n is_zero print d3_max show_cp auto_scale selection ps ms))
          (map (λ m. m.config.display_name) (filter (λ m. is_some m.points) ms))
  unfolding metric_charts metric_chart
  metric_charts-titles selection ms =
      sorted_charts-titles (λ m. m.config.display_name) (λ m. m.points)
        (λ m points. metric_props n is_zero print d3_max show_cp auto_scale selection ps m.config (
          prepare_metric_data n print d3_max
            (record { config = m.config; points = points; raw_data = "" }) selection))
        (λ c. c.chart_title) (λ m points. refl) ms

  -- The titles of the charts of quantiles are the names of the metrics that have points, in some order.
  pub quantile_charts-titles :
      (ms : List (Source n.Carrier (QuantilePoint n.Carrier)))
      → Perm
          (map
            (λ c. c.chart_title)
            (quantile_charts n is_zero print d3_max show_cp auto_scale ps ms))
          (map (λ m. m.config.display_name) (filter (λ m. is_some m.points) ms))
  unfolding quantile_charts quantile_chart
  quantile_charts-titles ms =
      sorted_charts-titles (λ m. m.config.display_name) (λ m. m.points)
        (λ m points.
          quantile_props n is_zero print d3_max show_cp auto_scale ps m.config
            (points_of points (keys points)))
        (λ c. c.chart_title) (λ m points. refl) ms

-- The dates of the change points of one metric.
abbrev pub dates_of : (String → ℕ) → Option (List String) → List ℕ
dates_of parse_date none = []
dates_of parse_date (some ds) = map parse_date ds

module _ {F : Type 0} (parse_date : String → ℕ) where
  abbrev pub dates_with : String → List (JobMetadataData F) → List ℕ
  dates_with guid [] = []
  dates_with guid (x ∷ xs) =
      if x.config.guid == guid
      then dates_of parse_date x.change_points ++ dates_with guid xs
      else dates_with guid xs

  joined-with :
      (guid : String) (x : JobMetadataData F) (ds : Option (List String)) (rest : List ChangePoint)
      → joined_dates (filter (λ p. p.guid == guid) (with_change_points parse_date x ds rest)) ≡ (
          if x.config.guid == guid
          then dates_of parse_date ds ++ joined_dates (filter (λ p. p.guid == guid) rest)
          else joined_dates (filter (λ p. p.guid == guid) rest))
  joined-with guid x none rest = ground arith
  joined-with guid x (some ds) rest = ground arith

  joined-of :
      (guid : String) (xs : List (JobMetadataData F))
      → joined_dates (filter (λ p. p.guid == guid) (change_points_of parse_date xs))
        ≡ dates_with guid xs
  unfolding change_points_of
  joined-of guid [] = refl
  joined-of guid (x ∷ xs) =
      joined-with guid x x.change_points (change_points_of parse_date xs)
      ∙ ground (arith, joined-of guid xs)

  -- The change points of a chart are the dates of its metric, where they are shown.
  pub changepoint_dates-shown :
      (show_cp : Bool) (guid : String) (xs : List (JobMetadataData F))
      → changepoint_dates show_cp guid (change_points parse_date (some xs))
        ≡ (if show_cp then dates_with guid xs else [])
  unfolding changepoint_dates change_points
  changepoint_dates-shown true guid xs = joined-of guid xs
  changepoint_dates-shown false guid xs = refl
