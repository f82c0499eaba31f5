-- ===== src/Panels.antt =====
-- The charts of a job's page: the change points and the groups of quantiles in
-- frontend/pages/job/[id].tsx, frontend/components/jobview/QuantileDataCharts.tsx, and the loop of
-- frontend/components/jobview/MetricDataCharts.tsx. Floating point, the printing of a number and the
-- maximum of the library d3 are parameters, and so is `new Date` of a text.
pub mod Listing
mod Tests
use job_mon.Charts.{MetricPoint, Prepared, points_of, prepare_metric_data}
use job_mon.Js.Array.{sort}
use job_mon.Js.Object.{Object, keys}
use job_mon.Metrics.{by_name, categories, is_in}
use job_mon.Paging.{is_zero}
use job_mon.Units.{best_prefix, new_unit, or_else, to_string}
use job_mon.Base.{
  Bool, List, Option, String, ℕ, [], ◌∷◌, ◌++◌, ◌==◌, eqb, false, filter, if◌then◌else◌, length,
  map, none, not, some, true,
}
use job_mon.Base.Int.{ℤ}
use job_mon.Job.{AggFn, JobMetadataData, MetricConfig, MetricData, QuantileData}
use job_mon.Js.Number.{Number}
use Prim.Native.String
use mathlib.Core.Option

-- `ChangePoint`
pub record ChangePoint : Type 0 where
  pub guid : String
  pub date : List ℕ

module _ {F : Type 0} (parse_date : String → ℕ) where
  abbrev pub with_change_points :
      JobMetadataData F → Option (List String) → List ChangePoint → List ChangePoint
  with_change_points x none rest = rest
  with_change_points x (some ds) rest =
      record { guid = x.config.guid; date = map parse_date ds } ∷ rest

  unfoldable pub change_points_of : List (JobMetadataData F) → List ChangePoint
  change_points_of [] = []
  change_points_of (x ∷ xs) = with_change_points x x.change_points (change_points_of xs)

  -- `cps`
  unfoldable pub change_points : Option (List (JobMetadataData F)) → List ChangePoint
  unfolding change_points_of
  change_points none = []
  change_points (some xs) = change_points_of xs

abbrev pub joined_dates : List ChangePoint → List ℕ
joined_dates [] = []
joined_dates (p ∷ ps) = p.date ++ joined_dates ps

-- `changepointDates` of the metric with a GUID.
unfoldable pub changepoint_dates : Bool → String → List ChangePoint → List ℕ
changepoint_dates show_cp guid ps =
    if show_cp then joined_dates (filter (λ p. p.guid == guid) ps) else []

module _ {F Q : Type 0} where
  -- `filteredQuantileData`
  unfoldable pub filtered_quantile_data :
      List String → Option (List (QuantileData F Q)) → List (QuantileData F Q)
  filtered_quantile_data selected none = []
  filtered_quantile_data selected (some ms) = filter (λ m. is_in selected m.config.measurement) ms

  -- `quantileGroups`, by the categories of the metrics.
  unfoldable pub quantile_groups :
      List String → List (QuantileData F Q) → List (List (QuantileData F Q))
  quantile_groups categories ms = map (λ c. filter (λ m. is_in m.config.categories c) ms) categories

-- The loop over sorted metrics: one that has no chart is skipped.
module _ {M C : Type 0} (name : M → String) (chart : M → Option C) where
  abbrev pub with_chart : Option C → List C → List C
  with_chart none rest = rest
  with_chart (some c) rest = c ∷ rest

  unfoldable pub charts_of : List M → List C
  charts_of [] = []
  charts_of (m ∷ ms) = with_chart (chart m) (charts_of ms)

  abbrev by_display_name : M → M → ℤ
  by_display_name a b = by_name (name a) (name b)

  unfoldable pub sorted_charts : List M → List C
  unfolding charts_of sort
  sorted_charts ms = charts_of (sort by_display_name ms)

-- A metric of one of the two views, whose `Data` may be `null`.
pub record Source (F P : Type 0) : Type 0 where
  pub config : MetricConfig F
  pub points : Option (Object (List P))

pub record QuantilePoint (C : Type 0) : Type 0 where
  pub field : String
  pub measurement : String
  pub time : String
  pub value : C

-- What a chart is given.
pub record LineChartProps (C P : Type 0) : Type 0 where
  pub points : List P
  pub z : Option (P → String)
  pub title : Option (P → Option String)
  pub unit : String
  pub chart_title : String
  pub show_tooltip_mean : Bool
  pub show_tooltip_sum : Bool
  pub y_domain : Option (C × C)
  pub cp : List ℕ

module _ (n : Number) (is_zero : n.Carrier → Bool) (print : n.Carrier → String)
    (d3_max : List n.Carrier → Option n.Carrier) where
  abbrev from_zero : n.Carrier → Option (n.Carrier × n.Carrier)
  from_zero most = if is_zero most then none else some (n.of_ℕ 0, most)

  -- `yDomain` of a metric's chart.
  unfoldable pub metric_domain :
      Bool → List String → MetricConfig n.Carrier → Option (n.Carrier × n.Carrier)
  metric_domain auto_scale selection config =
      if auto_scale
      then none
      else from_zero (if eqb (length selection) 1 then config.max_per_type else config.max_per_node)

  abbrev pub metric_props :
      Bool
      → Bool
      → List String
      → List ChangePoint
      → MetricConfig n.Carrier
      → Prepared n
      → LineChartProps n.Carrier (MetricPoint n.Carrier)
  metric_props show_cp auto_scale selection ps config prepared = record {
    points = prepared.metric_data;
    z = prepared.z;
    title = prepared.title;
    unit = config.unit;
    chart_title = config.display_name;
    show_tooltip_mean = true;
    show_tooltip_sum = elim config.agg_fn [ AggFn.sum ↦ true | _ ↦ false ];
    y_domain = metric_domain auto_scale selection config;
    cp = changepoint_dates show_cp config.guid ps;
  }

  unfoldable pub metric_chart :
      Bool
      → Bool
      → List String
      → List ChangePoint
      → Source n.Carrier (MetricPoint n.Carrier)
      → Option (LineChartProps n.Carrier (MetricPoint n.Carrier))
  unfolding prepare_metric_data metric_domain changepoint_dates
  metric_chart show_cp auto_scale selection ps metric =
      Option.map
        (λ points. metric_props show_cp auto_scale selection ps metric.config (
          prepare_metric_data n print d3_max
            (record { config = metric.config; points = points; raw_data = "" }) selection))
        metric.points

  -- The charts of `MetricDataCharts`.
  unfoldable pub metric_charts :
      Bool
      → Bool
      → List String
      → List ChangePoint
      → List (Source n.Carrier (MetricPoint n.Carrier))
      → List (LineChartProps n.Carrier (MetricPoint n.Carrier))
  unfolding sorted_charts metric_chart
  metric_charts show_cp auto_scale selection ps =
      sorted_charts (λ m. m.config.display_name) (metric_chart show_cp auto_scale selection ps)

  abbrev quantile_most : List (QuantilePoint n.Carrier) → n.Carrier
  quantile_most points = or_else (d3_max (map (λ d. d.value) points)) (n.of_ℕ 0)

  -- `yDomain` of a chart of quantiles.
  unfoldable pub quantile_domain :
      Bool
      → MetricConfig n.Carrier
      → List (QuantilePoint n.Carrier)
      → Option (n.Carrier × n.Carrier)
  quantile_domain auto_scale config points =
      if auto_scale then some (n.of_ℕ 0, quantile_most points) else from_zero config.max_per_node

  abbrev quantile_title :
      String → List (QuantilePoint n.Carrier) → QuantilePoint n.Carrier → Option String
  quantile_title unit points d =
      Option.map (λ t. String.◌++◌ d.field (String.◌++◌ ": " t))
        (to_string n (new_unit n d.value unit)
          (best_prefix n (new_unit n (quantile_most points) unit)))

  abbrev pub quantile_props :
      Bool
      → Bool
      → List ChangePoint
      → MetricConfig n.Carrier
      → List (QuantilePoint n.Carrier)
      → LineChartProps n.Carrier (QuantilePoint n.Carrier)
  quantile_props show_cp auto_scale ps config points = record {
    points = points;
    z = some (λ d. d.field);
    title = some (quantile_title config.unit points);
    unit = config.unit;
    chart_title = config.display_name;
    show_tooltip_mean = false;
    show_tooltip_sum = false;
    y_domain = quantile_domain auto_scale config points;
    cp = changepoint_dates show_cp config.guid ps;
  }

  unfoldable pub quantile_chart :
      Bool
      → Bool
      → List ChangePoint
      → Source n.Carrier (QuantilePoint n.Carrier)
      → Option (LineChartProps n.Carrier (QuantilePoint n.Carrier))
  unfolding quantile_domain changepoint_dates points_of keys new_unit best_prefix to_string
  quantile_chart show_cp auto_scale ps metric =
      Option.map
        (λ points.
          quantile_props show_cp auto_scale ps metric.config (points_of points (keys points)))
        metric.points

  -- The charts of `QuantileDataCharts`.
  unfoldable pub quantile_charts :
      Bool
      → Bool
      → List ChangePoint
      → List (Source n.Carrier (QuantilePoint n.Carrier))
      → List (LineChartProps n.Carrier (QuantilePoint n.Carrier))
  unfolding sorted_charts quantile_chart
  quantile_charts show_cp auto_scale ps =
      sorted_charts (λ m. m.config.display_name) (quantile_chart show_cp auto_scale ps)
