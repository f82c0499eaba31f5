-- ===== src/Metrics.antt =====
-- The metrics that are shown: `useMetricSelection` and the groups of charts in
-- frontend/pages/job/[id].tsx, and the overview of a job in frontend/components/joblist/JobList.tsx.
pub mod Selecting
pub mod Grouping
pub mod Overview
mod Tests
use job_mon.Statistics.{duration}
use Prim.Native.String.{compare}
use job_mon.Base.{
  ℕ, Bool, List, Option, String, [], any, eqb, false, filter, if◌then◌else◌, is_some, length, map,
  none, not, some, true, ◌++◌, ◌==◌, ◌||◌, ◌∷◌,
}
use job_mon.Base.Int.{ltb_ℤ, negsuc, pos, ℤ, ◌-ℤ◌}
use job_mon.Job.{JobData, JobMetadata, JobMetadataData, MetricData}
use job_mon.Js.Array.{sort}
use job_mon.Js.Number.{Number}
use job_mon.Js.Object.{Object, get, has, put}
use job_mon.Paging.{is_zero}
use Prim.Native.String.compare
use text.Mathlib.Text.{is_lt}
use mathlib.Core.Option

-- The state of `useMetricSelection`; the map by partitions is stored.
pub record MetricSelection : Type 0 where
  pub selected_metrics_map : Object (List String)
  pub selected_metrics : List String

module _ {F P : Type 0} where
  abbrev measurements : List (MetricData F P) → List String
  measurements ms = map (λ m. m.config.measurement) ms

  -- The effect for a job with metrics. `none` is a partition that is named like an inherited property,
  -- whose value is no list.
  unfoldable pub select_for :
      String → List (MetricData F P) → MetricSelection → Option MetricSelection
  unfolding has get put
  select_for partition ms s =
      if has partition s.selected_metrics_map
      then Option.map
          (λ chosen. record {
            selected_metrics_map = s.selected_metrics_map;
            selected_metrics = chosen;
          })
          (get partition s.selected_metrics_map)
      else some (record {
        selected_metrics_map = put partition (measurements ms) s.selected_metrics_map;
        selected_metrics = measurements ms;
      })

  abbrev pub with_metrics_of :
      Option (List (MetricData F P)) → String → MetricSelection → Option MetricSelection
  with_metrics_of none partition s = some s
  with_metrics_of (some ms) partition s = select_for partition ms s

module _ {F P Q : Type 0} where
  -- The effect of `useMetricSelection`.
  unfoldable pub selection_effect :
      Option (JobData F P Q) → MetricSelection → Option MetricSelection
  unfolding select_for
  selection_effect none s = some s
  selection_effect (some found) s = with_metrics_of found.metric_data found.metadata.partition s

  -- `setSelection`
  unfoldable pub set_selection :
      Option (JobData F P Q) → List String → MetricSelection → MetricSelection
  unfolding put
  set_selection none val s = s
  set_selection (some found) val s = record {
    selected_metrics_map = put found.metadata.partition val s.selected_metrics_map;
    selected_metrics = s.selected_metrics;
  }

abbrev pub is_in : List String → String → Bool
is_in names name = any (λ n. n == name) names

-- `new Set(...)`: each value once, at its first place.
unfoldable pub add_all : List String → List String → List String
add_all seen [] = seen
add_all seen (c ∷ cs) = add_all (if is_in seen c then seen else seen ++ c ∷ []) cs

-- `a < b ? -1 : 1`, which compares texts of the basic multilingual plane by their code points.
abbrev pub by_name : String → String → ℤ
by_name a b = if is_lt (compare a b) then negsuc 0 else pos 1

module _ {F P : Type 0} where
  -- `filteredMetricData`
  unfoldable pub filtered_metric_data :
      List String → Option (List (MetricData F P)) → List (MetricData F P)
  filtered_metric_data selected none = []
  filtered_metric_data selected (some ms) = filter (λ m. is_in selected m.config.measurement) ms

  unfoldable pub all_categories : List (MetricData F P) → List String
  all_categories [] = []
  all_categories (m ∷ ms) = m.config.categories ++ all_categories ms

  unfoldable pub categories : List (MetricData F P) → List String
  unfolding add_all all_categories sort
  categories ms = sort by_name (add_all [] (all_categories ms))

  -- The charts of each category.
  unfoldable pub metric_groups : List (MetricData F P) → List (List (MetricData F P))
  unfolding categories
  metric_groups ms = map (λ c. filter (λ m. is_in m.config.categories c) ms) (categories ms)

-- An axis of the radar chart.
pub record RadarPoint (F : Type 0) : Type 0 where
  pub mean : F
  pub max : F
  pub title : String

-- By whether the job is running and has metrics, the number of its axes, and its duration.
abbrev pub availability_by : Bool → Bool → ℕ → ℤ → Bool × String
availability_by is_running has_metrics axes duration =
    if is_running
    then (false, "Job is still running. No metadata available yet.")
    else if not has_metrics || eqb axes 0
    then (false, "No metadata metrics for job available.")
    else if ltb_ℤ duration (pos 120)
    then (false, "No metadata metrics available for jobs shorter than two minutes.")
    else (true, "")

module _ (n : Number) (max_of : n.Carrier → n.Carrier → n.Carrier)
    (is_zero : n.Carrier → Bool) where
  abbrev pub radar_point : JobMetadataData n.Carrier → RadarPoint n.Carrier
  radar_point val =
      let most = max_of val.config.max_per_node val.config.max_per_type in
      let device_max = if is_zero most then val.mean else most in
      record {
        mean = n.div val.mean device_max;
        max = n.div val.max device_max;
        title = val.config.display_name;
      }

  abbrev pub by_title : RadarPoint n.Carrier → RadarPoint n.Carrier → ℤ
  by_title a b = by_name a.title b.title

  unfoldable pub radar_chart_data :
      List String → Option (List (JobMetadataData n.Carrier)) → List (RadarPoint n.Carrier)
  unfolding sort
  radar_chart_data metrics none = []
  radar_chart_data metrics (some vals) =
      sort by_title (map radar_point (filter (λ val. is_in metrics val.config.guid) vals))

  -- `dataAvailable` and `reason`
  unfoldable pub availability : List String → JobMetadata n.Carrier → Bool × String
  unfolding radar_chart_data
  availability metrics job =
      availability_by job.is_running (is_some job.metrics)
        (length (radar_chart_data metrics job.metrics)) (pos job.stop_time -ℤ pos job.start_time)
