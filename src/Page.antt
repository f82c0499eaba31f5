-- ===== src/Page.antt =====
-- The page of a job in frontend/pages/job/[id].tsx: the aggregation functions and the sample interval
-- that its effects choose, the switch for quantiles, and what it draws.
pub mod Tabs
pub mod Functions
mod Tests
use job_mon.Metrics.{categories, filtered_metric_data, metric_groups}
use job_mon.Panels.{quantile_groups, filtered_quantile_data}
use job_mon.Base.{
  Bool, List, Option, String, ℕ, [], ◌∷◌, ◌&&◌, eqb, false, if◌then◌else◌, length, ltb, none, not,
  some, true,
}
use job_mon.Cache.{truthy}
use job_mon.Job.{AggFn, JobData, MetricData, QuantileData}
use job_mon.Js.Object.{Object, put}

module _ {F P : Type 0} where
  -- The map of the functions that the metrics are configured with.
  unfoldable pub default_functions : List (MetricData F P) → Object AggFn → Object AggFn
  unfolding put
  default_functions [] chosen = chosen
  default_functions (m ∷ ms) chosen =
      default_functions ms (put m.config.guid m.config.agg_fn chosen)

  abbrev pub functions_of :
      Option (List (MetricData F P)) → Option (Object AggFn) → Option (Object AggFn)
  functions_of none chosen = chosen
  functions_of (some ms) none = some (default_functions ms [])
  functions_of (some ms) (some chosen) = some chosen

-- `setAggFnSelection` of one metric.
unfoldable pub choose_function : String → AggFn → Option (Object AggFn) → Option (Object AggFn)
unfolding put
choose_function guid f none = some (put guid f [])
choose_function guid f (some chosen) = some (put guid f chosen)

abbrev or_old : Option ℕ → Option ℕ → Option ℕ
or_old none old = old
or_old (some n) old = some n

module _ {F P Q : Type 0} where
  -- The effect on the job's metadata.
  unfoldable pub function_effect :
      Option (JobData F P Q) → Option (Object AggFn) → Option (Object AggFn)
  unfolding default_functions
  function_effect none chosen = chosen
  function_effect (some found) chosen = functions_of found.metric_data chosen

  -- The effect on the job's sample interval.
  unfoldable pub interval_effect : Option (JobData F P Q) → Option ℕ → Option ℕ
  interval_effect none interval = interval
  interval_effect (some found) interval = or_old (truthy (some found.sample_interval)) interval

  -- The switch for quantiles after the effect on the job's nodes.
  unfoldable pub quantiles_effect : Option (JobData F P Q) → Bool → Bool
  quantiles_effect none show_quantiles = show_quantiles
  quantiles_effect (some found) show_quantiles =
      if eqb found.metadata.num_nodes 1 then false else show_quantiles

-- What is drawn: the tabs, and the panel of each.
pub data PageView (F P Q : Type 0) : Type 0 where
  spinner no_data : PageView F P Q
  quantile_tabs : List String → List (List (QuantileData F Q)) → PageView F P Q
  metric_tabs : List String → List (List (MetricData F P)) → PageView F P Q

abbrev pub has_quantiles : {F Q : Type 0} → Option (List (QuantileData F Q)) → Bool
has_quantiles none = false
has_quantiles (some qs) = ltb 0 (length qs)

module _ {F P Q : Type 0} where
  -- By whether quantiles are shown, and the metrics of both kinds that are selected.
  abbrev pub tabs : Bool → List (MetricData F P) → List (QuantileData F Q) → PageView F P Q
  tabs true metrics quantiles =
      quantile_tabs (categories metrics) (quantile_groups (categories metrics) quantiles)
  tabs false metrics quantiles = metric_tabs (categories metrics) (metric_groups metrics)

  -- The page, by its data, whether it has metrics, the metrics that are selected and the switch.
  unfoldable pub page_view : Option (JobData F P Q) → Bool → List String → Bool → PageView F P Q
  unfolding filtered_metric_data categories metric_groups filtered_quantile_data quantile_groups
  page_view none contains_metric_data selected show_quantiles = spinner
  page_view (some found) false selected show_quantiles = no_data
  page_view (some found) true selected show_quantiles =
      tabs (show_quantiles && has_quantiles found.quantile_data)
        (filtered_metric_data selected found.metric_data)
        (filtered_quantile_data selected found.quantile_data)
