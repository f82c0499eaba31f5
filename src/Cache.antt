-- ===== src/Cache.antt =====
-- `useGetJobData` of frontend/pages/job/[id].tsx: the data of a job, its caches and its requests. An
-- effect is a function of the state and of the hook's arguments; an answer of the backend is a
-- function of the state too. A sample interval is a key by its numeral. `none` of an effect is an
-- exception.
pub mod Steps
pub mod Fetching
pub mod Safety
pub mod Nodes
pub mod Aggregation
mod Tests
use mathlib.Core.Option
use job_mon.Aggregates.{
  set_metric, AggCache, Request, add_aggregates, aggregated_all, job, or_empty,
}
use job_mon.Job.{AggFn, JobData, MetricData, agg_name}
use job_mon.Js.Object.{Object, get, has, put}
use job_mon.Js.Text.Decimal.{numeral}
use job_mon.Base.{
  [], Bool, List, Option, String, false, if◌then◌else◌, none, not, some, suc, true, zero, ℕ, ◌++◌,
  ◌==◌, ◌∷◌, ◌>>=◌,
}

module _ (F P Q : Type 0) where
  pub record JobCache : Type 0 where
    pub metadata : Option (JobData F P Q)
    pub intervals : Object (List (MetricData F P))

  abbrev pub NodeCache : Type 0
  NodeCache = Object (Object (JobData F P Q))

  -- The state of the hook; the websocket stands in Live.
  pub record State : Type 0 where
    pub job_data : Option (JobData F P Q)
    pub is_loading : Bool
    pub job_cache : JobCache
    pub node_cache : Option NodeCache
    pub agg_fn_cache : AggCache F P
    pub contains_metric_data : Bool

-- The arguments of the hook. `undefined` and `NaN` are `none`.
pub record Args : Type 0 where
  pub id : Option ℕ
  pub node : Option String
  pub sample_interval : Option ℕ
  pub agg_fn_selection : Option (Object AggFn)

-- A number that is neither missing nor 0.
abbrev pub truthy : Option ℕ → Option ℕ
truthy none = none
truthy (some zero) = none
truthy (some (suc n)) = some (suc n)

-- A text that is neither missing nor "".
abbrev pub truthy_text : Option String → Option String
truthy_text none = none
truthy_text (some s) = if s == "" then none else some s

module _ {F P Q : Type 0} where
  abbrev pub initial : State F P Q
  initial = record {
    job_data = none;
    is_loading = true;
    job_cache = record { metadata = none; intervals = [] };
    node_cache = none;
    agg_fn_cache = [];
    contains_metric_data = false;
  }

  abbrev pub keep_first : Option (JobData F P Q) → JobData F P Q → Option (JobData F P Q)
  keep_first none found = some found
  keep_first (some old) found = some old

  -- The body of `populateJobCache`, by the metrics that the data has.
  unfoldable pub populate :
      Option (List (MetricData F P)) → JobData F P Q → State F P Q → State F P Q
  unfolding add_aggregates put numeral
  populate none found s = record {
    job_data = some found;
    is_loading = false;
    job_cache = record {
      metadata = keep_first s.job_cache.metadata found;
      intervals = s.job_cache.intervals;
    };
    node_cache = s.node_cache;
    agg_fn_cache = s.agg_fn_cache;
    contains_metric_data = false;
  }
  populate (some ms) found s = record {
    job_data = some found;
    is_loading = false;
    job_cache = record {
      metadata = keep_first s.job_cache.metadata found;
      intervals = put (numeral found.sample_interval) ms s.job_cache.intervals;
    };
    node_cache = s.node_cache;
    agg_fn_cache = add_aggregates (numeral found.sample_interval) ms s.agg_fn_cache;
    contains_metric_data = true;
  }

  -- `populateJobCache`, the answer to a request for the job.
  unfoldable pub populate_job_cache : JobData F P Q → State F P Q → State F P Q
  unfolding populate
  populate_job_cache found s = populate found.metric_data found s

  abbrev pub loading : State F P Q → State F P Q
  loading s = record {
    job_data = s.job_data;
    is_loading = true;
    job_cache = s.job_cache;
    node_cache = s.node_cache;
    agg_fn_cache = s.agg_fn_cache;
    contains_metric_data = s.contains_metric_data;
  }

  abbrev pub showing : JobData F P Q → State F P Q → State F P Q
  showing found s = record {
    job_data = some found;
    is_loading = false;
    job_cache = s.job_cache;
    node_cache = s.node_cache;
    agg_fn_cache = s.agg_fn_cache;
    contains_metric_data = s.contains_metric_data;
  }

  abbrev pub with_metrics : List (MetricData F P) → JobData F P Q → JobData F P Q
  with_metrics ms found = record {
    metadata = found.metadata;
    metric_data = some ms;
    quantile_data = found.quantile_data;
    sample_interval = found.sample_interval;
    sample_intervals = found.sample_intervals;
  }

  -- The first effect for a job and a sample interval, by what the cache has of both.
  abbrev pub from_cache :
      ℕ
      → ℕ
      → State F P Q
      → Option (List (MetricData F P))
      → Option (JobData F P Q)
      → Option (State F P Q × List Request)
  from_cache id interval s none metadata = some (loading s, job (some id) (some interval) none ∷ [])
  from_cache id interval s (some ms) none = none
  from_cache id interval s (some ms) (some metadata) =
      some (showing (with_metrics ms metadata) s, [])

  abbrev pub fetch_for : Option ℕ → Option ℕ → State F P Q → Option (State F P Q × List Request)
  fetch_for none interval s = some (s, [])
  fetch_for (some id) none s = some (loading s, job (some id) none none ∷ [])
  fetch_for (some id) (some interval) s =
      from_cache id interval s (get (numeral interval) s.job_cache.intervals) s.job_cache.metadata

  -- The first effect, which fetches the job or takes it from the cache.
  unfoldable pub fetch_effect : Args → State F P Q → Option (State F P Q × List Request)
  fetch_effect args s = fetch_for (truthy args.id) (truthy args.sample_interval) s

  -- `setJobData` alone.
  abbrev changing : JobData F P Q → State F P Q → State F P Q
  changing found s = record {
    job_data = some found;
    is_loading = s.is_loading;
    job_cache = s.job_cache;
    node_cache = s.node_cache;
    agg_fn_cache = s.agg_fn_cache;
    contains_metric_data = s.contains_metric_data;
  }

  -- The second effect, which applies the selected aggregation functions.
  unfoldable pub aggregate_data :
      Args
      → JobData F P Q
      → State F P Q
      → Option (Object AggFn)
      → Option ℕ
      → Option (List (MetricData F P))
      → State F P Q × List Request
  unfolding aggregated_all get numeral
  aggregate_data args found s (some selection) (some interval) (some ms) =
      let interval_data = or_empty (get (numeral interval) s.agg_fn_cache) in
      let all = aggregated_all args.id interval selection interval_data ms in
      (changing (with_metrics all.0 found) s, all.1)
  aggregate_data args found s _ _ _ = (s, [])

  abbrev pub aggregate_for :
      Args → State F P Q → Option (JobData F P Q) → Bool → State F P Q × List Request
  aggregate_for args s (some found) true =
      aggregate_data args found s args.agg_fn_selection (truthy args.sample_interval)
        found.metric_data
  aggregate_for args s _ _ = (s, [])

  unfoldable pub aggregate_effect : Args → State F P Q → State F P Q × List Request
  unfolding aggregate_data
  aggregate_effect args s = aggregate_for args s s.job_data s.contains_metric_data

  abbrev pub with_aggregates : State F P Q → AggCache F P → State F P Q
  with_aggregates s cache = record {
    job_data = s.job_data;
    is_loading = s.is_loading;
    job_cache = s.job_cache;
    node_cache = s.node_cache;
    agg_fn_cache = cache;
    contains_metric_data = s.contains_metric_data;
  }

  -- The answer to a request for a metric.
  unfoldable pub receive_metric :
      ℕ → String → AggFn → MetricData F P → State F P Q → Option (State F P Q)
  unfolding set_metric numeral
  receive_metric interval guid f found s =
      Option.map (with_aggregates s) (set_metric (numeral interval) guid f found s.agg_fn_cache)

  -- The third effect for a node and a sample interval, by what the cache has (the names that an
  -- object inherits are not told apart from missing nodes).
  abbrev pub node_from :
      Option ℕ → ℕ → String → State F P Q → Option (JobData F P Q) → State F P Q × List Request
  node_from id interval node s none = (loading s, job id (some interval) (some node) ∷ [])
  node_from id interval node s (some found) = (showing found s, [])

  -- `nodeCache[sampleInterval][node]`
  unfoldable pub cached_node : ℕ → String → State F P Q → Option (JobData F P Q)
  unfolding get numeral
  cached_node interval node s = get node (or_empty (get (numeral interval) (or_empty s.node_cache)))

  abbrev pub node_for :
      Option ℕ → Option String → Option ℕ → State F P Q → State F P Q × List Request
  node_for id (some node) (some interval) s =
      node_from id interval node s (cached_node interval node s)
  node_for id _ _ s = (s, [])

  -- The third effect, which shows a single node.
  unfoldable pub node_effect : Args → State F P Q → State F P Q × List Request
  unfolding cached_node
  node_effect args s = node_for args.id (truthy_text args.node) (truthy args.sample_interval) s

  -- The answer to a request for a node.
  unfoldable pub receive_node : ℕ → String → JobData F P Q → State F P Q → State F P Q
  unfolding get put numeral
  receive_node interval node found s =
      let cache = or_empty s.node_cache in
      let interval_data = or_empty (get (numeral interval) cache) in
      record {
        job_data = some found;
        is_loading = false;
        job_cache = s.job_cache;
        node_cache = some (put (numeral interval) (put node found interval_data) cache);
        agg_fn_cache = s.agg_fn_cache;
        contains_metric_data = s.contains_metric_data;
      }
