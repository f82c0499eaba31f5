-- ===== src/Cache/Tests.antt =====
-- Runs of the hook.
use job_mon.Cache.Steps.{done, more, job_answer}
use job_mon.Aggregates.{job, AggCache, add_aggregates, agg_fn_of, aggregated, or_empty, set_metric}
use job_mon.Base.{List, [], false, none, refl, some, ℕ, ◌∷◌, ◌≡◌, ◌≢◌}
use job_mon.Cache.{
  Args, State, fetch_effect, initial, loading, populate_job_cache, showing, with_metrics,
}
use job_mon.Cache.Aggregation.{aggregated-received}
use job_mon.Cache.Fetching.{fetched_once}
use job_mon.Cache.Safety.{fetch_effect-returns}
use job_mon.Job.{empty, JobData, JobMetadata, MetricConfig, MetricData, mean, sum}
use job_mon.Js.Object.{has_own, is_inherited, get}
use job_mon.Js.Text.Decimal.{numeral}

abbrev config : MetricConfig Unit
config = record {
  guid = "g1";
  type = "node";
  categories = "CPU" ∷ [];
  measurement = "cpu_load";
  agg_fn = mean;
  available_agg_fns = "mean" ∷ "sum" ∷ [];
  sample_interval = "30s";
  unit = "";
  display_name = "Load";
  separation_key = "hostname";
  max_per_node = tt;
  max_per_type = tt;
  p_thread_agg_fn = empty;
  filter_func = "";
  post_query_op = "";
}

abbrev load : MetricData Unit ℕ
load = record { config = config; points = ("n1", 1 ∷ 2 ∷ []) ∷ []; raw_data = "" }

abbrev total : MetricData Unit ℕ
total = record { config = config; points = ("n1", 9 ∷ []) ∷ []; raw_data = "" }

abbrev metadata_7 : JobMetadata Unit
metadata_7 = record {
  id = 7;
  user_id = 1;
  user_name = "ada";
  group_id = 1;
  group_name = "physics";
  cluster_id = "";
  num_nodes = 1;
  num_tasks = 1;
  tasks_per_node = 1;
  gpus_per_node = 0;
  node_list = "n1";
  start_time = 0;
  stop_time = 60;
  is_running = false;
  job_name = "";
  account = "";
  partition = "main";
  job_script = "";
  tags = none;
  metrics = none;
}

abbrev answer : JobData Unit ℕ Unit
answer = record {
  metadata = metadata_7;
  metric_data = some (load ∷ []);
  quantile_data = none;
  sample_interval = 30;
  sample_intervals = 30 ∷ 60 ∷ [];
}

abbrev args : Args
args = record {
  id = some 7;
  node = some "n1";
  sample_interval = some 30;
  agg_fn_selection = some (("g1", sum) ∷ []);
}

abbrev loaded : State Unit ℕ Unit
loaded = populate_job_cache answer initial

first_request :
    fetch_effect args (let s : State Unit ℕ Unit = initial in s)
    ≡ some (loading initial, job (some 7) (some 30) none ∷ [])
unfolding fetch_effect get
first_request = refl

fetched_once_example :
    (shown : List (MetricData Unit ℕ)) × (metadata : JobData Unit ℕ Unit) × (get
        (numeral 30)
        loaded.job_cache.intervals
      ≡ some shown)
    × (loaded.job_cache.metadata ≡ some metadata)
    × (fetch_effect args loaded ≡ some (showing (with_metrics shown metadata) loaded, []))
fetched_once_example =
    fetched_once answer (load ∷ []) initial loaded args 7 refl (done loaded) refl refl

fetch_effect-returns_example : fetch_effect args loaded ≢ none
fetch_effect-returns_example =
    fetch_effect-returns loaded args
      (more initial loaded loaded (job_answer answer initial) (done loaded))

abbrev places : AggCache Unit ℕ
places = ("30", ("g1", ("mean", load) ∷ []) ∷ []) ∷ []

abbrev places' : AggCache Unit ℕ
places' = ("30", ("g1", ("mean", load) ∷ ("sum", total) ∷ []) ∷ []) ∷ []

filled_places : add_aggregates "30" (load ∷ []) [] ≡ places
unfolding add_aggregates has_own is_inherited
filled_places = refl

received :
    set_metric (numeral 30) "g1" (agg_fn_of (("g1", sum) ∷ []) load) total places ≡ some places'
unfolding set_metric agg_fn_of numeral
received = refl

aggregated-received_example :
    aggregated (some 7) 30 (("g1", sum) ∷ []) (or_empty (get (numeral 30) places')) load
    ≡ (total, [])
aggregated-received_example =
    aggregated-received (some 7) 30 (("g1", sum) ∷ []) load total places places' received
