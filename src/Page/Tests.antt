-- ===== src/Page/Tests.antt =====
-- Runs of the page of a job.
use job_mon.Js.Array.{insert, insert_all, sort}
use job_mon.Js.Object.{Object}
use job_mon.Metrics.{add_all, all_categories, categories, filtered_metric_data, metric_groups}
use job_mon.Page.Functions.{AreChosen, choose_all, function_effect-AreChosen}
use job_mon.Base.{List, String, ℕ, [], ◌∷◌, ◌≡◌, false, true, none, some, refl}
use job_mon.Job.{AggFn, JobData, JobMetadata, MetricData}
use job_mon.Page.{function_effect, page_view, metric_tabs}

abbrev metric_of : String → List String → AggFn → MetricData ℕ ℕ
metric_of name groups f = record {
  config = record {
    guid = name;
    type = "node";
    categories = groups;
    measurement = name;
    agg_fn = f;
    available_agg_fns = "mean" ∷ [];
    sample_interval = "30s";
    unit = "";
    display_name = name;
    separation_key = "hostname";
    max_per_node = 100;
    max_per_type = 50;
    p_thread_agg_fn = AggFn.empty;
    filter_func = "";
    post_query_op = "";
  };
  points = [];
  raw_data = "";
}

abbrev metrics : List (MetricData ℕ ℕ)
metrics =
    metric_of "ipc" ("CPU" ∷ []) AggFn.mean ∷ metric_of "mem" ("RAM" ∷ "CPU" ∷ []) AggFn.sum ∷ []

abbrev job_7 : JobMetadata ℕ
job_7 = record {
  id = 7;
  user_id = 1;
  user_name = "ada";
  group_id = 1;
  group_name = "physics";
  cluster_id = "";
  num_nodes = 2;
  num_tasks = 1;
  tasks_per_node = 1;
  gpus_per_node = 0;
  node_list = "n1|n2";
  start_time = 0;
  stop_time = 600;
  is_running = false;
  job_name = "";
  account = "";
  partition = "main";
  job_script = "";
  tags = none;
  metrics = none;
}

abbrev job_data : JobData ℕ ℕ ℕ
job_data = record {
  metadata = job_7;
  metric_data = some metrics;
  quantile_data = some [];
  sample_interval = 30;
  sample_intervals = 30 ∷ [];
}

one_tab :
    page_view (some job_data) true ("ipc" ∷ []) true
    ≡ metric_tabs ("CPU" ∷ []) ((metric_of "ipc" ("CPU" ∷ []) AggFn.mean ∷ []) ∷ [])
unfolding page_view metric_groups categories add_all all_categories sort insert_all insert
    filtered_metric_data
one_tab = refl

function_effect-AreChosen_example :
    (after : Object AggFn) × (function_effect
        (some job_data)
        (choose_all (("ipc", AggFn.max) ∷ []) (function_effect (some job_data) none))
      ≡ some after)
    × AreChosen after metrics
function_effect-AreChosen_example =
    function_effect-AreChosen job_data metrics (("ipc", AggFn.max) ∷ []) refl
