-- ===== src/Metrics/Tests.antt =====
-- Runs of the selection and the overview.
use job_mon.Base.{ℕ, List, String, [], false, none, refl, some, ◌∷◌, ◌≡◌}
use job_mon.Js.Object.{has_own, is_inherited}
use job_mon.Metrics.{MetricSelection, categories, selection_effect}
use job_mon.Job.{JobData, JobMetadata, MetricConfig, MetricData, AggFn}

abbrev config : String → List String → MetricConfig ℕ
config name groups = record {
  guid = name;
  type = "node";
  categories = groups;
  measurement = name;
  agg_fn = AggFn.mean;
  available_agg_fns = "mean" ∷ [];
  sample_interval = "30s";
  unit = "";
  display_name = name;
  separation_key = "hostname";
  max_per_node = 100;
  max_per_type = 50;
  p_thread_agg_fn = AggFn.empty;
  filter_func = "";
  post_query_op = "";
}

abbrev metric_of : String → List String → MetricData ℕ ℕ
metric_of name groups = record { config = config name groups; points = []; raw_data = "" }

abbrev two : List (MetricData ℕ ℕ)
two = metric_of "load" ("Main" ∷ "CPU" ∷ []) ∷ metric_of "mem" ("Main" ∷ []) ∷ []

abbrev job_7 : JobMetadata ℕ
job_7 = record {
  id = 7;
  user_id = 1;
  user_name = "ada";
  group_id = 1;
  group_name = "physics";
  cluster_id = "";
  num_nodes = 1;
  num_tasks = 1;
  tasks_per_node = 1;
  gpus_per_node = 0;
  node_list = "n1";
  start_time = 0;
  stop_time = 600;
  is_running = false;
  job_name = "";
  account = "";
  partition = "main";
  job_script = "";
  tags = none;
  metrics =
      some (record { config = config "load" []; mean = 40; max = 90; change_points = none } ∷ []);
}

abbrev answer : JobData ℕ ℕ Unit
answer = record {
  metadata = job_7;
  metric_data = some two;
  quantile_data = none;
  sample_interval = 30;
  sample_intervals = 30 ∷ [];
}

abbrev nothing : MetricSelection
nothing = record { selected_metrics_map = []; selected_metrics = [] }

abbrev everything : MetricSelection
everything = record {
  selected_metrics_map = ("main", "load" ∷ "mem" ∷ []) ∷ [];
  selected_metrics = "load" ∷ "mem" ∷ [];
}

first_selection : selection_effect (some answer) nothing ≡ some everything
unfolding selection_effect has_own is_inherited
first_selection = refl

in_groups : categories two ≡ "CPU" ∷ "Main" ∷ []
unfolding categories
in_groups = refl
