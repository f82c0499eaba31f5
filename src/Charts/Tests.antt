-- ===== src/Charts/Tests.antt =====
-- Runs of the preparation of a chart.
use job_mon.LineChart.{filtered_data}
use job_mon.Charts.Hosts.{IsHost, hosts-drawn}
use job_mon.Js.Object.Laws.{IsUnique}
use job_mon.LineChart.Drawn.{drawn_lines}
use job_mon.LineChart.Drawn.Grouped.{front_grouping, front_grouping-IsGrouping}
use job_mon.Base.{
  All, Option, arith, eqb, if◌then◌else◌, none, some, ◌++◌, ◌==◌, List, String, [], refl, ℕ, ◌∷◌,
  ◌≡◌,
}
use job_mon.Charts.{field_text, prepare_metric_data, MetricPoint, cpu_points, points_of}
use job_mon.Js.Object.{entries, has_own, keys, Object}
use job_mon.Js.Number.Naturals.{naturals}
use job_mon.Job.{MetricConfig, MetricData, AggFn}

abbrev point : String → ℕ → MetricPoint ℕ
point thread v = record {
  field = "";
  measurement = "ipc";
  start = "";
  stop = "";
  time = "t0";
  value = v;
  cluster = "";
  hostname = "n1";
  result = "";
  table = 0;
  type = "cpu";
  type_id = thread;
  device = "";
}

-- Two cores with two threads each, of which the last brought no data.
abbrev threads : Object (List (MetricPoint ℕ))
threads =
    ("0", point "0" 10 ∷ []) ∷ ("1", point "1" 20 ∷ []) ∷ ("2", point "2" 4 ∷ []) ∷ ("3", []) ∷ []

abbrev nodes : List String
nodes = "0" ∷ "1" ∷ "2" ∷ "3" ∷ []

mean_of_threads : cpu_points naturals AggFn.mean threads 4 nodes ≡ point "0" 7 ∷ point "1" 10 ∷ []
unfolding cpu_points
mean_of_threads = refl

abbrev load : MetricConfig ℕ
load = record {
  guid = "load";
  type = "node";
  categories = [];
  measurement = "load";
  agg_fn = AggFn.mean;
  available_agg_fns = "mean" ∷ [];
  sample_interval = "30s";
  unit = "";
  display_name = "load";
  separation_key = "hostname";
  max_per_node = 100;
  max_per_type = 50;
  p_thread_agg_fn = AggFn.empty;
  filter_func = "";
  post_query_op = "";
}

abbrev seen_at : String → String → ℕ → MetricPoint ℕ
seen_at host at v = record (point "" v) { hostname = host; time = at }

abbrev of_n1 : List (MetricPoint ℕ)
of_n1 = seen_at "n1" "0" 4 ∷ seen_at "n1" "1" 5 ∷ []

abbrev of_n3 : List (MetricPoint ℕ)
of_n3 = seen_at "n3" "0" 6 ∷ seen_at "n3" "1" 7 ∷ []

-- Three hosts, of which two are selected.
abbrev loads : MetricData ℕ (MetricPoint ℕ)
loads = record {
  config = load;
  points = ("n1", of_n1) ∷ ("n2", []) ∷ ("n3", of_n3) ∷ [];
  raw_data = "";
}

abbrev two : List String
two = "n3" ∷ "n1" ∷ []

abbrev date : MetricPoint ℕ → ℕ
date d = if d.time == "0" then 10 else 20

abbrev print : ℕ → String
print v = ""

abbrev largest : List ℕ → Option ℕ
largest vs = none

abbrev by_host : MetricPoint ℕ → String
by_host = field_text naturals print "" "hostname"

loads-IsUnique : IsUnique loads.points
unfolding has_own
loads-IsUnique = (refl, (refl, (refl, tt)))

loads-IsHost : All (IsHost date (10 ∷ 20 ∷ []) two) loads.points
loads-IsHost = (
  (λ _. (refl, (refl, (refl, tt)))),
  ((λ e. absurd (cc e)), ((λ _. (refl, (refl, (refl, tt)))), tt)),
)

hosts-drawn_example :
    drawn_lines date (λ d. d.value) by_host (eqb 0) front_grouping none (of_n1 ++ of_n3)
    ≡ (some "n1", some (10, 4) ∷ some (20, 5) ∷ [])
      ∷ (some "n3", some (10, 6) ∷ some (20, 7) ∷ [])
      ∷ []
unfolding prepare_metric_data filtered_data points_of keys entries
hosts-drawn_example =
    hosts-drawn naturals print largest date (eqb 0) front_grouping front_grouping-IsGrouping loads
      two (10 ∷ 20 ∷ []) (0, 100) 10 20 ("n1", of_n1) (("n3", of_n3) ∷ []) by_host (omega arith)
      loads-IsUnique loads-IsHost refl refl refl (omega arith)
