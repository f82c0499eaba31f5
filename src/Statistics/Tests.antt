-- ===== src/Statistics/Tests.antt =====
-- Runs of the statistics.
use job_mon.Statistics.Charts.{StatChart, of_user_name, render_panel}
use job_mon.Statistics.Charts.Totals.{render_panel-total}
use job_mon.Js.Array.{slice, sort}
use job_mon.Base.{
  arith, inr, List, String, [], false, length, none, refl, some, true, ℕ, ◌++◌, ◌∷◌, ◌≡◌, ◌≤◌,
}
use job_mon.Base.Int.{◌*ℤ◌, ◌+ℤ◌, ◌-ℤ◌, pos, ℤ}
use job_mon.Base.Sums.{sum_by}
use job_mon.Job.{JobMetadata}
use job_mon.Js.Array.Laws.{IsSorted}
use job_mon.Js.Object.{get, has, has_own, keys, put, is_inherited}
use job_mon.Statistics.{
  compute_time, computed_attribute, computed_tuples, job_length, node_seconds, simple_attribute,
}
use job_mon.Statistics.Laws.{Descends, computed_attribute-top}

abbrev job : String → ℕ → ℕ → ℕ → JobMetadata Unit
job name nodes from to = record {
  id = 1;
  user_id = 1;
  user_name = name;
  group_id = 1;
  group_name = "physics";
  cluster_id = "";
  num_nodes = nodes;
  num_tasks = 1;
  tasks_per_node = 1;
  gpus_per_node = 0;
  node_list = "n1";
  start_time = from;
  stop_time = to;
  is_running = false;
  job_name = "";
  account = "";
  partition = "main";
  job_script = "";
  tags = none;
  metrics = none;
}

abbrev jobs : List (JobMetadata Unit)
jobs = job "ada" 2 10 20 ∷ job "bob" 4 10 30 ∷ job "ada" 1 5 6 ∷ []

abbrev user : JobMetadata Unit → String
user job = job.user_name

abbrev node_hours : List (String × ℤ)
node_hours = ("bob", pos 80) ∷ ("ada", pos 21) ∷ []

computed : computed_tuples compute_time user jobs ≡ some node_hours
unfolding computed_tuples has has_own is_inherited put get sort keys ◌-ℤ◌ ◌+ℤ◌ ◌*ℤ◌
computed = refl

abbrev lengths : List (String × ℤ)
lengths = ("bob", pos 20) ∷ ("ada", pos 11) ∷ []

measured : computed_tuples job_length user jobs ≡ some lengths
unfolding computed_tuples has has_own is_inherited put get sort keys ◌-ℤ◌ ◌+ℤ◌
measured = refl

abbrev counts : List (String × ℤ)
counts = ("ada", pos 2) ∷ ("bob", pos 1) ∷ []

counted : simple_attribute user true false jobs ≡ some counts
unfolding simple_attribute has has_own is_inherited put get keys ◌-ℤ◌
counted = refl

shown : computed_attribute compute_time user jobs ≡ some node_hours
unfolding computed_attribute has has_own is_inherited put get slice sort keys ◌-ℤ◌ ◌+ℤ◌ ◌*ℤ◌
shown = refl

computed_attribute-top_example :
    (length node_hours ≤ 20)
    × ((rest : List (String × ℤ)) × (computed_tuples compute_time user jobs
          ≡ some (node_hours ++ rest))
        × IsSorted Descends (node_hours ++ rest))
computed_attribute-top_example = computed_attribute-top compute_time user jobs node_hours shown

abbrev compute_time_chart : StatChart
compute_time_chart = record {
  title = "Compute Time";
  tooltip =
      "Compute time grouped by UserName. Compute time is calculated as number of nodes * job length";
  horizontal = true;
  value_label = some "ComputeTime";
  column_label = "UserName";
  tuples = node_hours;
}

drawn_panel : render_panel compute_time of_user_name jobs ≡ some compute_time_chart
unfolding render_panel slice has has_own is_inherited put get sort keys ◌-ℤ◌ ◌+ℤ◌ ◌*ℤ◌
drawn_panel = refl

render_panel-total_example : sum_by (λ t. t.1) node_hours ≡ sum_by node_seconds jobs
render_panel-total_example =
    render_panel-total compute_time of_user_name jobs compute_time_chart drawn_panel
      (inr (omega arith))
