-- ===== src/Job/Sample.antt =====
-- A job for the runs of the modules that order and show jobs: its number, whether it is running, and
-- its times.
use job_mon.Base.{Bool, none, ℕ}
use job_mon.Job.{JobMetadata}

abbrev pub job : ℕ → Bool → ℕ → ℕ → JobMetadata Unit
job number running from to = record {
  id = number;
  user_id = 1;
  user_name = "ada";
  group_id = 1;
  group_name = "physics";
  cluster_id = "";
  num_nodes = 1;
  num_tasks = 1;
  tasks_per_node = 1;
  gpus_per_node = 0;
  node_list = "n1";
  start_time = from;
  stop_time = to;
  is_running = running;
  job_name = "";
  account = "";
  partition = "main";
  job_script = "";
  tags = none;
  metrics = none;
}
