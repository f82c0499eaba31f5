-- ===== src/JobList/Tests.antt =====
-- Runs of the address of a filter.
use job_mon.Js.Array.{slice}
use job_mon.Filter.{JobSearchParams}
use job_mon.JobList.Addresses.{entry_in, job_query-finds}
use job_mon.Js.Object.{Object, get}
use job_mon.Js.Text.Decimal.{numeral, numeral_from}
use job_mon.Paging.{page_slice}
use job_mon.Base.{List, String, ℕ, [], ◌∷◌, ◌≡◌, none, some, refl, true, false}
use job_mon.Base.Int.{◌*ℤ◌, ◌+ℤ◌, ◌-ℤ◌, pos}
use job_mon.Job.{JobTag}
use job_mon.JobList.{entry, ids_text, job_list, job_query, param_text, range_text, no_jobs, compact}

abbrev tag : ℕ → JobTag
tag n = record { id = n; name = ""; type = ""; created_by = "" }

abbrev params : JobSearchParams
params = record {
  user_id = none;
  user_name = some "ada";
  group_id = none;
  group_name = some "";
  is_running = some false;
  partition = none;
  num_nodes = some (some 1, none);
  num_tasks = none;
  num_gpus = none;
  time = none;
  tags = some (some (tag 3) ∷ some (tag 14) ∷ []);
}

abbrev names : List String
names = "UserName" ∷ "GroupName" ∷ "IsRunning" ∷ "NumNodes" ∷ "Tags" ∷ []

abbrev query : Object String
query = ("UserName", "ada") ∷ ("IsRunning", "false") ∷ ("NumNodes", "1,") ∷ ("Tags", "3,14") ∷ []

asked : job_query names params ≡ some query
unfolding job_query entry param_text range_text ids_text numeral numeral_from
asked = refl

job_query-finds_example : entry_in names params "GroupName" ≡ some (get "GroupName" query)
job_query-finds_example = job_query-finds names params query "GroupName" asked

second_page : job_list {A = ℕ} true 2 (pos 2) (1 ∷ 2 ∷ 3 ∷ []) ≡ compact (3 ∷ [])
unfolding job_list page_slice slice ◌+ℤ◌ ◌*ℤ◌ ◌-ℤ◌
second_page = refl

behind_the_last_page : job_list {A = ℕ} false 2 (pos 3) (1 ∷ 2 ∷ 3 ∷ []) ≡ no_jobs
unfolding job_list page_slice slice ◌+ℤ◌ ◌*ℤ◌ ◌-ℤ◌
behind_the_last_page = refl
