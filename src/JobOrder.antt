-- ===== src/JobOrder.antt =====
-- The order of the job list in frontend/pages/jobs.tsx, with the choices of
-- frontend/components/joblist/JobListDisplaySettings.tsx.
pub mod Keys
pub mod Length
mod Tests
use job_mon.Base.{Bool, List, false, filter, if◌then◌else◌, ltb, not, reverse, true, ℕ, ◌&&◌, ◌++◌}
use job_mon.Base.Int.{abs, negsuc, pos, ℤ, ◌-ℤ◌}
use job_mon.Job.{JobMetadata}
use job_mon.Js.Array.{sort}

-- The values of the select box "Sort by".
pub data SortBy : Type 0 where
  joblength start_time stop_time num_nodes id : SortBy

abbrev pub is_joblength : SortBy → Bool
is_joblength joblength = true
is_joblength _ = false

module _ {F : Type 0} where
  -- `a[sortBy as keyof JobMetadata]`; there is no property `joblength`, and the code does not read it.
  abbrev pub sort_key : SortBy → JobMetadata F → ℕ
  sort_key start_time job = job.start_time
  sort_key stop_time job = job.stop_time
  sort_key num_nodes job = job.num_nodes
  sort_key id job = job.id
  sort_key joblength job = 0

  -- `a[sortBy] < b[sortBy] ? 1 : -1`
  abbrev pub by_key : SortBy → JobMetadata F → JobMetadata F → ℤ
  by_key sort_by a b = if ltb (sort_key sort_by a) (sort_key sort_by b) then pos 1 else negsuc 0

  -- `Math.abs(a.StopTime - a.StartTime)`
  unfoldable pub run_time : JobMetadata F → ℕ
  unfolding ◌-ℤ◌
  run_time job = abs (pos job.stop_time -ℤ pos job.start_time)

  -- `-(x - y)` for two finished jobs; running jobs come first, the earliest start first.
  unfoldable pub by_length : JobMetadata F → JobMetadata F → ℤ
  unfolding run_time ◌-ℤ◌
  by_length a b =
      if not a.is_running && not b.is_running
      then pos 0 -ℤ (pos (run_time a) -ℤ pos (run_time b))
      else if a.is_running && not b.is_running
      then negsuc 0
      else if b.is_running && not a.is_running
      then pos 1
      else if ltb a.start_time b.start_time
      then negsuc 0
      else pos 1

  abbrev reversed_if : Bool → List (JobMetadata F) → List (JobMetadata F)
  reversed_if test jobs = if test then reverse jobs else jobs

  unfoldable pub ordered : SortBy → Bool → List (JobMetadata F) → List (JobMetadata F)
  unfolding sort by_length
  ordered sort_by descending jobs =
      if not (is_joblength sort_by)
      then reversed_if (not descending) (sort (by_key sort_by) jobs)
      else (let sorted = sort by_length jobs in
          reversed_if (not descending) (filter (λ j. not j.is_running) sorted)
          ++ reversed_if (not descending) (filter (λ j. j.is_running) sorted))
