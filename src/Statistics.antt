-- ===== src/Statistics.antt =====
-- The numbers behind frontend/components/statistics/StatItem.tsx, and the panels of
-- frontend/components/panelmanager/PanelManager.tsx.
pub mod Laws
pub mod Charts
mod Tests
use job_mon.Base.{Bool, List, Option, String, [], if◌then◌else◌, length, map, ◌∷◌}
use job_mon.Base.Int.{pos, ℤ, ◌*ℤ◌, ◌+ℤ◌, ◌-ℤ◌}
use job_mon.Groups.{group_at, group_by}
use job_mon.Job.{JobMetadata}
use job_mon.Js.Array.{slice, sort}
use job_mon.Js.Object.{Object, keys}
use mathlib.Core.Option

pub data Panel : Type 0 where
  partition username num_nodes group_name job_length compute_time : Panel

-- The comparator `(a, b) => b[1] - a[1]`.
abbrev pub by_value : String × ℤ → String × ℤ → ℤ
by_value a b = b.1 -ℤ a.1

module _ {F : Type 0} where
  -- `cv.StopTime - cv.StartTime`, which may be negative for a job that is still running.
  abbrev pub duration : JobMetadata F → ℤ
  duration job = pos job.stop_time -ℤ pos job.start_time

  abbrev pub one_job : JobMetadata F → ℤ
  one_job job = pos 1

  -- `cv.NumNodes * (cv.StopTime - cv.StartTime)`
  abbrev pub node_seconds : JobMetadata F → ℤ
  node_seconds job = pos job.num_nodes *ℤ duration job

  -- `reduce` from 0 in the order of the group.
  unfoldable pub reduce_from : (JobMetadata F → ℤ) → ℤ → List (JobMetadata F) → ℤ
  reduce_from weight acc [] = acc
  reduce_from weight acc (job ∷ jobs) = reduce_from weight (acc +ℤ weight job) jobs

  -- A tuple for each group: its key, and the value that `measure` makes of its jobs.
  abbrev pub tuples_of :
      (List (JobMetadata F) → ℤ) → Object (List (JobMetadata F)) → List (String × ℤ)
  tuples_of measure groups = map (λ k. (k, measure (group_at k groups))) (keys groups)

  -- `renderSimpleAttribute`: the number of jobs of each group. `attribute` is `obj[attribute].toString()`.
  -- The horizontal charts show the first 20 tuples. `none` means that the rendering throws.
  unfoldable pub simple_attribute :
      (JobMetadata F → String) → Bool → Bool → List (JobMetadata F) → Option (List (String × ℤ))
  unfolding group_by sort
  simple_attribute attribute sort_by_value horizontal jobs =
      Option.map
        (λ groups.
          let tuples = tuples_of (λ group. pos (length group)) groups in
          let sorted = if sort_by_value then sort by_value tuples else tuples in
          if horizontal then slice (pos 0) (pos 20) sorted else sorted)
        (group_by attribute jobs)

  -- `renderComputedAttribute` up to its chart, which shows the first 20 tuples.
  unfoldable pub computed_tuples :
      Panel → (JobMetadata F → String) → List (JobMetadata F) → Option (List (String × ℤ))
  unfolding group_by reduce_from
  computed_tuples panel group_key jobs =
      Option.map
        (λ groups. sort by_value (elim panel [
          | compute_time ↦ tuples_of (reduce_from node_seconds (pos 0)) groups
          | job_length ↦ tuples_of (reduce_from duration (pos 0)) groups
          | _ ↦ []
        ]))
        (group_by group_key jobs)

  unfoldable pub computed_attribute :
      Panel → (JobMetadata F → String) → List (JobMetadata F) → Option (List (String × ℤ))
  unfolding computed_tuples
  computed_attribute panel group_key jobs =
      Option.map (slice (pos 0) (pos 20)) (computed_tuples panel group_key jobs)
