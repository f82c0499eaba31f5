-- ===== src/Metrics/Overview.antt =====
-- When the overview of a job shows its radar chart.
use job_mon.Live.{seconds}
use job_mon.Base.{
  Option, is_some, none, refl, some, ℕ, Bool, List, String, arith, false, length, true, ◌<◌, ◌↔◌,
  ◌≡◌,
}
use job_mon.Base.Int.{ℤ, pos, ◌-ℤ◌, ◌≤ℤ◌}
use job_mon.Job.{JobMetadataData, JobMetadata}
use job_mon.Js.Number.{Number}
use job_mon.Metrics.{availability_by, availability, radar_chart_data}

available_iff :
    (running has_metrics : Bool) (axes : ℕ) (seconds : ℤ)
    → ((availability_by running has_metrics axes seconds).0 ≡ true)
      ↔ ((running ≡ false) × (has_metrics ≡ true) × (0 < axes) × (pos 120 ≤ℤ seconds))
available_iff running has_metrics axes seconds = ground arith

module _ (n : Number) (max_of : n.Carrier → n.Carrier → n.Carrier)
    (is_zero : n.Carrier → Bool) where
  has_axes :
      (metrics : List String) (o : Option (List (JobMetadataData n.Carrier)))
      → 0 < length (radar_chart_data n max_of is_zero metrics o)
      → is_some o ≡ true
  unfolding radar_chart_data
  has_axes metrics none h = absurd (omega (arith, h))
  has_axes metrics (some vals) h = refl

  -- The overview of a job has data exactly if the job is not running, has a metric of the radar
  -- chart, and lasted two minutes at least.
  pub availability_iff :
      (metrics : List String) (job : JobMetadata n.Carrier)
      → ((availability n max_of is_zero metrics job).0 ≡ true) ↔ (
          (job.is_running ≡ false)
          × (0 < length (radar_chart_data n max_of is_zero metrics job.metrics))
          × (pos 120 ≤ℤ pos job.stop_time -ℤ pos job.start_time))
  unfolding availability
  availability_iff metrics job =
      let known =
        available_iff job.is_running (is_some job.metrics)
          (length (radar_chart_data n max_of is_zero metrics job.metrics))
          (pos job.stop_time -ℤ pos job.start_time) in
      (
        λ e. let (idle, _, axes, long) = known.0 e in (idle, axes, long),
        λ h. known.1 (h.0, has_axes metrics job.metrics h.1, h.1, h.2),
      )
