-- ===== src/Cache/Fetching.antt =====
-- What was fetched is shown again without a request.
use job_mon.Base.{is_some, is_some-some, List, Option, [], ap, refl, some, true, ℕ, ◌∙◌, ◌≡◌}
use job_mon.Cache.{
  Args, State, fetch_effect, fetch_for, from_cache, populate, populate_job_cache, showing, truthy,
  with_metrics,
}
use job_mon.Cache.Steps.{Extends-Reaches, Reaches, kept}
use job_mon.Job.{JobData, MetricData}
use job_mon.Js.Object.{get, has_own}
use job_mon.Js.Object.Laws.{has_own-get, has_own-put}
use job_mon.Js.Text.Decimal.{numeral}
use text.Mathlib.TextPositions.{eq_refl}

module _ {F P Q : Type 0} where
  from_cache-hit :
      (id interval : ℕ) (s : State F P Q) (o : Option (List (MetricData F P)))
      (m : Option (JobData F P Q)) (ms : List (MetricData F P)) (metadata : JobData F P Q)
      → o ≡ some ms
      → m ≡ some metadata
      → from_cache id interval s o m ≡ some (showing (with_metrics ms metadata) s, [])
  from_cache-hit id interval s o m ms metadata p q = rw (p, q) refl

  populate-caches :
      (ms : List (MetricData F P)) (found : JobData F P Q) (s : State F P Q)
      → (is_some (populate (some ms) found s).job_cache.metadata ≡ true)
        × (has_own (numeral found.sample_interval) (populate (some ms) found s).job_cache.intervals
            ≡ true)
  unfolding populate
  populate-caches ms found s = (
    kept found s.job_cache.metadata,
    rw
        (
          has_own-put (numeral found.sample_interval) (numeral found.sample_interval) ms
              s.job_cache.intervals,
          eq_refl (numeral found.sample_interval),
        )
        refl,
  )

  -- After an answer with metrics for a sample interval, in every state that the hook reaches from
  -- there by effects and answers in any order, the effect that fetches the job, for a job and
  -- this interval (neither of them 0), shows the cached metrics of the interval with the cached
  -- metadata, and sends no request.
  pub fetched_once :
      (found : JobData F P Q) (ms : List (MetricData F P)) (s t : State F P Q) (args : Args)
      (id : ℕ)
      → found.metric_data ≡ some ms
      → Reaches (populate_job_cache found s) t
      → truthy args.id ≡ some id
      → truthy args.sample_interval ≡ some found.sample_interval
      → (shown : List (MetricData F P)) × (metadata : JobData F P Q) × (get
            (numeral found.sample_interval)
            t.job_cache.intervals
          ≡ some shown)
        × (t.job_cache.metadata ≡ some metadata)
        × (fetch_effect args t ≡ some (showing (with_metrics shown metadata) t, []))
  unfolding fetch_effect populate_job_cache
  fetched_once found ms s t args id has_metrics reached with_id with_interval =
      let cached = populate-caches ms found s in
      let grows =
        Extends-Reaches (populate (some ms) found s) t
          (again found.metric_data has_metrics reached) in
      let (metadata, known) = is_some-some t.job_cache.metadata (grows.0 cached.0) in
      let (shown, held) =
        has_own-get (numeral found.sample_interval) t.job_cache.intervals
          (grows.1 (numeral found.sample_interval) cached.1) in
      (
        shown,
        metadata,
        held,
        known,
        fetch_hit (truthy args.id) (truthy args.sample_interval) with_id with_interval shown
            metadata held known,
      )
    where
      again :
          (o : Option (List (MetricData F P)))
          → o ≡ some ms
          → Reaches (populate o found s) t
          → Reaches (populate (some ms) found s) t
      again o e r = rw e at r

      fetch_hit :
          (i n : Option ℕ)
          → i ≡ some id
          → n ≡ some found.sample_interval
          → (shown : List (MetricData F P)) (metadata : JobData F P Q)
          → get (numeral found.sample_interval) t.job_cache.intervals ≡ some shown
          → t.job_cache.metadata ≡ some metadata
          → fetch_for i n t ≡ some (showing (with_metrics shown metadata) t, [])
      fetch_hit i n p q shown metadata held known =
          ap (λ x. fetch_for x n t) p
          ∙ ap (λ x. fetch_for (some id) x t) q
          ∙ from_cache-hit id found.sample_interval t _ t.job_cache.metadata shown metadata held
              known
