-- ===== src/Cache/Safety.antt =====
-- The first effect never throws.
use mathlib.Core.Path.{subst}
use job_mon.Base.{
  is_some, Bool-cases, List, Option, String, false, inl, inr, none, refl, some, sym, true, ℕ, ◌≡◌,
  ◌≢◌,
}
use job_mon.Cache.{
  Args, JobCache, State, aggregate_effect, fetch_effect, fetch_for, from_cache, initial,
  node_effect, populate, populate_job_cache, receive_node, truthy, truthy_text,
}
use job_mon.Cache.Steps.{
  job_answer, node_answer, metric_answer, fetch, aggregate, show_node, done, more, Reaches, Step,
  aggregate_for-cache, fetch_for-cache, kept, metric-cache, node_for-cache,
}
use job_mon.Job.{JobData, MetricData}
use job_mon.Js.Object.{has_own}
use job_mon.Js.Object.Laws.{get-none}
use job_mon.Js.Text.Decimal.{numeral}

module _ {F P Q : Type 0} where
  -- The metadata is known once an interval is.
  abbrev IsKept : JobCache F P Q → Type 0
  IsKept c = (k : String) → has_own k c.intervals ≡ true → is_some c.metadata ≡ true

  IsKept-populate :
      (ms : Option (List (MetricData F P))) (found : JobData F P Q) (s : State F P Q)
      → IsKept (populate ms found s).job_cache
  unfolding populate
  IsKept-populate none found s k h = kept found s.job_cache.metadata
  IsKept-populate (some ms) found s k h = kept found s.job_cache.metadata

  IsKept-Step : (s t : State F P Q) → Step s t → IsKept s.job_cache → IsKept t.job_cache
  unfolding fetch_effect node_effect aggregate_effect populate_job_cache receive_node
  IsKept-Step s t (job_answer found _) h = IsKept-populate found.metric_data found s
  IsKept-Step s t (node_answer interval node found _) h = h
  IsKept-Step s t (metric_answer interval guid f found _ _ e) h =
      subst IsKept (sym (metric-cache interval guid f found s t e)) h
  IsKept-Step s t (fetch args _ _ rs e) h =
      subst IsKept (sym (fetch_for-cache (truthy args.id) (truthy args.sample_interval) s t rs e)) h
  IsKept-Step s t (aggregate args _) h =
      subst IsKept (sym (aggregate_for-cache args s s.job_data s.contains_metric_data)) h
  IsKept-Step s t (show_node args _) h =
      subst IsKept
        (sym (node_for-cache args.id (truthy_text args.node) (truthy args.sample_interval) s)) h

  IsKept-Reaches : (s t : State F P Q) → Reaches s t → IsKept s.job_cache → IsKept t.job_cache
  IsKept-Reaches s t (done _) h = h
  IsKept-Reaches s t (more _ u _ first rest) h = IsKept-Reaches u t rest (IsKept-Step s u first h)

  from_cache-throws :
      (id interval : ℕ) (s : State F P Q) (ms : Option (List (MetricData F P)))
      (metadata : Option (JobData F P Q))
      → from_cache id interval s ms metadata ≡ none
      → (ms ≢ none) × (is_some metadata ≡ false)
  from_cache-throws id interval s none metadata e = absurd (cc e)
  from_cache-throws id interval s (some ms) none e = (λ p. cc p, refl)
  from_cache-throws id interval s (some ms) (some metadata) e = absurd (cc e)

  fetch_for-returns :
      (id interval : Option ℕ) (s : State F P Q)
      → IsKept s.job_cache
      → fetch_for id interval s ≢ none
  fetch_for-returns none interval s h e = cc e
  fetch_for-returns (some id) none s h e = cc e
  fetch_for-returns (some id) (some interval) s h e =
      let (held, unknown) = from_cache-throws id interval s _ s.job_cache.metadata e in
      elim (Bool-cases (has_own (numeral interval) s.job_cache.intervals)) [
        | inl own ↦ cc (h (numeral interval) own, unknown)
        | inr other ↦ held (get-none (numeral interval) s.job_cache.intervals other)
      ]

  -- In every state that the hook reaches by effects and answers in any order, whatever its
  -- arguments, the effect that fetches the job does not throw "No metadata in jobcache".
  pub fetch_effect-returns :
      (s : State F P Q) (args : Args) → Reaches initial s → fetch_effect args s ≢ none
  unfolding fetch_effect has_own
  fetch_effect-returns s args reached =
      fetch_for-returns (truthy args.id) (truthy args.sample_interval) s
        (IsKept-Reaches initial s reached (λ k h. absurd (cc h)))
