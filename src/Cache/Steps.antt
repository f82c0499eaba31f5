-- ===== src/Cache/Steps.antt =====
-- The runs of the hook: effects and answers in any order, with any arguments.
use job_mon.Aggregates.{set_metric, Request}
use job_mon.Base.{
  is_some, some-map, sym, Bool, Option, false, none, refl, List, String, ap, arith, some, true, ℕ,
  ◌≡◌,
}
use job_mon.Cache.{
  with_aggregates, aggregate_for, cached_node, fetch_for, from_cache, node_for, node_from, populate,
  truthy, truthy_text, Args, State, aggregate_data, aggregate_effect, fetch_effect, keep_first,
  node_effect, populate_job_cache, receive_metric, receive_node,
}
use job_mon.Job.{AggFn, JobData, MetricData}
use job_mon.Js.Object.{Object, has_own}
use job_mon.Js.Object.Laws.{has_own-put}
use job_mon.Js.Text.Decimal.{numeral}

module _ {F P Q : Type 0} where
  pub data Step : State F P Q → State F P Q → Type 0 where
    job_answer : (found : JobData F P Q) (s : State F P Q) → Step s (populate_job_cache found s)
    node_answer :
        (interval : ℕ) (node : String) (found : JobData F P Q) (s : State F P Q)
        → Step s (receive_node interval node found s)
    metric_answer :
        (interval : ℕ) (guid : String) (f : AggFn) (found : MetricData F P) (s t : State F P Q)
        → receive_metric interval guid f found s ≡ some t
        → Step s t
    fetch :
        (args : Args) (s t : State F P Q) (rs : List Request)
        → fetch_effect args s ≡ some (t, rs)
        → Step s t
    aggregate : (args : Args) (s : State F P Q) → Step s (aggregate_effect args s).0
    show_node : (args : Args) (s : State F P Q) → Step s (node_effect args s).0

  pub data Reaches : State F P Q → State F P Q → Type 0 where
    done : (s : State F P Q) → Reaches s s
    more : (s t u : State F P Q) → Step s t → Reaches t u → Reaches s u

  -- What never shrinks: the metadata and the intervals of the job cache.
  abbrev pub Extends : State F P Q → State F P Q → Type 0
  Extends s t =
      (is_some s.job_cache.metadata ≡ true → is_some t.job_cache.metadata ≡ true)
      × ((k : String)
          → has_own k s.job_cache.intervals ≡ true
          → has_own k t.job_cache.intervals ≡ true)

  -- The job cache is the same.
  Extends-same : (s t : State F P Q) → t.job_cache ≡ s.job_cache → Extends s t
  Extends-same s t e = (λ h. rw (ap (λ c. c.metadata) e) h, λ k h. rw (ap (λ c. c.intervals) e) h)

  -- After an answer the metadata is known.
  pub kept :
      (found : JobData F P Q) (old : Option (JobData F P Q)) → is_some (keep_first old found) ≡ true
  kept found none = refl
  kept found (some old) = refl

  keeps :
      (old : Option (JobData F P Q)) (found : JobData F P Q)
      → is_some old ≡ true
      → is_some (keep_first old found) ≡ true
  keeps none found h = refl
  keeps (some old) found h = refl

  pub metric-cache :
      (interval : ℕ) (guid : String) (f : AggFn) (found : MetricData F P) (s t : State F P Q)
      → receive_metric interval guid f found s ≡ some t
      → t.job_cache ≡ s.job_cache
  unfolding receive_metric
  metric-cache interval guid f found s t e =
      let (cache, _, same) =
        some-map (with_aggregates s) (set_metric (numeral interval) guid f found s.agg_fn_cache) t
          e in
      sym (ap (λ u. u.job_cache) same)

  Extends-populate :
      (ms : Option (List (MetricData F P))) (found : JobData F P Q) (s : State F P Q)
      → Extends s (populate ms found s)
  unfolding populate
  Extends-populate none found s = (keeps s.job_cache.metadata found, λ k h. h)
  Extends-populate (some ms) found s = (
    keeps s.job_cache.metadata found,
    λ k h.
        ground (arith, has_own-put (numeral found.sample_interval) k ms s.job_cache.intervals, h),
  )

  from_cache-cache :
      (id interval : ℕ) (s : State F P Q) (ms : Option (List (MetricData F P)))
      (metadata : Option (JobData F P Q)) (t : State F P Q) (rs : List Request)
      → from_cache id interval s ms metadata ≡ some (t, rs)
      → t.job_cache ≡ s.job_cache
  from_cache-cache id interval s none metadata t rs e = ground arith
  from_cache-cache id interval s (some ms) none t rs e = absurd (cc e)
  from_cache-cache id interval s (some ms) (some metadata) t rs e = ground arith

  pub fetch_for-cache :
      (id interval : Option ℕ) (s t : State F P Q) (rs : List Request)
      → fetch_for id interval s ≡ some (t, rs)
      → t.job_cache ≡ s.job_cache
  fetch_for-cache none interval s t rs e = ground arith
  fetch_for-cache (some id) none s t rs e = ground arith
  fetch_for-cache (some id) (some interval) s t rs e =
      from_cache-cache id interval s _ s.job_cache.metadata t rs e

  aggregate_data-cache :
      (args : Args) (found : JobData F P Q) (s : State F P Q) (selection : Option (Object AggFn))
      (interval : Option ℕ) (ms : Option (List (MetricData F P)))
      → (aggregate_data args found s selection interval ms).0.job_cache ≡ s.job_cache
  unfolding aggregate_data
  aggregate_data-cache args found s none interval ms = refl
  aggregate_data-cache args found s (some selection) none ms = refl
  aggregate_data-cache args found s (some selection) (some interval) none = refl
  aggregate_data-cache args found s (some selection) (some interval) (some ms) = refl

  pub aggregate_for-cache :
      (args : Args) (s : State F P Q) (found : Option (JobData F P Q)) (contains : Bool)
      → (aggregate_for args s found contains).0.job_cache ≡ s.job_cache
  aggregate_for-cache args s none contains = refl
  aggregate_for-cache args s (some found) false = refl
  aggregate_for-cache args s (some found) true =
      aggregate_data-cache args found s args.agg_fn_selection (truthy args.sample_interval)
        found.metric_data

  node_from-cache :
      (id : Option ℕ) (interval : ℕ) (node : String) (s : State F P Q)
      (found : Option (JobData F P Q))
      → (node_from id interval node s found).0.job_cache ≡ s.job_cache
  node_from-cache id interval node s none = refl
  node_from-cache id interval node s (some found) = refl

  pub node_for-cache :
      (id : Option ℕ) (node : Option String) (interval : Option ℕ) (s : State F P Q)
      → (node_for id node interval s).0.job_cache ≡ s.job_cache
  node_for-cache id none interval s = refl
  node_for-cache id (some node) none s = refl
  node_for-cache id (some node) (some interval) s =
      node_from-cache id interval node s (cached_node interval node s)

  Extends-Step : (s t : State F P Q) → Step s t → Extends s t
  unfolding fetch_effect node_effect aggregate_effect populate_job_cache receive_node
  Extends-Step s t (job_answer found _) = Extends-populate found.metric_data found s
  Extends-Step s t (node_answer interval node found _) = Extends-same s t refl
  Extends-Step s t (metric_answer interval guid f found _ _ e) =
      Extends-same s t (metric-cache interval guid f found s t e)
  Extends-Step s t (fetch args _ _ rs e) =
      Extends-same s t (fetch_for-cache (truthy args.id) (truthy args.sample_interval) s t rs e)
  Extends-Step s t (aggregate args _) =
      Extends-same s t (aggregate_for-cache args s s.job_data s.contains_metric_data)
  Extends-Step s t (show_node args _) =
      Extends-same s t
        (node_for-cache args.id (truthy_text args.node) (truthy args.sample_interval) s)

  pub Extends-Reaches : (s t : State F P Q) → Reaches s t → Extends s t
  Extends-Reaches s t (done _) = (λ h. h, λ k h. h)
  Extends-Reaches s t (more _ u _ first rest) =
      let one = Extends-Step s u first in
      let others = Extends-Reaches u t rest in
      (λ h. others.0 (one.0 h), λ k h. others.1 k (one.1 k h))
