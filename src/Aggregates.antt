-- ===== src/Aggregates.antt =====
-- The cache of aggregated metrics in frontend/pages/job/[id].tsx: by sample interval, metric and
-- aggregation function.
use job_mon.Base.{◌>>=◌}
use job_mon.Base.{[], List, Option, String, if◌then◌else◌, none, some, ℕ, ◌++◌, ◌∷◌}
use job_mon.Job.{AggFn, MetricData, agg_name}
use job_mon.Js.Object.{Object, get, has, put}

abbrev pub AggCache : Type 0 → Type 0 → Type 0
AggCache F P = Object (Object (Object (MetricData F P)))

pub data Request : Type 0 where
  job : (id : Option ℕ) (sample_interval : Option ℕ) (node : Option String) → Request
  metric : (id : Option ℕ) (sample_interval : ℕ) (guid : String) (agg_fn : AggFn) → Request

abbrev pub or_empty {ℓ} : {V : Type ℓ} → Option (Object V) → Object V
or_empty none = []
or_empty (some o) = o

-- `if (!(key in o)) { o[key] = {}; }`
unfoldable pub ensured {ℓ} : {V : Type ℓ} → String → Object (Object V) → Object (Object V)
unfolding has put
ensured key o = if has key o then o else put key [] o

module _ {F P : Type 0} where
  -- The metric's function is added to those of the metric, unless it is there.
  abbrev pub filled :
      String
      → String
      → MetricData F P
      → Object (Object (MetricData F P))
      → Object (Object (MetricData F P))
  filled guid name m interval_data =
      if has name (or_empty (get guid interval_data))
      then interval_data
      else put guid ((name, m) ∷ []) interval_data

  -- One round of the loop over the metrics in `populateJobCache`.
  unfoldable pub add_aggregate : String → MetricData F P → AggCache F P → AggCache F P
  unfolding ensured has get put
  add_aggregate interval m agg_state =
      let guid = m.config.guid in
      let with_interval = ensured interval agg_state in
      let interval_data = or_empty (get interval with_interval) in
      put interval (filled guid (agg_name m.config.agg_fn) m (ensured guid interval_data))
        with_interval

  unfoldable pub add_aggregates : String → List (MetricData F P) → AggCache F P → AggCache F P
  unfolding add_aggregate
  add_aggregates interval [] agg_state = agg_state
  add_aggregates interval (m ∷ ms) agg_state =
      add_aggregates interval ms (add_aggregate interval m agg_state)

  -- `aggFnSelection.get(guid) ?? m.Config.AggFn`
  unfoldable pub agg_fn_of : Object AggFn → MetricData F P → AggFn
  unfolding get
  agg_fn_of selection m = elim (get m.config.guid selection) [ none ↦ m.config.agg_fn | some f ↦ f ]

  -- The metric data that is shown for one metric, and what is requested for it.
  unfoldable pub aggregated :
      Option ℕ
      → ℕ
      → Object AggFn
      → Object (Object (MetricData F P))
      → MetricData F P
      → MetricData F P × List Request
  unfolding agg_fn_of get
  aggregated id interval selection interval_data m =
      let f = agg_fn_of selection m in
      elim (get (agg_name f) (or_empty (get m.config.guid interval_data))) [
        | none ↦ (m, metric id interval m.config.guid f ∷ [])
        | some cached ↦ (cached, [])
      ]

  unfoldable pub aggregated_all :
      Option ℕ
      → ℕ
      → Object AggFn
      → Object (Object (MetricData F P))
      → List (MetricData F P)
      → List (MetricData F P) × List Request
  unfolding aggregated
  aggregated_all id interval selection interval_data [] = ([], [])
  aggregated_all id interval selection interval_data (m ∷ ms) =
      let one = aggregated id interval selection interval_data m in
      let rest = aggregated_all id interval selection interval_data ms in
      (one.0 ∷ rest.0, one.1 ++ rest.1)

  -- `newCache[sampleInterval][guid][aggFn] = data`; reading a property of `undefined` throws.
  unfoldable pub set_metric :
      String → String → AggFn → MetricData F P → AggCache F P → Option (AggCache F P)
  unfolding get put
  set_metric interval guid f found cache = do
    interval_data ← get interval cache
    functions ← get guid interval_data
    some (put interval (put guid (put (agg_name f) found functions) interval_data) cache)
