-- ===== src/Cache/Aggregation.antt =====
-- The data of single metrics, by aggregation function.
use job_mon.Js.Object.Laws.{get-none, has_own-get, has_own-put, get-put}
use job_mon.Aggregates.{
  ensured, filled, add_aggregate, add_aggregates, AggCache, agg_fn_of, aggregated, or_empty,
  set_metric,
}
use job_mon.Base.{
  ap, false, not, sym, ◌&&◌, ◌∙◌, Bool, List, any, none, true, ◌||◌, ◌∷◌, ◌≢◌, arith, refl, Option,
  Option-cases, String, [], if◌then◌else◌, inl, inr, some, ℕ, ◌==◌, ◌≡◌,
}
use job_mon.Job.{AggFn, MetricData, agg_name}
use job_mon.Js.Object.{has, is_inherited, has_own, Object, get, put}
use job_mon.Js.Text.Decimal.{numeral}
use text.Mathlib.TextPositions.{eq_refl}
use text.Mathlib.TextEquality.{eq_iff}

nothing : (V : Type 0) (k : String) → has_own k (let o : Object V = [] in o) ≡ false
unfolding has_own
nothing V k = refl

module _ {V : Type 0} where
  ensured-get :
      (k j : String) (o : Object (Object V)) → or_empty (get j (ensured k o)) ≡ or_empty (get j o)
  unfolding ensured has
  ensured-get k j o = ground (arith, get-put k j [] o, eq_iff k j, get-none j o)

  ensured-has_own :
      (k j : String) (o : Object (Object V))
      → has_own j (ensured k o) ≡ ((k == j && not (has k o)) || has_own j o)
  unfolding ensured has
  ensured-has_own k j o = ground (arith, has_own-put k j [] o)

agg_name-own : (f : AggFn) → is_inherited (agg_name f) ≡ false
unfolding is_inherited
agg_name-own AggFn.mean = refl
agg_name-own AggFn.sum = refl
agg_name-own AggFn.min = refl
agg_name-own AggFn.max = refl
agg_name-own AggFn.empty = refl

module _ {F P : Type 0} where
  -- The functions of a metric that the cache has for an interval.
  abbrev pub functions_at : String → String → AggCache F P → Object (MetricData F P)
  functions_at interval guid cache = or_empty (get guid (or_empty (get interval cache)))

  some_inj : {a b : AggCache F P} → some a ≡ some b → a ≡ b
  some_inj e = ground arith

  set_metric-functions :
      (interval guid : String) (f : AggFn) (found : MetricData F P) (cache t : AggCache F P)
      → set_metric interval guid f found cache ≡ some t
      → (other : String)
      → functions_at interval other t ≡ (
          if guid == other
          then put (agg_name f) found (functions_at interval guid cache)
          else functions_at interval other cache)
  unfolding set_metric
  set_metric-functions interval guid f found cache t e other =
      elim (Option-cases (get interval cache)) [
        | inl missing ↦ absurd (cc (rw missing at e))
        | inr (interval_data, held) ↦ elim (Option-cases (get guid interval_data)) [
          | inl missing ↦ absurd (cc (rw (held, missing) at e))
          | inr (functions, known) ↦
              let changed = put guid (put (agg_name f) found functions) interval_data in
              let same : put interval changed cache ≡ t = some_inj (rw (held, known) at e) in
              rw (← same) (
                ground (
                  arith,
                  held,
                  known,
                  get-put interval interval changed cache,
                  get-put guid other (put (agg_name f) found functions) interval_data,
                  eq_refl interval,
                ))
        ]
      ]

  -- If storing an answer for a metric and the function selected for it succeeds, the metric is
  -- afterwards shown by this answer, and nothing is requested for it.
  pub aggregated-received :
      (id : Option ℕ) (interval : ℕ) (selection : Object AggFn) (m found : MetricData F P)
      (cache t : AggCache F P)
      → set_metric (numeral interval) m.config.guid (agg_fn_of selection m) found cache ≡ some t
      → aggregated id interval selection (or_empty (get (numeral interval) t)) m ≡ (found, [])
  unfolding aggregated
  aggregated-received id interval selection m found cache t e =
      let f = agg_fn_of selection m in
      let functions = functions_at (numeral interval) m.config.guid cache in
      let now =
        set_metric-functions (numeral interval) m.config.guid f found cache t e m.config.guid in
      let hit : get (agg_name f) (functions_at (numeral interval) m.config.guid t) ≡ some found =
        rw
          (
            now,
            eq_refl m.config.guid,
            get-put (agg_name f) (agg_name f) found functions,
            eq_refl (agg_name f),
          )
          refl in
      rw (aggregated, hit) refl

  -- Whether the cache has a place for the functions of a metric.
  abbrev pub has_place : String → String → AggCache F P → Bool
  has_place interval guid cache = has_own guid (or_empty (get interval cache))

  filled-has_own :
      (guid : String) (f : AggFn) (m : MetricData F P) (o : Object (Object (MetricData F P)))
      (j : String)
      → has_own j (filled guid (agg_name f) m (ensured guid o)) ≡ (guid == j || has_own j o)
  unfolding has
  filled-has_own guid f m o j =
      let ready = ensured guid o in
      ground (
        arith,
        agg_name-own f,
        eq_iff guid j,
        eq_refl guid,
        ensured-has_own guid j o,
        ensured-has_own guid guid o,
        get-none guid ready,
        has_own-put guid j ((agg_name f, m) ∷ []) ready,
        nothing (MetricData F P) (agg_name f),
      )

  add_aggregate-place :
      (interval : String) (m : MetricData F P) (cache : AggCache F P) (guid : String)
      → has_place interval guid (add_aggregate interval m cache)
        ≡ (m.config.guid == guid || has_place interval guid cache)
  unfolding add_aggregate
  add_aggregate-place interval m cache guid =
      let guid' = m.config.guid in
      let at = ensured interval cache in
      let before = or_empty (get interval at) in
      let full = filled guid' (agg_name m.config.agg_fn) m (ensured guid' before) in
      rw (get-put interval interval full at, eq_refl interval)
        (filled-has_own guid' m.config.agg_fn m before guid
          ∙ ap (λ o. guid' == guid || has_own guid o) (ensured-get interval interval cache))

  add_aggregates-place :
      (interval : String) (ms : List (MetricData F P)) (cache : AggCache F P) (guid : String)
      → has_place interval guid (add_aggregates interval ms cache)
        ≡ (any (λ m. m.config.guid == guid) ms || has_place interval guid cache)
  unfolding add_aggregates
  add_aggregates-place interval [] cache guid = refl
  add_aggregates-place interval (m ∷ ms) cache guid = ground (
    arith,
    add_aggregates-place interval ms (add_aggregate interval m cache) guid,
    add_aggregate-place interval m cache guid,
  )

  set_metric-some :
      (interval guid : String) (f : AggFn) (found : MetricData F P) (cache : AggCache F P)
      → has_place interval guid cache ≡ true
      → set_metric interval guid f found cache ≢ none
  unfolding set_metric
  set_metric-some interval guid f found cache h = elim (Option-cases (get interval cache)) [
    | inl missing ↦
        let clash : true ≡ false = sym (rw missing at h) ∙ nothing (Object (MetricData F P)) guid in
        absurd (cc clash)
    | inr (interval_data, held) ↦
        let (functions, known) = has_own-get guid interval_data (rw held at h) in
        λ e. cc (rw (held, known) at e)
  ]

  -- If a metric is among those that an answer for the job brought for an interval, storing an
  -- answer for it under any aggregation function does not throw.
  pub set_metric-returns :
      (interval guid : String) (f : AggFn) (found : MetricData F P) (ms : List (MetricData F P))
      (cache : AggCache F P)
      → any (λ m. m.config.guid == guid) ms ≡ true
      → set_metric interval guid f found (add_aggregates interval ms cache) ≢ none
  set_metric-returns interval guid f found ms cache h =
      set_metric-some interval guid f found (add_aggregates interval ms cache)
        (rw (add_aggregates-place interval ms cache guid, h) refl)
