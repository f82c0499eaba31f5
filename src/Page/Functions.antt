-- ===== src/Page/Functions.antt =====
-- Every metric has an aggregation function.
use job_mon.Js.Object.{Object, has_own, put}
use job_mon.Js.Object.Laws.{has_own-put}
use job_mon.Page.{choose_function, function_effect, default_functions}
use job_mon.Base.{
  All, List, Option, String, [], ◌∷◌, ◌||◌, ◌≡◌, ◌==◌, ◌∙◌, true, none, some, refl, any, arith,
}
use text.Mathlib.TextPositions.{eq_refl}
use job_mon.Job.{AggFn, JobData, MetricData}

module _ {F P : Type 0} where
  default_functions-has :
      (ms : List (MetricData F P)) (o : Object AggFn) (k : String)
      → has_own k (default_functions ms o) ≡ (any (λ m. m.config.guid == k) ms || has_own k o)
  unfolding default_functions
  default_functions-has [] o k = refl
  default_functions-has (m ∷ ms) o k = ground (
    arith,
    default_functions-has ms (put m.config.guid m.config.agg_fn o) k,
    has_own-put m.config.guid k m.config.agg_fn o,
  )

  -- The metrics whose GUIDs have a function.
  abbrev pub AreChosen : Object AggFn → List (MetricData F P) → Type 0
  AreChosen chosen ms = All (λ m. has_own m.config.guid chosen ≡ true) ms

  first :
      (all : List (MetricData F P)) (k : String)
      → any (λ m. m.config.guid == k) all ≡ true
      → (any (λ m. m.config.guid == k) all || has_own k (let o : Object AggFn = [] in o)) ≡ true
  first all k h = ground (arith, h)

  any-AreChosen :
      (all : List (MetricData F P)) (ms : List (MetricData F P))
      → ((k : String)
          → any (λ m. m.config.guid == k) ms ≡ true
          → any (λ m. m.config.guid == k) all ≡ true)
      → AreChosen (default_functions all []) ms
  any-AreChosen all [] h = tt
  any-AreChosen all (m ∷ ms) h = (
    default_functions-has all [] m.config.guid
        ∙ first all m.config.guid (h m.config.guid (ground (arith, eq_refl m.config.guid))),
    any-AreChosen all ms (λ k e. h k (ground (arith, e))),
  )

  AreChosen-put :
      (guid : String) (f : AggFn) (o : Object AggFn) (ms : List (MetricData F P))
      → AreChosen o ms
      → AreChosen (put guid f o) ms
  AreChosen-put guid f o [] h = tt
  AreChosen-put guid f o (m ∷ ms) h =
      (has_own-put guid m.config.guid f o ∙ ground (arith, h.0), AreChosen-put guid f o ms h.1)

-- The choices of a user, one after the other.
abbrev pub choose_all : List (String × AggFn) → Option (Object AggFn) → Option (Object AggFn)
choose_all [] chosen = chosen
choose_all ((guid, f) ∷ choices) chosen = choose_all choices (choose_function guid f chosen)

module _ {F P : Type 0} where
  choose_all-AreChosen :
      (choices : List (String × AggFn)) (chosen : Object AggFn) (ms : List (MetricData F P))
      → AreChosen chosen ms
      → (after : Object AggFn) × (choose_all choices (some chosen) ≡ some after)
        × AreChosen after ms
  unfolding choose_function
  choose_all-AreChosen [] chosen ms h = (chosen, refl, h)
  choose_all-AreChosen ((guid, f) ∷ choices) chosen ms h =
      choose_all-AreChosen choices (put guid f chosen) ms (AreChosen-put guid f chosen ms h)

module _ {F P Q : Type 0} where
  pub function_effect-AreChosen :
      (found : JobData F P Q) (ms : List (MetricData F P)) (choices : List (String × AggFn))
      → found.metric_data ≡ some ms
      → (after : Object AggFn) × (function_effect
            (some found)
            (choose_all choices (function_effect (some found) none))
          ≡ some after)
        × AreChosen after ms
  unfolding function_effect
  function_effect-AreChosen found ms choices e =
      let (after, chosen, all) =
        choose_all-AreChosen choices (default_functions ms []) ms
          (any-AreChosen ms ms (λ k h. h)) in
      (after, rw (e, chosen) refl, all)
