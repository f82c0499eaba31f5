-- ===== src/Settings/Refining.antt =====
-- The events on the heap do to the values of the view what they do without one.
use job_mon.Job.{MetricConfig}
use job_mon.Settings.{
  set_metric, without_category, Config, Heap, Values, add_category, delete_metric, has_only,
  push_metric, read, remove_category, remove_category_from_metric, set_metric_config, submit_metric,
  update,
}
use job_mon.Settings.Replay.{
  map-update-at, IsBelow, IsBelow-set_at, IsBelow-suc, IsDistinct, IsDistinct-append,
  IsDistinct-set_at, holds-IsBelow, holds-get_elem?, map-set_at, map-update, set_at-same,
}
use job_mon.Settings.Steps.{
  category_added, category_removed, delete_value, metric_created, metric_submitted, replay_one,
}
use job_mon.Base.{
  map-append, get_elem?, set_at, All-append, String, eqb_iff, sym, List, ℕ, [], ◌∷◌, ◌++◌, ◌<◌, ◌≡◌,
  ◌∙◌, arith, false, true, some, refl, ap, map, suc, inl, inr, Bool-cases,
}
use mathlib.Core.Path.{subst}

pub here : {A : Type 0} (f : ℕ → A) (p : ℕ) (v : A) → update f p v p ≡ v
here f p v = ground (arith, eqb_iff p p)

pub elsewhere : {A : Type 0} (f : ℕ → A) (p q : ℕ) (v : A) → q < p → update f p v q ≡ f q
elsewhere f p q v h = ground (arith)

-- The addresses in an array of metrics are allocated, and none stands in it twice.
abbrev pub IsArray : ℕ → List ℕ → Type 0
IsArray next ps = IsBelow next ps × IsDistinct ps

module _ {F : Type 0} where
  -- So are the addresses of a configuration.
  abbrev pub IsSound : Heap F → Config → Type 0
  IsSound h l =
      IsArray h.next (h.places l.metrics) × (l.metrics < h.next) × (l.metric_categories < h.next)

  -- An operation that keeps the addresses sound, and what it makes of the values.
  abbrev pub Refines : Heap F → Config → Values F → Heap F × Config → Type 0
  Refines h l v (k, m) = IsSound k m × (read k m ≡ v)

  abbrev pub with_metrics : Values F → List (MetricConfig F) → Values F
  with_metrics v ms = record v { metrics = ms }

  abbrev pub replaced : ℕ → String → Values F → MetricConfig F → Values F
  replaced i c v m = with_metrics v (set_at i (without_category c m) v.metrics)

  pub add_category-Refines :
      (c : String) (l : Config) (h : Heap F)
      → IsSound h l
      → Refines h l (replay_one (category_added c) (read h l)) (add_category c l h)
  unfolding add_category
  add_category-Refines c l h s = (
    s,
    ap (λ cs. record (read h l) { metric_categories = cs }) (here h.names l.metric_categories _),
  )

  pub remove_category-Refines :
      (c : String) (l : Config) (h : Heap F)
      → IsSound h l
      → Refines h l (replay_one (category_removed c) (read h l)) (remove_category c l h)
  unfolding remove_category
  remove_category-Refines c l h (array, below, named) = (
    ((IsBelow-suc h.next _ array.0, array.1), omega arith, omega arith),
    ap (λ cs. record (read h l) { metric_categories = cs }) (here h.names h.next _),
  )

  pub submit_metric-Refines :
      (i : ℕ) (m : MetricConfig F) (l : Config) (h : Heap F)
      → IsSound h l
      → Refines h l (replay_one (metric_submitted i m) (read h l)) (submit_metric i m l h)
  unfolding submit_metric set_metric_config
  submit_metric-Refines i m l h (array, below, named) =
      let ps = h.places l.metrics in
      let same = here h.places l.metrics (set_at i h.next ps) in
      let fresh = holds-IsBelow h.next ps array.0 in
      (
        (
          subst (IsArray (suc h.next)) (sym same) (
            IsBelow-set_at (suc h.next) i h.next ps (omega arith) (IsBelow-suc h.next ps array.0),
            IsDistinct-set_at i h.next ps array.0 array.1,
          ),
          omega arith,
          omega arith,
        ),
        ap (with_metrics (read h l)) (
            ap (map (update h.metric h.next m)) same
            ∙ map-set_at (update h.metric h.next m) i h.next ps
            ∙ ap (λ x. set_at i x (map (update h.metric h.next m) ps)) (here h.metric h.next m)
            ∙ ap (set_at i m) (map-update h.metric h.next m ps fresh)),
      )

  pub push_metric-Refines :
      (m : MetricConfig F) (l : Config) (h : Heap F)
      → IsSound h l
      → Refines h l (replay_one (metric_created m) (read h l)) (push_metric m l h)
  unfolding push_metric
  push_metric-Refines m l h (array, below, named) =
      let ps = h.places l.metrics in
      let same = here h.places l.metrics (ps ++ h.next ∷ []) in
      let fresh = holds-IsBelow h.next ps array.0 in
      (
        (
          subst (IsArray (suc h.next)) (sym same) (
            All-append (λ b. b < suc h.next) ps (h.next ∷ []) (IsBelow-suc h.next ps array.0)
                (omega arith, tt),
            IsDistinct-append h.next ps array.0 array.1,
          ),
          omega arith,
          omega arith,
        ),
        ap (with_metrics (read h l)) (
            ap (map (update h.metric h.next m)) same
            ∙ map-append (update h.metric h.next m) ps (h.next ∷ [])
            ∙ ap (λ x. map (update h.metric h.next m) ps ++ x ∷ []) (here h.metric h.next m)
            ∙ ap (λ ms. ms ++ m ∷ []) (map-update h.metric h.next m ps fresh)),
      )

  -- The second call of the button writes the metric at its place again.
  rewrites :
      (i a : ℕ) (ps : List ℕ) (l : Config) (k : Heap F)
      → k.places l.metrics ≡ ps
      → get_elem? ps i ≡ some a
      → (set_metric_config i a false l k).0.places l.metrics ≡ ps
  unfolding set_metric_config
  rewrites i a ps l k e at_i =
      here k.places l.metrics (set_at i a (k.places l.metrics))
      ∙ ap (set_at i a) e
      ∙ set_at-same i a ps at_i

  deletes_only :
      (i a : ℕ) (l : Config) (h : Heap F)
      → get_elem? (h.places l.metrics) i ≡ some a
      → IsSound h l
      → Refines h l (read h l) (set_metric_config i a false l (set_metric_config i a true l h).0)
  unfolding set_metric_config
  deletes_only i a l h e (array, below, named) =
      let ps = h.places l.metrics in
      let k = (set_metric_config i a true l h).0 in
      let same = rewrites i a ps l k (elsewhere h.places h.next l.metrics _ below) e in
      (
        (
          subst (IsArray (suc h.next)) (sym same) (IsBelow-suc h.next ps array.0, array.1),
          omega arith,
          omega arith,
        ),
        ap (λ qs. with_metrics (read h l) (map h.metric qs)) same,
      )

  deletes_category :
      (i a : ℕ) (c : String) (l : Config) (h : Heap F)
      → get_elem? (h.places l.metrics) i ≡ some a
      → IsSound h l
      → Refines h l
          (replaced i c (read h l) (h.metric a))
          (set_metric_config i a false l (set_metric a (without_category c (h.metric a)) h))
  unfolding set_metric_config
  deletes_category i a c l h e (array, below, named) =
      let ps = h.places l.metrics in
      let m = without_category c (h.metric a) in
      let same = rewrites i a ps l (set_metric a m h) refl e in
      (
        (subst (IsArray h.next) (sym same) array, below, named),
        ap (λ qs. with_metrics (read h l) (map (update h.metric a m) qs)) same
            ∙ ap (with_metrics (read h l)) (map-update-at h.metric i a m ps array.1 e),
      )

  -- Both calls of the button leave the array of metrics as it is.
  pub delete_metric-Refines :
      (i a : ℕ) (c : String) (l : Config) (h : Heap F)
      → get_elem? (h.places l.metrics) i ≡ some a
      → IsSound h l
      → Refines h l (delete_value i c (read h l) (some (h.metric a))) (delete_metric i a c l h)
  unfolding delete_metric remove_category_from_metric
  delete_metric-Refines i a c l h e s =
      let found = holds-get_elem? i a (h.places l.metrics) e in
      elim (Bool-cases (has_only c (h.metric a))) [
        | inl only ↦ rw (only) (deletes_only i a l h e s)
        | inr more ↦ rw (more, found) (deletes_category i a c l h e s)
      ]
