-- ===== src/Settings.antt =====
-- `MetricsView` of frontend/components/settings/MetricsView.tsx and `useGetConfig` of
-- frontend/pages/settings.tsx. The page and the view each hold a configuration, and a copy of one
-- shares its arrays and metrics; so they stand in a heap. `F` is the type of a metric's floating-point
-- fields.
pub mod Steps
pub mod Replay
pub mod Loading
pub mod Editing
pub mod Listing
pub mod Refining
mod Tests
use job_mon.Base.{
  set_at, without_at, Bool, List, Option, String, ℕ, [], ◌∷◌, ◌++◌, ◌+◌, ◌&&◌, ◌==◌, eqb, false,
  filter, if◌then◌else◌, length, map, none, not, some, suc, true, zero, any,
}
use job_mon.Job.{AggFn, MetricConfig}
use job_mon.Metrics.{categories, is_in}
use job_mon.Partitions.{Partitions}

-- `Configuration`, as it is sent and received.
pub record Values (F : Type 0) : Type 0 where
  pub metrics : List (MetricConfig F)
  pub metric_categories : List String
  pub partitions : Partitions

-- What stands at an address: an array of categories, an array of metrics, or a metric.
pub record Heap (F : Type 0) : Type 0 where
  pub next : ℕ
  pub names : ℕ → List String
  pub places : ℕ → List ℕ
  pub metric : ℕ → MetricConfig F

-- `Configuration`, as an object with its addresses.
pub record Config : Type 0 where
  pub metrics : ℕ
  pub metric_categories : ℕ
  pub partitions : Partitions

abbrev pub update : {A : Type 0} → (ℕ → A) → ℕ → A → ℕ → A
update f p v q = if eqb p q then v else f q

module _ {F : Type 0} where
  -- The values that a configuration stands for, which `JSON.stringify` sends.
  abbrev pub read : Heap F → Config → Values F
  read h c = record {
    metrics = map h.metric (h.places c.metrics);
    metric_categories = h.names c.metric_categories;
    partitions = c.partitions;
  }

  abbrev pub set_names : ℕ → List String → Heap F → Heap F
  set_names a cs h = record {
    next = h.next;
    names = update h.names a cs;
    places = h.places;
    metric = h.metric;
  }

  abbrev pub set_places : ℕ → List ℕ → Heap F → Heap F
  set_places a ms h = record {
    next = h.next;
    names = h.names;
    places = update h.places a ms;
    metric = h.metric;
  }

  abbrev pub set_metric : ℕ → MetricConfig F → Heap F → Heap F
  set_metric a m h = record {
    next = h.next;
    names = h.names;
    places = h.places;
    metric = update h.metric a m;
  }

  -- A new address, which is the old `next`.
  abbrev pub allocated : Heap F → Heap F
  allocated h = record { next = suc h.next; names = h.names; places = h.places; metric = h.metric }

  -- `addCategory`, which pushes on the array of the configuration that was copied.
  unfoldable pub add_category : String → Config → Heap F → Heap F × Config
  add_category c l h = (set_names l.metric_categories (h.names l.metric_categories ++ c ∷ []) h, l)

  -- `removeCategory`, which gives the copy a new array.
  unfoldable pub remove_category : String → Config → Heap F → Heap F × Config
  remove_category c l h = (
    allocated (set_names h.next (filter (λ d. not (d == c)) (h.names l.metric_categories)) h),
    record l { metric_categories = h.next },
  )

  abbrev pub without_category : String → MetricConfig F → MetricConfig F
  without_category c m = record m { categories = filter (λ d. not (d == c)) m.categories }

  -- `removeCategoryFromMetric`: a metric is found by its address, and it is changed where it stands.
  unfoldable pub remove_category_from_metric : ℕ → String → Config → Heap F → Heap F × Config
  remove_category_from_metric a c l h =
      if any (λ b. eqb b a) (h.places l.metrics)
      then (set_metric a (without_category c (h.metric a)) h, l)
      else (h, l)

  -- `setMetricConfig` of the metric at the place `i`.
  unfoldable pub set_metric_config : ℕ → ℕ → Bool → Config → Heap F → Heap F × Config
  set_metric_config i a del l h =
      if del
      then (
        allocated (set_places h.next (without_at i (h.places l.metrics)) h),
        record l { metrics = h.next },
      )
      else (set_places l.metrics (set_at i a (h.places l.metrics)) h, l)

  abbrev pub has_only : String → MetricConfig F → Bool
  has_only c m = is_in m.categories c && eqb (length m.categories) 1

  -- The first call that the button "Delete" makes.
  abbrev pub delete_first : ℕ → ℕ → String → Config → Heap F → Heap F × Config
  delete_first i a c l h =
      if has_only c (h.metric a)
      then set_metric_config i a true l h
      else remove_category_from_metric a c l h

  -- The button "Delete" of the metric at the place `i`. Both calls see the configuration `l` of the
  -- rendering, and of the two that they set the last one stays.
  unfoldable pub delete_metric : ℕ → ℕ → String → Config → Heap F → Heap F × Config
  unfolding set_metric_config remove_category_from_metric
  delete_metric i a c l h =
      let first = delete_first i a c l h in set_metric_config i a false l first.0

  -- `onSubmit` of a metric's form: its values are a new object, whose maxima become numbers.
  abbrev pub submitted : {V : Type 0} → (V → F) → MetricConfig V → MetricConfig F
  submitted number v = record {
    guid = v.guid;
    type = v.type;
    categories = v.categories;
    measurement = v.measurement;
    agg_fn = v.agg_fn;
    available_agg_fns = v.available_agg_fns;
    sample_interval = v.sample_interval;
    unit = v.unit;
    display_name = v.display_name;
    separation_key = v.separation_key;
    max_per_node = number v.max_per_node;
    max_per_type = number v.max_per_type;
    p_thread_agg_fn = v.p_thread_agg_fn;
    filter_func = v.filter_func;
    post_query_op = v.post_query_op;
  }

  abbrev pub stored : MetricConfig F → Heap F → Heap F
  stored m h = allocated (set_metric h.next m h)

  -- A submitted form of the metric at the place `i`.
  unfoldable pub submit_metric : ℕ → MetricConfig F → Config → Heap F → Heap F × Config
  unfolding set_metric_config
  submit_metric i m l h = set_metric_config i h.next false l (stored m h)

  -- `setMetricConfig` of the form for a new metric, which pushes it.
  unfoldable pub push_metric : MetricConfig F → Config → Heap F → Heap F × Config
  push_metric m l h = (set_places l.metrics (h.places l.metrics ++ h.next ∷ []) (stored m h), l)

  -- The metrics that are listed under a category.
  abbrev pub listed : String → Values F → List (MetricConfig F)
  listed c v = filter (λ m. is_in m.categories c) v.metrics

  -- Whether a metric is listed under any category.
  abbrev pub is_listed : Values F → MetricConfig F → Bool
  is_listed v m = any (λ c. is_in m.categories c) v.metric_categories

-- The initial values of the form for a new metric.
abbrev pub new_metric : {F : Type 0} → (ℕ → F) → String → MetricConfig F
new_metric of_ℕ category = record {
  guid = "";
  type = "node";
  categories = category ∷ [];
  measurement = "";
  agg_fn = AggFn.mean;
  available_agg_fns = [];
  sample_interval = "";
  unit = "";
  display_name = "New Metric";
  separation_key = "hostname";
  max_per_node = of_ℕ 0;
  max_per_type = of_ℕ 0;
  p_thread_agg_fn = AggFn.mean;
  filter_func = "";
  post_query_op = "";
}
