-- ===== src/Settings/Steps.antt =====
-- The events of the settings of metrics, and what they do to the values of the view.
use job_mon.Base.{
  get_elem?, set_at, if◌then◌else◌, List, Option, String, ℕ, [], ◌∷◌, ◌++◌, ◌==◌, filter, not, none,
  some,
}
use job_mon.Job.{MetricConfig}
use job_mon.Settings.{
  Config, Heap, Values, add_category, allocated, delete_metric, has_only, push_metric, read,
  remove_category, set_names, set_places, stored, submit_metric, without_category,
}

-- The configuration of the page (`config`) and that of the view (`lConfig`).
pub record State (F : Type 0) : Type 0 where
  pub heap : Heap F
  pub config : Config
  pub l_config : Config

-- A form submits the values it has, as numbers; `received` is the answer to an update.
pub data Event (F : Type 0) : Type 0 where
  category_added : String → Event F
  category_removed : String → Event F
  metric_submitted : ℕ → MetricConfig F → Event F
  metric_deleted : ℕ → String → Event F
  metric_created : MetricConfig F → Event F
  saved : Event F
  received : Values F → Event F

module _ {F : Type 0} where
  unfoldable pub store_all : List (MetricConfig F) → Heap F → Heap F × List ℕ
  store_all [] h = (h, [])
  store_all (m ∷ ms) h = let rest = store_all ms (stored m h) in (rest.0, h.next ∷ rest.1)

  abbrev placed : Values F → Heap F × List ℕ → Heap F × Config
  placed v (h, places) = (
    allocated (set_places h.next places (set_names h.next v.metric_categories h)),
    record { metrics = h.next; metric_categories = h.next; partitions = v.partitions },
  )

  -- A configuration that the backend sends, all of new objects.
  unfoldable pub load : Values F → Heap F → Heap F × Config
  unfolding store_all
  load v h = placed v (store_all v.metrics h)

  abbrev pub with_local : State F → Heap F × Config → State F
  with_local s (h, l) = record { heap = h; config = s.config; l_config = l }

  abbrev pub with_both : Heap F × Config → State F
  with_both (h, l) = record { heap = h; config = l; l_config = l }

  abbrev pub with_page : State F → Heap F × Config → State F
  with_page s (h, c) = record { heap = h; config = c; l_config = s.l_config }

  abbrev pub delete_at : ℕ → String → State F → Option ℕ → State F
  delete_at i c s none = s
  delete_at i c s (some a) = with_local s (delete_metric i a c s.l_config s.heap)

  unfoldable pub step : Event F → State F → State F
  unfolding add_category remove_category submit_metric delete_metric push_metric load
  step (category_added c) s = with_local s (add_category c s.l_config s.heap)
  step (category_removed c) s = with_local s (remove_category c s.l_config s.heap)
  step (metric_submitted i m) s = with_local s (submit_metric i m s.l_config s.heap)
  step (metric_deleted i c) s = delete_at i c s (get_elem? (s.heap.places s.l_config.metrics) i)
  step (metric_created m) s = with_both (push_metric m s.l_config s.heap)
  step saved s = with_both (s.heap, s.l_config)
  step (received v) s = with_page s (load v s.heap)

  unfoldable pub run : List (Event F) → State F → State F
  unfolding step
  run [] s = s
  run (e ∷ es) s = run es (step e s)

  -- The view as it opens, on the configuration that the page received.
  unfoldable pub opened : Values F → Heap F → State F
  unfolding load
  opened v h = with_both (load v h)

  -- What the view shows.
  abbrev pub shown : State F → Values F
  shown s = read s.heap s.l_config

  -- The same events on values, without a heap.
  abbrev pub delete_value : ℕ → String → Values F → Option (MetricConfig F) → Values F
  delete_value i c v none = v
  delete_value i c v (some m) =
      if has_only c m then v else record v { metrics = set_at i (without_category c m) v.metrics }

  abbrev pub replay_one : Event F → Values F → Values F
  replay_one (category_added c) v = record v { metric_categories = v.metric_categories ++ c ∷ [] }
  replay_one (category_removed c) v = record v {
    metric_categories = filter (λ d. not (d == c)) v.metric_categories;
  }
  replay_one (metric_submitted i m) v = record v { metrics = set_at i m v.metrics }
  replay_one (metric_deleted i c) v = delete_value i c v (get_elem? v.metrics i)
  replay_one (metric_created m) v = record v { metrics = v.metrics ++ m ∷ [] }
  replay_one saved v = v
  replay_one (received w) v = v

  abbrev pub replay : List (Event F) → Values F → Values F
  replay [] v = v
  replay (e ∷ es) v = replay es (replay_one e v)
