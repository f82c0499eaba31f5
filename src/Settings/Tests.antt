-- ===== src/Settings/Tests.antt =====
-- Runs of the settings of metrics.
use job_mon.Job.{MetricConfig}
use job_mon.Metrics.{is_in}
use job_mon.Settings.{Heap, Values, add_category, has_only, new_metric, read}
use job_mon.Settings.Editing.{run-shown}
use job_mon.Settings.Listing.{metric_deleted-listed, unsaved-categories}
use job_mon.Settings.Loading.{load-IsSound}
use job_mon.Settings.Refining.{IsSound}
use job_mon.Base.{
  get_elem?, List, String, ℕ, [], ◌∷◌, ◌++◌, ◌≡◌, some, refl, if◌then◌else◌, eqb, arith,
}
use job_mon.Settings.Steps.{
  step, shown, Event, State, load, opened, replay, run, store_all, category_added, category_removed,
  metric_deleted, metric_created, saved,
}

abbrev metric_in : String → List String → MetricConfig ℕ
metric_in name cs = record (new_metric (λ n. n) "") { display_name = name; categories = cs }

abbrev configured : Values ℕ
configured = record {
  metrics = metric_in "a" ("cpu" ∷ []) ∷ metric_in "b" ("cpu" ∷ "gpu" ∷ []) ∷ [];
  metric_categories = "cpu" ∷ "gpu" ∷ [];
  partitions = [];
}

abbrev empty_heap : Heap ℕ
empty_heap = record {
  next = 0;
  names = λ _. [];
  places = λ _. [];
  metric = λ _. new_metric (λ n. n) "";
}

abbrev edits : List (Event ℕ)
edits =
    category_added "net"
    ∷ metric_deleted 1 "cpu"
    ∷ metric_deleted 0 "cpu"
    ∷ metric_created (metric_in "c" ("net" ∷ []))
    ∷ category_removed "cpu"
    ∷ []

opening : State ℕ
opening = opened configured empty_heap

opening-IsSound : IsSound opening.heap opening.l_config
unfolding opening opened
opening-IsSound = load-IsSound configured empty_heap

run-shown_example :
    (shown (run edits (opened configured empty_heap)) ≡ replay edits configured)
    × (let t = step saved (run edits (opened configured empty_heap)) in
        read t.heap t.config ≡ replay edits configured)
run-shown_example = run-shown edits configured empty_heap

-- The only metric of a category is still there after it is deleted.
kept :
    (replay edits configured).metrics
    ≡ metric_in "a" ("cpu" ∷ []) ∷ metric_in "b" ("gpu" ∷ []) ∷ metric_in "c" ("net" ∷ []) ∷ []
kept = refl

metric_deleted-listed_example :
    (n : MetricConfig ℕ) × (get_elem? (shown (step (metric_deleted 0 "cpu") opening)).metrics 0
      ≡ some n)
    × (is_in n.categories "cpu" ≡ has_only "cpu" (metric_in "a" ("cpu" ∷ [])))
unfolding opening opened load store_all
metric_deleted-listed_example =
    metric_deleted-listed 0 "cpu" opening (metric_in "a" ("cpu" ∷ [])) opening-IsSound refl

unsaved-categories_example :
    (let before = read opening.heap opening.config in
      let after = read (step (category_added "net") opening).heap opening.config in
      (after.metrics ≡ before.metrics)
      × (after.partitions ≡ before.partitions)
      × (after.metric_categories ≡ (
          if eqb opening.config.metric_categories opening.l_config.metric_categories
          then before.metric_categories ++ "net" ∷ []
          else before.metric_categories)))
    × (read (step (category_removed "net") opening).heap opening.config
        ≡ read opening.heap opening.config)
unfolding opening opened load store_all
unsaved-categories_example = unsaved-categories "net" opening (omega arith)

appended :
    (read (step (category_added "net") opening).heap opening.config).metric_categories
    ≡ "cpu" ∷ "gpu" ∷ "net" ∷ []
unfolding opening opened load store_all step add_category
appended = refl
