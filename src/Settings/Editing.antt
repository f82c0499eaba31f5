-- ===== src/Settings/Editing.antt =====
-- Runs of the settings of metrics.
use job_mon.Settings.{Heap, Values, read}
use job_mon.Settings.Loading.{load-keeps, load-IsSound, read-load}
use job_mon.Settings.Refining.{
  add_category-Refines, delete_metric-Refines, push_metric-Refines, remove_category-Refines,
  submit_metric-Refines, IsSound,
}
use job_mon.Settings.Replay.{get_elem?-map-none, get_elem?-map-some}
use job_mon.Base.{get_elem?, List, [], ◌∷◌, ◌≡◌, ◌∙◌, refl, ap, Option-cases, inl, inr}
use job_mon.Settings.Steps.{
  step, shown, Event, State, opened, replay, replay_one, run, category_added, category_removed,
  metric_submitted, metric_deleted, metric_created, saved, received,
}

module _ {F : Type 0} where
  -- A step that keeps the view's addresses sound and does to its values what the event says.
  abbrev Follows : State F → Values F → Type 0
  Follows s v = IsSound s.heap s.l_config × (shown s ≡ v)

  pub step-Follows :
      (e : Event F) (s : State F)
      → IsSound s.heap s.l_config
      → Follows (step e s) (replay_one e (shown s))
  unfolding step
  step-Follows (category_added c) s h = add_category-Refines c s.l_config s.heap h
  step-Follows (category_removed c) s h = remove_category-Refines c s.l_config s.heap h
  step-Follows (metric_submitted i m) s h = submit_metric-Refines i m s.l_config s.heap h
  step-Follows (metric_created m) s h = push_metric-Refines m s.l_config s.heap h
  step-Follows saved s h = (h, refl)
  step-Follows (received v) s h = load-keeps v s.heap s.l_config h
  step-Follows (metric_deleted i c) s h =
      let ps = s.heap.places s.l_config.metrics in
      elim (Option-cases (get_elem? ps i)) [
        | inl missing ↦
            let gone = get_elem?-map-none s.heap.metric ps i missing in rw (missing, gone) (h, refl)
        | inr (a, found) ↦
            let held = get_elem?-map-some s.heap.metric ps i a found in
            rw (found, held) (delete_metric-Refines i a c s.l_config s.heap found h)
      ]

  run-Follows :
      (es : List (Event F)) (s : State F)
      → IsSound s.heap s.l_config
      → Follows (run es s) (replay es (shown s))
  unfolding run
  run-Follows [] s h = (h, refl)
  run-Follows (e ∷ es) s h =
      let (sound, same) = step-Follows e s h in
      let (still, rest) = run-Follows es (step e s) sound in (still, rest ∙ ap (replay es) same)

  -- For any run of the settings of metrics from a received configuration (edits of categories and
  -- metrics, saves, and answers to updates), the view, whose arrays and metrics are shared with
  -- the page and changed in place, shows what the same events do to the plain values, and after a
  -- save the page holds these values too.
  pub run-shown :
      (es : List (Event F)) (v : Values F) (h : Heap F)
      → (shown (run es (opened v h)) ≡ replay es v)
        × (let t = step saved (run es (opened v h)) in read t.heap t.config ≡ replay es v)
  unfolding opened step
  run-shown es v h =
      let same =
        (run-Follows es (opened v h) (load-IsSound v h)).1 ∙ ap (replay es) (read-load v h) in
      (same, same)
