-- ===== src/Metrics/Selecting.antt =====
-- The selection of metrics is kept for each partition.
use job_mon.Settings.{listed}
use job_mon.Times.{fresh}
use job_mon.Base.{
  Bool-cases, arith, inl, inr, map, some-map, sym, List, String, ap, if◌then◌else◌, refl, some,
  ◌==◌, ◌∙◌, ◌≡◌,
}
use job_mon.Job.{JobData, MetricData}
use job_mon.Js.Object.{get, has}
use job_mon.Js.Object.Laws.{get-put, has_own-put}
use job_mon.Metrics.{MetricSelection, select_for, selection_effect, set_selection, with_metrics_of}
use text.Mathlib.TextPositions.{eq_refl}

some_inj : {a b : MetricSelection} → some a ≡ some b → a ≡ b
some_inj e = ground arith

module _ {F P : Type 0} where
  select_for-stable :
      (partition : String) (ms : List (MetricData F P)) (s t : MetricSelection)
      → select_for partition ms s ≡ some t
      → select_for partition ms t ≡ some t
  unfolding select_for has
  select_for-stable partition ms s t e = elim (Bool-cases (has partition s.selected_metrics_map)) [
    | inl listed ↦
        let (chosen, held, same) =
          some-map _ (get partition s.selected_metrics_map) t (rw (listed) at e) in
        rw (← same) (rw (listed, held) refl)
    | inr fresh ↦
        let same = some_inj (rw (fresh) at e) in
        let names = map (λ m. m.config.measurement) ms in
        rw (← same) (
          rw
            (
              has_own-put partition partition names s.selected_metrics_map,
              get-put partition partition names s.selected_metrics_map,
              eq_refl partition,
            )
            refl)
  ]

module _ {F P Q : Type 0} where
  -- For a job with metrics, the metrics that are selected are shown by the effect that follows,
  -- and only the selection of the partition of the job changes.
  pub set_selection-shown :
      (found : JobData F P Q) (ms : List (MetricData F P)) (val : List String) (s : MetricSelection)
      → found.metric_data ≡ some ms
      → let changed = set_selection (some found) val s in
        (selection_effect (some found) changed
          ≡ some (record {
            selected_metrics_map = changed.selected_metrics_map;
            selected_metrics = val;
          }))
        × ((partition : String)
            → get partition changed.selected_metrics_map ≡ (
                if found.metadata.partition == partition
                then some val
                else get partition s.selected_metrics_map))
  unfolding selection_effect set_selection select_for has
  set_selection-shown found ms val s given =
      let here = found.metadata.partition in
      let stored = get-put here here val s.selected_metrics_map in
      let there = has_own-put here here val s.selected_metrics_map in
      let changed = set_selection (some found) val s in
      (
        ap (λ o. with_metrics_of o here changed) given ∙ rw (there, stored, eq_refl here) refl,
        λ partition. get-put here partition val s.selected_metrics_map,
      )

  -- For a job with metrics, if the effect on the selection succeeds, running it again changes
  -- nothing.
  pub selection_effect-stable :
      (found : JobData F P Q) (ms : List (MetricData F P)) (s t : MetricSelection)
      → found.metric_data ≡ some ms
      → selection_effect (some found) s ≡ some t
      → selection_effect (some found) t ≡ some t
  unfolding selection_effect select_for
  selection_effect-stable found ms s t given e =
      let here = found.metadata.partition in
      let before = ap (λ o. with_metrics_of o here s) (sym given) ∙ e in
      ap (λ o. with_metrics_of o here t) given ∙ select_for-stable here ms s t before
