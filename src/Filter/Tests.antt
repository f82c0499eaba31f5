-- ===== src/Filter/Tests.antt =====
-- Runs of the filter.
use job_mon.Base.{List, [], false, none, refl, some, true, ◌∷◌, ◌≡◌}
use job_mon.Filter.{
  Edit, Filter, JobSearchParams, apply_effect, click_apply, edit, edits, initial_filter,
  lower_nodes_edit, nodes_slide, running_edit,
}
use job_mon.Filter.Applying.{apply_effect-edits}

abbrev nothing : JobSearchParams
nothing = record {
  user_id = none;
  user_name = none;
  group_id = none;
  group_name = none;
  is_running = none;
  partition = some "";
  num_nodes = some (some 1, some 192);
  num_tasks = none;
  num_gpus = some (some 0, some 224);
  time = none;
  tags = none;
}

abbrev fresh : Filter
fresh = initial_filter nothing 2_000_000_000_000

abbrev two_edits : List Edit
two_edits = lower_nodes_edit 4 ∷ running_edit "true" ∷ []

apply_effect-edits_example :
    let edited = edits nothing [] two_edits fresh in
    ((apply_effect true edited).1 ≡ none)
    × ((apply_effect true (click_apply edited)).1 ≡ some edited.filter_params)
    × ((apply_effect true (click_apply edited)).0.should_apply ≡ false)
    × ((apply_effect false edited).1 ≡ some edited.filter_params)
unfolding initial_filter
apply_effect-edits_example = apply_effect-edits nothing [] two_edits fresh refl

abbrev slid : Filter
slid = edit nothing [] (nodes_slide 8 192) fresh
