-- ===== src/JobOrder/Tests.antt =====
-- Runs of the order of the job list.
use job_mon.Base.{List, [], false, map, refl, true, ◌∷◌, ◌≡◌}
use job_mon.Job.{JobMetadata}
use job_mon.Job.Sample.{job}
use job_mon.JobOrder.{joblength, ordered, start_time}
use job_mon.JobOrder.Keys.{Falls, ordered-keys}
use job_mon.JobOrder.Length.{Earlier, Listed, Longer, ordered-lengths}
use job_mon.Js.Array.Laws.{IsSorted}
use job_mon.Js.Array.Order.{Flipped}

abbrev jobs : List (JobMetadata Unit)
jobs =
    job 1 false 10 20 ∷ job 2 true 9 0 ∷ job 3 false 5 40 ∷ job 4 true 7 0 ∷ job 5 false 8 28 ∷ []

by_length_down : map (λ j. j.id) (ordered joblength true jobs) ≡ 3 ∷ 5 ∷ 1 ∷ 4 ∷ 2 ∷ []
unfolding ordered
by_length_down = refl

by_length_up : map (λ j. j.id) (ordered joblength false jobs) ≡ 1 ∷ 5 ∷ 3 ∷ 2 ∷ 4 ∷ []
unfolding ordered
by_length_up = refl

ordered-keys_example :
    IsSorted (Falls start_time) (ordered start_time true jobs)
    × IsSorted (Flipped (Falls start_time)) (ordered start_time false jobs)
ordered-keys_example = ordered-keys start_time jobs refl

ordered-lengths_example :
    IsSorted (Listed Longer Earlier) (ordered joblength true jobs)
    × IsSorted (Listed (Flipped Longer) (Flipped Earlier)) (ordered joblength false jobs)
ordered-lengths_example = ordered-lengths jobs
