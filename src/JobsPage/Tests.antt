-- ===== src/JobsPage/Tests.antt =====
-- Runs of the page of jobs.
use job_mon.Js.Array.{slice}
use job_mon.Job.Sample.{job}
use job_mon.Base.{
  List, Perm, [], arith, false, length, map, refl, some, true, ℕ, ◌<◌, ◌∷◌, ◌≡◌, ◌≤◌,
}
use job_mon.Base.Int.{◌*ℤ◌, ◌+ℤ◌, ◌-ℤ◌, pos}
use job_mon.Job.{JobMetadata}
use job_mon.JobOrder.{id, joblength}
use job_mon.JobsPage.{Board, Display, all_pages, drawing, drawn_jobs, rendered, renderings}
use job_mon.JobsPage.Settled.{drawing-settles}
use job_mon.JobsPage.Whole.{all_pages-perm}
use job_mon.Paging.{ceil, divide}

abbrev jobs : List (JobMetadata Unit)
jobs = job 1 false 10 20 ∷ job 2 true 9 0 ∷ job 3 false 5 40 ∷ []

abbrev by_length_two : Display
by_length_two = record {
  joblist_limit = 2;
  sort_by = joblength;
  descending = true;
  compact_view = false;
}

abbrev by_id : Display
by_id = record { joblist_limit = 25; sort_by = id; descending = false; compact_view = true }

abbrev stored : Board Unit
stored = record { jobs = some jobs; page = pos 9; page_is_loading = false }

abbrev ids : List (JobMetadata Unit) → List ℕ
ids js = map (λ j. j.id) js

-- Page 9 is drawn empty and becomes page 2, the last one.
settled :
    (ids (drawn_jobs (drawing by_length_two stored)) ≡ [])
    × ((rendered by_length_two stored).page ≡ pos 2)
    × (ids (drawn_jobs (drawing by_length_two (rendered by_length_two stored))) ≡ 2 ∷ [])
unfolding drawing rendered drawn_jobs slice ◌+ℤ◌ ◌*ℤ◌ ◌-ℤ◌
settled = (refl, refl, refl)

all_pages-perm_example :
    Perm
      (all_pages by_length_two
        (renderings (by_id ∷ by_length_two ∷ []) stored)
        0
        (ceil (divide 3 2)))
      jobs
all_pages-perm_example =
    all_pages-perm jobs (by_id ∷ by_length_two ∷ []) by_length_two (pos 9) (omega arith)

drawing-settles_example :
    (let b = rendered by_length_two (rendered by_length_two (renderings (by_id ∷ []) stored)) in
      let shown = drawn_jobs (drawing by_length_two b) in
      ((rendered by_length_two b).page ≡ b.page)
      × (length jobs ≡ 0 → shown ≡ [])
      × (0 < length jobs → 0 < length shown)
      × (length shown ≤ 2))
drawing-settles_example = drawing-settles jobs (by_id ∷ []) by_length_two (pos 9) (omega arith)
