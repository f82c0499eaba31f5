-- ===== src/JobsPage/Whole.antt =====
-- What the page of jobs shows of an answer, over all its renderings.
use mathlib.Core.List.Perm
use mathlib.Core.List.{reverse_perm}
use mathlib.Core.Path.{subst}
use job_mon.Base.{
  Bool, Bool-cases, List, Perm, [], false, inl, inr, length, refl, some, suc, sym, zero, ℕ, ◌<◌,
  ◌∙◌, ◌∷◌, ◌≡◌,
}
use job_mon.Base.Int.{pos, ℤ}
use job_mon.Base.Sums.{length-perm}
use job_mon.Job.{JobMetadata}
use job_mon.JobList.{drawn, job_list}
use job_mon.JobOrder.{SortBy, by_key, by_length, is_joblength, ordered}
use job_mon.JobOrder.Keys.{ordered-perm}
use job_mon.JobsPage.{
  jobs_of, Board, Display, all_pages, drawing, drawn_jobs, left_over, rendered, renderings,
}
use job_mon.Js.Array.{sort}
use job_mon.Js.Array.Laws.{sort-perm}
use job_mon.Paging.{ceil, divide, page_slice}
use job_mon.Paging.Slices.{pages-partition, pages_from}

module _ {F : Type 0} where
  left_over-perm :
      (sort_by : SortBy) (descending : Bool) (jobs : List (JobMetadata F))
      → Perm (left_over sort_by descending jobs) jobs
  unfolding left_over
  left_over-perm sort_by descending jobs = elim (Bool-cases (is_joblength sort_by)) [
    | inl by_joblength ↦ rw by_joblength (sort-perm by_length jobs)
    | inr by_column ↦ rw by_column (elim (Bool-cases descending) [
      | inl down ↦ rw down (sort-perm (by_key sort_by) jobs)
      | inr up ↦
          rw up (
            Perm.trans (reverse_perm (sort (by_key sort_by) jobs))
              (sort-perm (by_key sort_by) jobs))
    ])
  ]

  -- The board holds the jobs of an answer, in some order.
  abbrev pub Holds : List (JobMetadata F) → Board F → Type 0
  Holds answer b =
      (jobs : List (JobMetadata F)) × (b.jobs ≡ some jobs)
      × (b.page_is_loading ≡ false)
      × Perm jobs answer

  pub Holds-rendered :
      (answer : List (JobMetadata F)) (d : Display) (b : Board F)
      → Holds answer b
      → Holds answer (rendered d b)
  unfolding rendered
  Holds-rendered answer d b (jobs, held, ready, p) = (
    left_over d.sort_by d.descending jobs,
    rw (held, ready) refl,
    rw (held, ready) refl,
    Perm.trans (left_over-perm d.sort_by d.descending jobs) p,
  )

  pub Holds-renderings :
      (answer : List (JobMetadata F)) (ds : List Display) (b : Board F)
      → Holds answer b
      → Holds answer (renderings ds b)
  unfolding renderings
  Holds-renderings answer [] b h = h
  Holds-renderings answer (d ∷ ds) b h =
      Holds-renderings answer ds (rendered d b) (Holds-rendered answer d b h)

  jobs_of-drawn :
      (compact_view : Bool) (limit : ℕ) (page : ℤ) (jobs : List (JobMetadata F))
      → jobs_of (job_list compact_view limit page jobs) ≡ page_slice limit page jobs
  unfolding job_list
  jobs_of-drawn compact_view limit page jobs = of (page_slice limit page jobs)
    where
      of : (xs : List (JobMetadata F)) → jobs_of (drawn compact_view xs) ≡ xs
      of [] = refl
      of (x ∷ xs) = elim (Bool-cases compact_view) [ inl c ↦ rw c refl | inr c ↦ rw c refl ]

  pub drawn_jobs-held :
      (d : Display) (b : Board F) (jobs : List (JobMetadata F))
      → b.jobs ≡ some jobs
      → b.page_is_loading ≡ false
      → drawn_jobs (drawing d b)
        ≡ page_slice d.joblist_limit b.page (ordered d.sort_by d.descending jobs)
  unfolding drawing drawn_jobs
  drawn_jobs-held d b jobs held ready =
      rw (held, ready)
        (jobs_of-drawn d.compact_view d.joblist_limit b.page (ordered d.sort_by d.descending jobs))

  all_pages-slices :
      (d : Display) (b : Board F) (jobs : List (JobMetadata F)) (k m : ℕ)
      → b.jobs ≡ some jobs
      → b.page_is_loading ≡ false
      → all_pages d b k m ≡ pages_from d.joblist_limit k m (ordered d.sort_by d.descending jobs)
  unfolding all_pages
  all_pages-slices d b jobs k zero held ready = refl
  all_pages-slices d b jobs k (suc m) held ready =
      let rest = all_pages-slices d b jobs (suc k) m held ready in
      let first = drawn_jobs-held d (record b { page = pos (suc k) }) jobs held ready in cc

  -- After any renderings with any settings, each of which sorts the array of the answer in place,
  -- the pages that are drawn for a positive limit, from the first to the last, show together
  -- every job of the answer as often as the answer has it.
  pub all_pages-perm :
      (answer : List (JobMetadata F)) (ds : List Display) (d : Display) (page : ℤ)
      → 0 < d.joblist_limit
      → (let b =
            renderings ds (record { jobs = some answer; page = page; page_is_loading = false }) in
          Perm (all_pages d b 0 (ceil (divide (length answer) d.joblist_limit))) answer)
  all_pages-perm answer ds d page h =
      let (jobs, held, ready, p) =
        Holds-renderings answer ds
          (record { jobs = some answer; page = page; page_is_loading = false })
          (answer, refl, refl, Perm.refl answer) in
      let listed = ordered d.sort_by d.descending jobs in
      let q : Perm listed answer = Perm.trans (ordered-perm d.sort_by d.descending jobs) p in
      let b = renderings ds (record { jobs = some answer; page = page; page_is_loading = false }) in
      let count : length answer ≡ length listed = sym (length-perm q) in
      let whole = pages-partition d.joblist_limit listed h in
      let slices =
        all_pages-slices d b jobs 0 (ceil (divide (length answer) d.joblist_limit)) held ready in
      subst (λ xs. Perm xs answer) (sym (slices ∙ (rw (count) whole))) q
