-- ===== src/JobsPage/Settled.antt =====
-- The page of jobs after two renderings with the same settings, whatever page was stored.
use job_mon.Base.{
  ap, List, Perm, [], arith, false, inl, inr, length, refl, some, suc, sym, zero, ℕ, ◌<◌, ◌∙◌, ◌≡◌,
  ◌≤◌, ◌⊎◌,
}
use job_mon.Base.Int.{negsuc, pos, ℤ, ◌≤ℤ◌}
use job_mon.Base.Sums.{length-perm}
use job_mon.Job.{JobMetadata}
use job_mon.JobOrder.{ordered}
use job_mon.JobOrder.Keys.{ordered-perm}
use job_mon.JobsPage.{Board, Display, drawing, drawn_jobs, rendered, renderings}
use job_mon.JobsPage.Whole.{Holds, Holds-rendered, Holds-renderings, drawn_jobs-held}
use job_mon.Paging.{adjust, ceil, divide}
use job_mon.Paging.Settling.{adjust_settles}
use job_mon.Paging.Slices.{page_slice-zero, page_slice_bounds}
use mathlib.Core.List.Perm

page_of : (p : ℤ) (m : ℕ) → pos 1 ≤ℤ p → p ≤ℤ pos m → (k : ℕ) × (p ≡ pos (suc k)) × (k < m)
page_of (pos (suc k)) m h e = (k, refl, omega (arith, h, e))
page_of (pos zero) m h e = absurd (omega (arith, h))
page_of (negsuc n) m h e = absurd (omega (arith, h))

none_or_some : (m : ℕ) → (m ≡ 0) ⊎ (0 < m)
none_or_some zero = inl refl
none_or_some (suc m) = inr (omega arith)

module _ {F : Type 0} where
  page-rendered :
      (answer : List (JobMetadata F)) (d : Display) (b : Board F)
      → Holds answer b
      → (rendered d b).page ≡ adjust (divide (length answer) d.joblist_limit) b.page
  unfolding rendered
  page-rendered answer d b (jobs, held, ready, p) =
      let q : Perm (ordered d.sort_by d.descending jobs) answer =
        Perm.trans (ordered-perm d.sort_by d.descending jobs) p in
      rw (held, ready, length-perm q) refl

  drawn-page :
      (answer : List (JobMetadata F)) (d : Display) (b : Board F)
      → 0 < d.joblist_limit
      → Holds answer b
      → (length answer ≡ 0 → b.page ≡ pos 0)
      → (0 < length answer
          → (pos 1 ≤ℤ b.page) × (b.page ≤ℤ pos (ceil (divide (length answer) d.joblist_limit))))
      → (length answer ≡ 0 → drawn_jobs (drawing d b) ≡ [])
        × (0 < length answer → 0 < length (drawn_jobs (drawing d b)))
        × (length (drawn_jobs (drawing d b)) ≤ d.joblist_limit)
  drawn-page answer d b h (jobs, held, ready, p) first valid =
      let listed = ordered d.sort_by d.descending jobs in
      let same : length listed ≡ length answer =
        length-perm (Perm.trans (ordered-perm d.sort_by d.descending jobs) p) in
      let shown = drawn_jobs-held d b jobs held ready in
      let nothing : length answer ≡ 0 → drawn_jobs (drawing d b) ≡ [] =
        λ e. shown ∙ rw (first e) (page_slice-zero d.joblist_limit listed h) in
      let full : 0 < length answer
          → (0 < length (drawn_jobs (drawing d b)))
            × (length (drawn_jobs (drawing d b)) ≤ d.joblist_limit) =
        λ e.
          let (low, high) = valid e in
          let (k, at, inside) =
            page_of b.page (ceil (divide (length answer) d.joblist_limit)) low high in
          rw (shown, at) (page_slice_bounds d.joblist_limit k listed h (rw same inside)) in
      (
        nothing,
        λ e. (full e).0,
        elim (none_or_some (length answer)) [
          | inl e ↦ rw (nothing e) (omega arith)
          | inr e ↦ (full e).1
        ],
      )

  -- With a positive limit the page of jobs settles: after any renderings with any settings, from
  -- any stored page, two renderings with the same settings reach a page that the next one keeps.
  -- It then draws no job if the answer has none, at least one if it has some, and never more than
  -- the limit.
  pub drawing-settles :
      (answer : List (JobMetadata F)) (ds : List Display) (d : Display) (page : ℤ)
      → 0 < d.joblist_limit
      → (let start : Board F = record {
        jobs = some answer;
        page = page;
        page_is_loading = false;
      } in
          let b = rendered d (rendered d (renderings ds start)) in
          let shown = drawn_jobs (drawing d b) in
          ((rendered d b).page ≡ b.page)
          × (length answer ≡ 0 → shown ≡ [])
          × (0 < length answer → 0 < length shown)
          × (length shown ≤ d.joblist_limit))
  drawing-settles answer ds d page h =
      let start : Board F = record { jobs = some answer; page = page; page_is_loading = false } in
      let zeroth = Holds-renderings answer ds start (answer, refl, refl, Perm.refl answer) in
      let once = Holds-rendered answer d (renderings ds start) zeroth in
      let twice = Holds-rendered answer d (rendered d (renderings ds start)) once in
      let (kept, first, valid) =
        adjust_settles (length answer) d.joblist_limit h (renderings ds start).page in
      let at_once = page-rendered answer d (renderings ds start) zeroth in
      let at_twice = page-rendered answer d (rendered d (renderings ds start)) once in
      let at_thrice =
        page-rendered answer d (rendered d (rendered d (renderings ds start))) twice in
      let pages = divide (length answer) d.joblist_limit in
      let now = at_twice ∙ ap (adjust pages) at_once in
      let later = at_thrice ∙ ap (adjust pages) now in
      let (nothing, full, few) =
        drawn-page answer d (rendered d (rendered d (renderings ds start))) h twice
          (λ e. now ∙ first e) (λ e. let (low, high) = valid e in (rw now low, rw now high)) in
      (later ∙ kept ∙ sym now, nothing, full, few)
