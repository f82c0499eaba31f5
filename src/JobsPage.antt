-- ===== src/JobsPage.antt =====
-- The page frontend/pages/jobs.tsx: what one rendering draws and what it leaves behind. `sort` and
-- `reverse` work in place, on the array of the answer, so the next rendering starts from what they left.
pub mod Whole
pub mod Settled
mod Tests
use job_mon.Base.{
  Bool, List, Option, [], if◌then◌else◌, length, none, reverse, some, suc, zero, ℕ, ◌++◌, ◌∷◌,
}
use job_mon.Base.Int.{pos, ℤ}
use job_mon.Job.{JobMetadata}
use job_mon.JobList.{View, compact, job_list, no_jobs, stacked}
use job_mon.JobOrder.{SortBy, by_key, by_length, is_joblength, ordered}
use job_mon.Js.Array.{sort}
use job_mon.Paging.{Quotient, adjust, divide, shown_pages, shows_selection}

-- The settings of the list.
pub record Display : Type 0 where
  pub joblist_limit : ℕ
  pub sort_by : SortBy
  pub descending : Bool
  pub compact_view : Bool

pub record Board (F : Type 0) : Type 0 where
  pub jobs : Option (List (JobMetadata F))
  pub page : ℤ
  pub page_is_loading : Bool

-- What is drawn: the current page and the number of pages for `PageSelection`, if it is drawn, and
-- the list.
pub data Drawing (F : Type 0) : Type 0 where
  spinner : Drawing F
  listing : Option (ℤ × ℕ) → View (JobMetadata F) → Drawing F

abbrev selection : Quotient → ℤ → Option (ℤ × ℕ)
selection pages page = if shows_selection pages then some (page, shown_pages pages) else none

module _ {F : Type 0} where
  -- The array of the answer after a rendering.
  unfoldable pub left_over : SortBy → Bool → List (JobMetadata F) → List (JobMetadata F)
  left_over sort_by descending jobs =
      if is_joblength sort_by
      then sort by_length jobs
      else if descending
      then sort (by_key sort_by) jobs
      else reverse (sort (by_key sort_by) jobs)

  abbrev listing_of : Display → ℤ → List (JobMetadata F) → Drawing F
  listing_of d page mutable_jobs =
      let pages = divide (length mutable_jobs) d.joblist_limit in
      listing (selection pages page) (job_list d.compact_view d.joblist_limit page mutable_jobs)

  abbrev drawing_of : Display → ℤ → Bool → Option (List (JobMetadata F)) → Drawing F
  drawing_of d page pending none = spinner
  drawing_of d page pending (some jobs) =
      if pending then spinner else listing_of d page (ordered d.sort_by d.descending jobs)

  unfoldable pub drawing : Display → Board F → Drawing F
  unfolding job_list ordered divide shown_pages shows_selection
  drawing d b = drawing_of d b.page b.page_is_loading b.jobs

  abbrev board_of : Display → Board F → Bool → Option (List (JobMetadata F)) → Board F
  board_of d b pending none = b
  board_of d b pending (some jobs) = if pending then b else record b {
    jobs = some (left_over d.sort_by d.descending jobs);
    page = adjust (divide (length (ordered d.sort_by d.descending jobs)) d.joblist_limit) b.page;
  }

  -- The array and the page after a rendering.
  unfoldable pub rendered : Display → Board F → Board F
  unfolding left_over ordered adjust divide
  rendered d b = board_of d b b.page_is_loading b.jobs

  unfoldable pub renderings : List Display → Board F → Board F
  unfolding rendered
  renderings [] b = b
  renderings (d ∷ ds) b = renderings ds (rendered d b)

  abbrev jobs_of : View (JobMetadata F) → List (JobMetadata F)
  jobs_of no_jobs = []
  jobs_of (compact jobs) = jobs
  jobs_of (stacked jobs) = jobs

  -- The jobs that a drawing shows.
  unfoldable pub drawn_jobs : Drawing F → List (JobMetadata F)
  drawn_jobs spinner = []
  drawn_jobs (listing selection view) = jobs_of view

  -- The jobs of all pages from the first on, one after the other, as they are drawn for a board.
  unfoldable pub all_pages : Display → Board F → ℕ → ℕ → List (JobMetadata F)
  unfolding drawing drawn_jobs
  all_pages d b k zero = []
  all_pages d b k (suc m) =
      drawn_jobs (drawing d (record b { page = pos (suc k) })) ++ all_pages d b (suc k) m
