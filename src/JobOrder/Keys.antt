-- ===== src/JobOrder/Keys.antt =====
-- The job list sorted by a column.
use mathlib.Core.List.Perm
use mathlib.Core.List.{reverse_perm}
use job_mon.Base.{
  filter, filter-perm, Bool, Bool-cases, List, Perm, arith, false, inl, inr, not, true, ◌≡◌, ◌≤◌,
}
use job_mon.Job.{JobMetadata}
use job_mon.JobOrder.{by_length, reversed_if, SortBy, by_key, is_joblength, ordered, sort_key}
use job_mon.Js.Array.{is_negative, sort}
use job_mon.Js.Array.Laws.{IsSorted, sort-IsSorted, sort-perm}
use job_mon.Js.Array.Order.{IsSorted-reverse, Flipped}

module _ {F : Type 0} where
  abbrev pub Falls : SortBy → JobMetadata F → JobMetadata F → Type 0
  Falls sort_by a b = sort_key sort_by b ≤ sort_key sort_by a

  by_key-before :
      (sort_by : SortBy) (a b : JobMetadata F)
      → is_negative (by_key sort_by a b) ≡ true
      → Falls sort_by a b
  by_key-before sort_by a b h = ground arith

  by_key-after :
      (sort_by : SortBy) (a b : JobMetadata F)
      → is_negative (by_key sort_by a b) ≡ false
      → Falls sort_by b a
  by_key-after sort_by a b h = ground arith

  sort-Falls :
      (sort_by : SortBy) (jobs : List (JobMetadata F))
      → IsSorted (Falls sort_by) (sort (by_key sort_by) jobs)
  sort-Falls sort_by =
      sort-IsSorted (Falls sort_by) (λ a b c p q. omega (arith, p, q)) (by_key sort_by)
        (by_key-before sort_by) (by_key-after sort_by)

  reversed_if-perm : (test : Bool) (jobs : List (JobMetadata F)) → Perm (reversed_if test jobs) jobs
  reversed_if-perm true jobs = reverse_perm jobs
  reversed_if-perm false jobs = Perm.refl jobs

  -- The list shows every job once, in whatever order is chosen.
  pub ordered-perm :
      (sort_by : SortBy) (descending : Bool) (jobs : List (JobMetadata F))
      → Perm (ordered sort_by descending jobs) jobs
  unfolding ordered
  ordered-perm sort_by descending jobs = elim (Bool-cases (is_joblength sort_by)) [
    | inl by_joblength ↦ rw by_joblength (
        let parts = sort by_length jobs in
        Perm.trans
          (Perm.append (reversed_if-perm (not descending) (filter (λ j. not j.is_running) parts))
            (reversed_if-perm (not descending) (filter (λ j. j.is_running) parts)))
          (Perm.trans (filter-perm (λ j. j.is_running) parts) (sort-perm by_length jobs)))
    | inr by_column ↦ rw by_column (
        Perm.trans (reversed_if-perm (not descending) (sort (by_key sort_by) jobs))
          (sort-perm (by_key sort_by) jobs))
  ]

  -- Sorted by a column, its values fall from top to bottom if "descending" is chosen, and rise
  -- otherwise.
  pub ordered-keys :
      (sort_by : SortBy) (jobs : List (JobMetadata F))
      → is_joblength sort_by ≡ false
      → IsSorted (Falls sort_by) (ordered sort_by true jobs)
        × IsSorted (Flipped (Falls sort_by)) (ordered sort_by false jobs)
  unfolding ordered
  ordered-keys sort_by jobs by_column =
      let sorted = sort-Falls sort_by jobs in
      rw by_column (sorted, IsSorted-reverse (Falls sort_by) (sort (by_key sort_by) jobs) sorted)
