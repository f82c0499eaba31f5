-- ===== src/SearchPage/Whole.antt =====
-- What the page of the search shows once its answers are there, over all pages.
use job_mon.Search.Answers.{category_numbers}
use job_mon.Base.{
  All, length, Bool, Bool-cases, List, String, [], ap, arith, false, if◌then◌else◌, inl, inr, refl,
  suc, true, zero, ℕ, ◌∙◌, ◌≡◌,
}
use job_mon.Base.Int.{pos, ℤ}
use job_mon.Paging.{ceil, page_slice}
use job_mon.Paging.Slices.{pages-partition, pages_from}
use job_mon.Search.{category_entries, SearchCategory, SearchResult, current_results, is_searched}
use job_mon.SearchPage.{
  entries_of, SearchPage, all_pages, drawing, drawn_results, limit, opened_page, pages_of,
  results_of, search_result_list, select,
}
use job_mon.SearchPage.Reaching.{
  IsFollowing, Reaches, Reaches-IsFollowing, opened-IsFollowing, settled_results,
}

module _ (is_admin : Bool) (of_users of_jobs of_tags : String → List SearchResult) where
  -- The results of a term: for users only if an administrator asks.
  abbrev pub found : SearchCategory → String → List SearchResult
  found category term =
      current_results category (if is_admin then of_users term else []) (of_jobs term)
        (of_tags term)

  shown-slice :
      (p : SearchPage) (k : ℕ)
      → is_searched true p.users.term ≡ true
      → p.page_is_loading ≡ false
      → drawn_results (drawing (record p { page = pos (suc k) }))
        ≡ page_slice limit (pos (suc k)) (results_of p)
  unfolding drawing search_result_list
  shown-slice p k searched ready = rw (searched, ready) refl

  all_pages-slices :
      (p : SearchPage) (k m : ℕ)
      → is_searched true p.users.term ≡ true
      → p.page_is_loading ≡ false
      → all_pages p k m ≡ pages_from limit k m (results_of p)
  unfolding all_pages
  all_pages-slices p k zero searched ready = refl
  all_pages-slices p k (suc m) searched ready =
      let rest = all_pages-slices p (suc k) m searched ready in
      let first = shown-slice p k searched ready in cc

  all_pages-whole :
      (p : SearchPage)
      → is_searched true p.users.term ≡ true
      → p.page_is_loading ≡ false
      → all_pages p 0 (ceil (pages_of p)) ≡ results_of p
  all_pages-whole p searched ready =
      all_pages-slices p 0 (ceil (pages_of p)) searched ready
      ∙ pages-partition limit (results_of p) (omega arith)

  users-found :
      (p : SearchPage)
      → IsFollowing is_admin of_users of_jobs of_tags p
      → is_searched true p.users.term ≡ true
      → p.users.pending ≡ []
      → p.users.results ≡ (if is_admin then of_users p.users.term else [])
  users-found p f searched nothing = elim (Bool-cases is_admin) [
    | inl admin ↦ rw admin (
        settled_results is_admin of_users of_jobs of_tags is_admin of_users p.users f.users_current
          (cc (admin, searched)) nothing)
    | inr plain ↦ rw plain ((f.no_users plain).1)
  ]

  numbers-found :
      (load_users load_jobs load_tags : Bool) {us us' js js' ts ts' : List SearchResult}
      → us ≡ us'
      → js ≡ js'
      → ts ≡ ts'
      → All
          (λ e. e.number ≡ length (current_results e.category us' js' ts'))
          (category_entries is_admin us js ts load_users load_jobs load_tags)
  numbers-found load_users load_jobs load_tags {us = us} {js = js} {ts = ts} eu ej et =
      rw (← eu, ← ej, ← et) (category_numbers is_admin us js ts load_users load_jobs load_tags)

  -- On the page of the search, from its opening over any new terms, choices of a category,
  -- renderings and answers that arrive for each of the three searches in the order of its
  -- requests: whenever the term is long enough to be searched for and no answer is on its way,
  -- the pages of any category, from the first to the last, show exactly what the backend has for
  -- the current term, users only if an administrator asks, and every entry of the category
  -- selection states the number of what its category has.
  pub pages-current :
      (page : ℤ) (p : SearchPage) (category : SearchCategory)
      → Reaches is_admin of_users of_jobs of_tags (opened_page is_admin page) p
      → is_searched true p.users.term ≡ true
      → p.users.pending ≡ []
      → p.jobs.pending ≡ []
      → p.tags.pending ≡ []
      → (let chosen = select category p in
          all_pages chosen 0 (ceil (pages_of chosen)) ≡ found category p.users.term)
        × All (λ e. e.number ≡ length (found e.category p.users.term)) (entries_of is_admin p)
  unfolding select entries_of
  pages-current page p category reached searched users_done jobs_done tags_done =
      let f =
        Reaches-IsFollowing is_admin of_users of_jobs of_tags reached
          (opened-IsFollowing is_admin of_users of_jobs of_tags page) in
      let us = users-found p f searched users_done in
      let js =
        settled_results is_admin of_users of_jobs of_tags true of_jobs p.jobs f.jobs_current
          (rw (f.jobs_term) searched) jobs_done
        ∙ ap of_jobs f.jobs_term in
      let ts =
        settled_results is_admin of_users of_jobs of_tags true of_tags p.tags f.tags_current
          (rw (f.tags_term) searched) tags_done
        ∙ ap of_tags f.tags_term in
      (
        all_pages-whole (select category p) searched f.is_loaded ∙ cc,
        numbers-found p.users.is_loading p.jobs.is_loading p.tags.is_loading us js ts,
      )
