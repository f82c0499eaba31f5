-- ===== src/SearchPage.antt =====
-- The page frontend/pages/search.tsx as a whole: its three searches, the category that is chosen, and
-- the list of frontend/components/search/SearchResultList.tsx with its pages.
pub mod Reaching
pub mod Whole
mod Tests
use job_mon.Base.{
  Bool, List, Option, String, [], eqb, false, if◌then◌else◌, length, none, not, some, suc, true,
  zero, ℕ, ◌&&◌, ◌++◌,
}
use job_mon.Base.Int.{pos, ℤ}
use job_mon.Header.{is_admin}
use job_mon.Paging.{Quotient, adjust, divide, page_slice, shown_pages, shows_selection}
use job_mon.Search.{
  CategoryEntry, Search, SearchCategory, SearchResult, all, category_entries, current_results,
  initial_search, is_searched, read_term, search_effect, set_search_term,
}

pub record SearchPage : Type 0 where
  pub users : Search
  pub jobs : Search
  pub tags : Search
  pub active : SearchCategory
  pub page : ℤ
  pub page_is_loading : Bool

-- The page after the effects of its first rendering, with the page number of the session storage.
unfoldable pub opened_page : Bool → ℤ → SearchPage
unfolding search_effect
opened_page is_admin page = record {
  users = search_effect is_admin initial_search;
  jobs = search_effect true initial_search;
  tags = search_effect true initial_search;
  active = all;
  page = page;
  page_is_loading = false;
}

-- The effect on `router`, and the three effects on the term.
unfoldable pub route_term : Bool → Option String → SearchPage → SearchPage
unfolding read_term set_search_term
route_term is_admin query p =
    let new = read_term query p.users.term in
    record p {
      users = set_search_term is_admin new p.users;
      jobs = set_search_term true new p.jobs;
      tags = set_search_term true new p.tags;
    }

-- `select` of an entry.
unfoldable pub select : SearchCategory → SearchPage → SearchPage
select category p = record p { active = category }

abbrev pub results_of : SearchPage → List SearchResult
results_of p = current_results p.active p.users.results p.jobs.results p.tags.results

unfoldable pub entries_of : Bool → SearchPage → List CategoryEntry
unfolding category_entries
entries_of is_admin p =
    category_entries is_admin p.users.results p.jobs.results p.tags.results p.users.is_loading
      p.jobs.is_loading p.tags.is_loading

-- `limit`
abbrev pub limit : ℕ
limit = 50

abbrev pub pages_of : SearchPage → Quotient
pages_of p = divide (length (results_of p)) limit

-- What the list draws: its text for no elements, the numbers for `PageSelection`, and the results.
pub record ResultList : Type 0 where
  pub no_elements : Bool
  pub selection : Option (ℤ × ℕ)
  pub shown : List SearchResult

pub data Drawing : Type 0 where
  unable_to_search : Drawing
  spinner : Drawing
  result_list : ResultList → Drawing

-- `SearchResultList`
unfoldable pub search_result_list : List SearchResult → ℤ → ResultList
unfolding page_slice divide shows_selection shown_pages
search_result_list results page =
    let pages = divide (length results) limit in
    record {
      no_elements = eqb (length results) 0;
      selection = if shows_selection pages then some (page, shown_pages pages) else none;
      shown = page_slice limit page results;
    }

unfoldable pub drawing : SearchPage → Drawing
unfolding search_result_list current_results
drawing p =
    if not (is_searched true p.users.term)
    then unable_to_search
    else if p.page_is_loading
    then spinner
    else result_list (search_result_list (results_of p) p.page)

-- The page number after a rendering, if the list is drawn.
unfoldable pub rendered : SearchPage → SearchPage
unfolding adjust divide current_results
rendered p =
    if is_searched true p.users.term && not p.page_is_loading
    then record p { page = adjust (pages_of p) p.page }
    else p

-- The results that a drawing shows.
abbrev pub drawn_results : Drawing → List SearchResult
drawn_results unable_to_search = []
drawn_results spinner = []
drawn_results (result_list l) = l.shown

-- What the pages from the first on show, one after the other.
unfoldable pub all_pages : SearchPage → ℕ → ℕ → List SearchResult
unfolding drawing
all_pages p k zero = []
all_pages p k (suc m) =
    drawn_results (drawing (record p { page = pos (suc k) })) ++ all_pages p (suc k) m
