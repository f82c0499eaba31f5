-- ===== src/SearchPage/Tests.antt =====
-- A run of the page of the search.
use job_mon.SearchPage.Reaching.{tags_answered, jobs_answered}
use job_mon.Base.{All, length, List, String, [], none, refl, some, true, ◌∷◌, ◌≡◌}
use job_mon.Base.Int.{pos}
use job_mon.Paging.{ceil}
use job_mon.Search.{
  SearchResult, read_term, receive_answer, search_effect, set_search_term, tag_results,
  user_results, users,
}
use job_mon.SearchPage.{
  entries_of, SearchPage, all_pages, opened_page, pages_of, route_term, select,
}
use job_mon.SearchPage.Reaching.{users_answered, routed, here, next, Reaches}
use job_mon.SearchPage.Whole.{found, pages-current}

abbrev known_users : String → List SearchResult
known_users term = user_results (some ("ada" ∷ []))

abbrev known_jobs : String → List SearchResult
known_jobs term = tag_results (some [])

abbrev known_tags : String → List SearchResult
known_tags term = tag_results none

abbrev opened_now : SearchPage
opened_now = opened_page true (pos 7)

abbrev typed_now : SearchPage
typed_now = route_term true (some "ada") opened_now

abbrev users_there : SearchPage
users_there = record typed_now { users = receive_answer known_users [] "ada" [] typed_now.users }

abbrev jobs_there : SearchPage
jobs_there = record users_there { jobs = receive_answer known_jobs [] "ada" [] users_there.jobs }

abbrev all_there : SearchPage
all_there = record jobs_there { tags = receive_answer known_tags [] "ada" [] jobs_there.tags }

run : Reaches true known_users known_jobs known_tags opened_now all_there
unfolding opened_page route_term search_effect set_search_term read_term receive_answer
run =
    next
      (next
        (next (next here (routed (some "ada") opened_now)) (users_answered "ada" [] typed_now refl))
        (jobs_answered "ada" [] users_there refl))
      (tags_answered "ada" [] jobs_there refl)

pages-current_example :
    (all_pages (select users all_there) 0 (ceil (pages_of (select users all_there)))
      ≡ found true known_users known_jobs known_tags users "ada")
    × All
        (λ e. e.number ≡ length (found true known_users known_jobs known_tags e.category "ada"))
        (entries_of true all_there)
unfolding opened_page route_term search_effect set_search_term read_term receive_answer
pages-current_example =
    pages-current true known_users known_jobs known_tags (pos 7) all_there users run refl refl refl
      refl
