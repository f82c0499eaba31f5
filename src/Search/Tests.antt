-- ===== src/Search/Tests.antt =====
-- Runs of the search.
use job_mon.Base.{List, String, [], if◌then◌else◌, none, refl, some, true, ◌==◌, ◌∷◌, ◌≡◌}
use job_mon.Search.{
  Search, SearchResult, initial_search, receive_answer, set_search_term, user_results,
}

abbrev known : String → List SearchResult
known term = user_results (if term == "ada" then some ("ada" ∷ "adam" ∷ []) else none)

abbrev typed_ada : Search
typed_ada = set_search_term true "ada" initial_search

-- A term that is too short for a search shows no results; an answer that was on its way shows its own.
late_answer :
    (receive_answer known [] "ada" [] (set_search_term true "a" typed_ada)).results ≡ known "ada"
unfolding receive_answer
late_answer = refl
