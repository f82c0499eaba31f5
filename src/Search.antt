-- ===== src/Search.antt =====
-- frontend/pages/search.tsx: the three searches of the page, with the answers that arrive later, and
-- the results of the chosen category. What draws a result (its `body`) is left out.
pub mod Answers
mod Tests
use job_mon.Base.{
  length, ◌||◌, Bool, List, Option, String, [], false, if◌then◌else◌, leb, ltb, map, none, some,
  true, ℕ, ◌&&◌, ◌++◌, ◌+◌, ◌==◌, ◌∷◌,
}
use job_mon.Base.Int.{pos, ℤ, ◌-ℤ◌}
use job_mon.Job.{JobMetadata, JobTag}
use job_mon.Js.Array.{sort}
use job_mon.Js.Text.Decimal.{numeral}
use Prim.Native.Char.{Char, code}
use Prim.Native.String

pub record SearchResult : Type 0 where
  pub category : String
  pub name : String
  pub link : String
  pub text : Option String

-- `str.length`, in units of UTF-16.
abbrev pub units_of : String → ℕ
units_of String.[] = 0
units_of (String.◌∷◌ c s) = (if ltb 65_535 (code c) then 2 else 1) + units_of s

-- `{ term } = router.query`: the term of the page's address, if it has one.
unfoldable pub read_term : Option String → String → String
read_term none search_term = search_term
read_term (some term) search_term = if term == "" then search_term else term

abbrev user_result : String → SearchResult
user_result value = record {
  category = "User";
  name = value;
  link = String.◌++◌ "/jobs?user=" value;
  text = none;
}

-- An answer may be `null`.
unfoldable pub user_results : Option (List String) → List SearchResult
user_results none = []
user_results (some val) = map user_result val

abbrev job_result : {F : Type 0} → JobMetadata F → SearchResult
job_result value = record {
  category = "Job";
  name = String.◌++◌ "Job ID: " (numeral value.id);
  link = String.◌++◌ "/job/" (numeral value.id);
  text = none;
}

-- `b.StartTime - a.StartTime`
abbrev by_start : {F : Type 0} → JobMetadata F → JobMetadata F → ℤ
by_start a b = pos b.start_time -ℤ pos a.start_time

unfoldable pub job_results : {F : Type 0} → Option (List (JobMetadata F)) → List SearchResult
unfolding numeral sort
job_results none = []
job_results (some val) = map job_result (sort by_start val)

abbrev tag_result : JobTag → SearchResult
tag_result value = record {
  category = "Tag";
  name = value.name;
  link = String.◌++◌ "/jobs?tag=" value.name;
  text = some (String.◌++◌ "Created by: " value.created_by);
}

-- `val.sort()` compares the texts of the objects, which are all "[object Object]", and so changes
-- nothing.
unfoldable pub tag_results : Option (List JobTag) → List SearchResult
tag_results none = []
tag_results (some val) = map tag_result val

-- `SearchResultsCategories`
pub data SearchCategory : Type 0 where
  all users jobs tags : SearchCategory

unfoldable pub current_results :
    SearchCategory → List SearchResult → List SearchResult → List SearchResult → List SearchResult
current_results all result_users result_jobs result_tags =
    (result_users ++ result_jobs) ++ result_tags
current_results users result_users result_jobs result_tags = result_users
current_results jobs result_users result_jobs result_tags = result_jobs
current_results tags result_users result_jobs result_tags = result_tags

-- An entry of `SearchSelection`.
pub record CategoryEntry : Type 0 where
  pub category : SearchCategory
  pub number : ℕ
  pub is_loading : Bool

-- The entries that the page offers; only an administrator gets the one for users.
unfoldable pub category_entries :
    Bool
    → List SearchResult
    → List SearchResult
    → List SearchResult
    → Bool
    → Bool
    → Bool
    → List CategoryEntry
category_entries is_admin result_users result_jobs result_tags load_users load_jobs load_tags =
    let everything : CategoryEntry = record {
      category = all;
      number = length result_users + length result_jobs + length result_tags;
      is_loading = load_users || load_jobs || load_tags;
    } in
    let of_users : CategoryEntry = record {
      category = users;
      number = length result_users;
      is_loading = load_users;
    } in
    let of_jobs : CategoryEntry = record {
      category = jobs;
      number = length result_jobs;
      is_loading = load_jobs;
    } in
    let of_tags : CategoryEntry = record {
      category = tags;
      number = length result_tags;
      is_loading = load_tags;
    } in
    if is_admin
    then everything ∷ of_users ∷ of_jobs ∷ of_tags ∷ []
    else everything ∷ of_jobs ∷ of_tags ∷ []

-- One of the searches: its part of the page's state, and the terms whose answers are on their way, the
-- oldest first.
pub record Search : Type 0 where
  pub term : String
  pub results : List SearchResult
  pub is_loading : Bool
  pub pending : List String

abbrev pub initial_search : Search
initial_search = record { term = ""; results = []; is_loading = true; pending = [] }

-- `allowed` is `isAdmin` for the search for users, and true for the others.
abbrev pub is_searched : Bool → String → Bool
is_searched allowed term = leb 2 (units_of term) && allowed

-- The effect on `searchTerm`.
unfoldable pub search_effect : Bool → Search → Search
search_effect allowed s =
    if is_searched allowed s.term
    then record {
      term = s.term;
      results = s.results;
      is_loading = true;
      pending = s.pending ++ s.term ∷ [];
    }
    else record { term = s.term; results = []; is_loading = false; pending = s.pending }

-- A new term, and the effect that follows.
unfoldable pub set_search_term : Bool → String → Search → Search
unfolding search_effect
set_search_term allowed new s =
    let changed : Search = record {
      term = new;
      results = s.results;
      is_loading = s.is_loading;
      pending = s.pending;
    } in
    if s.term == new then s else search_effect allowed changed

-- `answers` gives the results that the backend's answer for a term is turned into. The answer that
-- arrives was on its way between `before` and `after`.
unfoldable pub receive_answer :
    (String → List SearchResult) → List String → String → List String → Search → Search
receive_answer answers before term after s = record {
  term = s.term;
  results = answers term;
  is_loading = false;
  pending = before ++ after;
}
