-- ===== src/JobList.antt =====
-- `useGetJobs` of frontend/utils/utils.ts, which asks for the jobs of a filter, and the view that
-- frontend/components/joblist/JobList.tsx chooses of them. The address is a list of the parameters
-- that are appended to it; what escapes them is the platform's.
pub mod Addresses
mod Tests
use job_mon.Base.Int.{ℤ}
use job_mon.Paging.{page_slice}
use job_mon.Js.Object.{Object, keys}
use job_mon.Session.{ok}
use job_mon.Base.{
  Bool, List, Option, String, ℕ, [], ◌∷◌, ◌==◌, ◌&&◌, ◌||◌, ◌>>=◌, eqb, false, if◌then◌else◌,
  length, none, not, some, true,
}
use job_mon.Filter.{JobSearchParams, RangeFilter}
use job_mon.Job.{JobTag}
use job_mon.Js.Text.Decimal.{numeral}
use Prim.Native.String

abbrev pub bound_text : Option ℕ → String
bound_text none = ""
bound_text (some n) = numeral n

-- `toString` of a range.
unfoldable pub range_text : RangeFilter → String
unfolding numeral
range_text (low, high) = String.◌++◌ (bound_text low) (String.◌++◌ "," (bound_text high))

abbrev bool_text : Bool → String
bool_text b = if b then "true" else "false"

abbrev mapped : {A : Type 0} → (A → String) → Option A → Option String
mapped f none = none
mapped f (some a) = some (f a)

-- `params[val]?.toString()`
unfoldable pub param_text : String → JobSearchParams → Option String
unfolding range_text numeral
param_text key params =
    if key == "UserId"
    then mapped numeral params.user_id
    else if key == "UserName"
    then params.user_name
    else if key == "GroupId"
    then mapped numeral params.group_id
    else if key == "GroupName"
    then params.group_name
    else if key == "IsRunning"
    then mapped bool_text params.is_running
    else if key == "Partition"
    then params.partition
    else if key == "NumNodes"
    then mapped range_text params.num_nodes
    else if key == "NumTasks"
    then mapped range_text params.num_tasks
    else if key == "NumGpus"
    then mapped range_text params.num_gpus
    else if key == "Time"
    then mapped range_text params.time
    else none

-- The ids of tags, between commas; `none` is the exception where a tag is missing.
unfoldable pub ids_text : List (Option JobTag) → Option String
unfolding numeral
ids_text [] = some ""
ids_text (none ∷ ts) = none
ids_text (some t ∷ []) = some (numeral t.id)
ids_text (some t ∷ u ∷ ts) = do
  rest ← ids_text (u ∷ ts)
  some (String.◌++◌ (numeral t.id) (String.◌++◌ "," rest))

abbrev pub tags_text : Option (List (Option JobTag)) → Option String
tags_text none = some ""
tags_text (some ts) = ids_text ts

abbrev pub unless_empty : Option String → Option String
unless_empty none = none
unless_empty (some s) = if s == "" then none else some s

abbrev wrapped : Option String → Option (Option String)
wrapped none = none
wrapped (some s) = some (some s)

-- What is appended for one key, if anything is.
unfoldable pub entry : String → JobSearchParams → Option (Option String)
unfolding param_text ids_text
entry key params =
    if key == "Tags"
    then wrapped (tags_text params.tags)
    else some (unless_empty (param_text key params))

abbrev pub appended : String → Option String → Object String → Object String
appended key none rest = rest
appended key (some s) rest = (key, s) ∷ rest

-- The parameters of the address, for the keys of the filter in their order.
unfoldable pub job_query : List String → JobSearchParams → Option (Object String)
unfolding entry
job_query [] params = some []
job_query (key ∷ keys) params = do
  text ← entry key params
  rest ← job_query keys params
  some (appended key text rest)

-- The state of the hook, and the cookie.
pub record Jobs (J : Type 0) : Type 0 where
  pub job_list_data : Option J
  pub is_loading : Bool
  pub cookie : Option String

module _ {J : Type 0} where
  -- The effect on `params`: the address that is asked for.
  unfoldable pub jobs_effect :
      Option (List String × JobSearchParams) → Jobs J → Option (Jobs J × List (Object String))
  unfolding job_query
  jobs_effect none s = some (record s { is_loading = true }, [])
  jobs_effect (some (keys, params)) s = do
    query ← job_query keys params
    some (record s { is_loading = true }, query ∷ [])

  -- An answer to a request.
  unfoldable pub jobs_answer : ℕ → J → Jobs J → Jobs J
  jobs_answer status found s =
      if not (ok status) && (eqb status 401 || eqb status 403)
      then record s { cookie = none }
      else record s { job_list_data = some found; is_loading = false }

-- What `JobList` draws.
pub data View (A : Type 0) : Type 0 where
  no_jobs : View A
  compact stacked : List A → View A

abbrev pub drawn : {A : Type 0} → Bool → List A → View A
drawn compact_view [] = no_jobs
drawn compact_view (job ∷ jobs) =
    if compact_view then compact (job ∷ jobs) else stacked (job ∷ jobs)

unfoldable pub job_list : {A : Type 0} → Bool → ℕ → ℤ → List A → View A
unfolding page_slice
job_list compact_view limit page jobs = drawn compact_view (page_slice limit page jobs)
