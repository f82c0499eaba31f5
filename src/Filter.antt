-- ===== src/Filter.antt =====
-- The filter of the job list: frontend/components/joblist/job-filter/JobFilter.tsx with
-- frontend/components/joblist/job-filter/Stepper.tsx, and the effects of frontend/pages/jobs.tsx and
-- frontend/pages/statistics.tsx that set its parameters. A time is a number of seconds; what reads
-- the clock or a date field gives it to the event.
pub mod Applying
pub mod Steppers
mod Tests
use job_mon.Base.{
  Bool, List, Option, String, [], eqb, false, filter, find, if◌then◌else◌, length, ltb, map, none,
  not, some, true, ℕ, ◌&&◌, ◌*◌, ◌+◌, ◌-◌, ◌/◌, ◌==◌, ◌||◌, ◌∷◌,
}
use job_mon.Job.{JobTag}
use job_mon.Js.Text.Decimal.{numeral}

abbrev pub RangeFilter : Type 0
RangeFilter = Option ℕ × Option ℕ

-- An element of `Tags` is `undefined` if no tag has the picked id.
pub record JobSearchParams : Type 0 where
  pub user_id : Option ℕ
  pub user_name : Option String
  pub group_id : Option ℕ
  pub group_name : Option String
  pub is_running : Option Bool
  pub partition : Option String
  pub num_nodes : Option RangeFilter
  pub num_tasks : Option RangeFilter
  pub num_gpus : Option RangeFilter
  pub time : Option RangeFilter
  pub tags : Option (List (Option JobTag))

-- The state of `JobFilter`. A ref holds the value that its thumb was set to last; `none` is -1.
pub record Filter : Type 0 where
  pub selected_tags : List String
  pub filter_params : JobSearchParams
  pub left_thumb : Option ℕ
  pub right_thumb : Option ℕ
  pub should_apply : Bool

-- `dateToUnix`, of milliseconds.
abbrev pub date_to_unix : ℕ → ℕ
date_to_unix milliseconds = (milliseconds + 500) / 1000

-- The last two weeks.
unfoldable pub two_weeks : ℕ → RangeFilter
two_weeks now = (some (date_to_unix (now - 60 * 60 * 24 * 14 * 1000)), some (date_to_unix now))

unfoldable pub initial_filter : JobSearchParams → ℕ → Filter
unfolding two_weeks
initial_filter params now = record {
  selected_tags = [];
  filter_params = record params { time = some (two_weeks now) };
  left_thumb = none;
  right_thumb = none;
  should_apply = false;
}

-- `range?.[0]` and `range?.[1]`
abbrev pub lower : Option RangeFilter → Option ℕ
lower none = none
lower (some range) = range.0

abbrev pub upper : Option RangeFilter → Option ℕ
upper none = none
upper (some range) = range.1

-- `ref.current === val`
abbrev pub is_at : Option ℕ → ℕ → Bool
is_at none val = false
is_at (some last) val = eqb last val

-- The four setters of the steppers. `shown` are the parameters of the rendering that made the
-- handler.
unfoldable pub set_lower_nodes : JobSearchParams → ℕ → Filter → Filter
set_lower_nodes shown val s = if is_at s.left_thumb val then s else record s {
  left_thumb = some val;
  filter_params = record shown { num_nodes = some (some val, upper shown.num_nodes) };
}

unfoldable pub set_upper_nodes : JobSearchParams → ℕ → Filter → Filter
set_upper_nodes shown val s = if is_at s.right_thumb val then s else record s {
  right_thumb = some val;
  filter_params = record shown { num_nodes = some (lower shown.num_nodes, some val) };
}

unfoldable pub set_lower_gpus : JobSearchParams → ℕ → Filter → Filter
set_lower_gpus shown val s = if is_at s.left_thumb val then s else record s {
  left_thumb = some val;
  filter_params = record shown { num_gpus = some (some val, upper shown.num_gpus) };
}

unfoldable pub set_upper_gpus : JobSearchParams → ℕ → Filter → Filter
set_upper_gpus shown val s = if is_at s.right_thumb val then s else record s {
  right_thumb = some val;
  filter_params = record shown { num_gpus = some (lower shown.num_gpus, some val) };
}

-- The events of the form. The number fields of a stepper set one limit, and its slider sets both.
pub data Edit : Type 0 where
  user_name_edit : String → Edit
  partition_edit : String → Edit
  running_edit : String → Edit
  lower_nodes_edit : ℕ → Edit
  upper_nodes_edit : ℕ → Edit
  nodes_slide : (from to : ℕ) → Edit
  lower_gpus_edit : ℕ → Edit
  upper_gpus_edit : ℕ → Edit
  gpus_slide : (from to : ℕ) → Edit
  time_from_edit : ℕ → Edit
  time_to_edit : ℕ → Edit
  time_reset : (now : ℕ) → Edit
  tags_edit : List String → Edit

-- `tags.find((tag) => tag.Id.toString() === item.value)`
unfoldable pub tag_of : List JobTag → String → Option JobTag
unfolding numeral
tag_of tags item = find (λ tag. numeral tag.id == item) tags

abbrev running_of : String → Option Bool
running_of text = if text == "undefined" then none else some (text == "true")

-- An event, with the properties `params` and `tags` of the component.
unfoldable pub edit : JobSearchParams → List JobTag → Edit → Filter → Filter
unfolding set_lower_nodes set_upper_nodes set_lower_gpus set_upper_gpus tag_of two_weeks
edit params tags (user_name_edit name) s = record s {
  filter_params = record params { user_name = some name };
}
edit params tags (partition_edit name) s = record s {
  filter_params = record params { partition = some name };
}
edit params tags (running_edit text) s = record s {
  filter_params = record s.filter_params { is_running = running_of text };
}
edit params tags (lower_nodes_edit val) s = set_lower_nodes s.filter_params val s
edit params tags (upper_nodes_edit val) s = set_upper_nodes s.filter_params val s
edit params tags (nodes_slide from to) s =
    set_upper_nodes s.filter_params to (set_lower_nodes s.filter_params from s)
edit params tags (lower_gpus_edit val) s = set_lower_gpus s.filter_params val s
edit params tags (upper_gpus_edit val) s = set_upper_gpus s.filter_params val s
edit params tags (gpus_slide from to) s =
    set_upper_gpus s.filter_params to (set_lower_gpus s.filter_params from s)
edit params tags (time_from_edit t) s = record s {
  filter_params = record s.filter_params { time = some (some t, upper s.filter_params.time) };
}
edit params tags (time_to_edit t) s = record s {
  filter_params = record s.filter_params { time = some (lower s.filter_params.time, some t) };
}
edit params tags (time_reset now) s = record s {
  filter_params = record s.filter_params { time = some (two_weeks now) };
}
edit params tags (tags_edit items) s = record s {
  selected_tags = items;
  filter_params = record params { tags = some (map (tag_of tags) items) };
}

abbrev pub edits : JobSearchParams → List JobTag → List Edit → Filter → Filter
edits params tags [] s = s
edits params tags (e ∷ es) s = edits params tags es (edit params tags e s)

-- The button "Apply".
abbrev pub click_apply : Filter → Filter
click_apply s = record s { should_apply = true }

-- The effect on new properties.
abbrev pub params_effect : JobSearchParams → Filter → Filter
params_effect params s = record s { filter_params = params }

abbrev pub passed_if : Bool → JobSearchParams → Option JobSearchParams
passed_if test params = if test then some params else none

-- The effect that passes the parameters on: the state, and the argument of the last call of
-- `setParams`.
unfoldable pub apply_effect : Bool → Filter → Filter × Option JobSearchParams
apply_effect must_apply s =
    let applies = must_apply && s.should_apply in
    (
      record s { should_apply = not applies && s.should_apply },
      passed_if (applies || not must_apply) s.filter_params,
    )

-- The effect of the pages on loaded parameters.
unfoldable pub time_effect : Bool → ℕ → JobSearchParams → Option JobSearchParams
unfolding two_weeks
time_effect is_loading now params =
    passed_if (not is_loading) (record params { time = some (two_weeks now) })

-- The effect on the query `user` of the address.
abbrev pub user_effect : Option String → JobSearchParams → Option JobSearchParams
user_effect none params = none
user_effect (some user) params =
    passed_if (not (user == "")) (record params { user_name = some user })

-- The effect on the query `tag` of the address, once the jobs are loaded with their tags.
abbrev pub tag_effect :
    Option String → Option (List JobTag) → JobSearchParams → Option JobSearchParams
tag_effect (some tag) (some tags) params =
    let filtered = filter (λ t. t.name == tag) tags in
    passed_if (not (tag == "") && ltb 0 (length filtered))
      (record params { tags = some (map some filtered) })
tag_effect _ _ params = none
