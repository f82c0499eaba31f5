-- ===== src/Groups/Tests.antt =====
-- Runs of `groupBy`.
use job_mon.Base.{List, String, [], any, filter, none, refl, some, true, ℕ, ◌==◌, ◌↔◌, ◌∷◌, ◌≡◌}
use job_mon.Base.Int.{pos, ℤ}
use job_mon.Groups.{add_to_group, group_at, group_by, group_from}
use job_mon.Groups.Laws.{group_by-groups, group_by-throws_iff}
use job_mon.Js.Object.{Object, get, has, has_own, is_inherited, put}
use job_mon.Js.Object.Laws.{IsUnique}

abbrev jobs : List (String × ℕ)
jobs = ("ada", 5) ∷ ("bob", 2) ∷ ("ada", 4) ∷ []

abbrev user : String × ℕ → String
user job = job.0

abbrev grouped : Object (List (String × ℕ))
grouped = ("ada", ("ada", 5) ∷ ("ada", 4) ∷ []) ∷ ("bob", ("bob", 2) ∷ []) ∷ []

grouped_run : group_by user jobs ≡ some grouped
unfolding group_by group_from add_to_group has has_own get put is_inherited
grouped_run = refl

group_by-throws_iff_example :
    (group_by user (("constructor", 1) ∷ []) ≡ none)
    ↔ (any (λ x. is_inherited (user x)) (("constructor", 1) ∷ []) ≡ true)
group_by-throws_iff_example = group_by-throws_iff user (("constructor", 1) ∷ [])

group_by-groups_example :
    ((k : String) → group_at k grouped ≡ filter (λ x. user x == k) jobs)
    × ((k : String) → has_own k grouped ≡ any (λ x. user x == k) jobs)
    × IsUnique grouped
group_by-groups_example = group_by-groups user jobs grouped grouped_run

abbrev hours : String × ℕ → ℤ
hours job = pos job.1
