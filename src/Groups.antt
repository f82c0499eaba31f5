-- ===== src/Groups.antt =====
-- `groupBy` of frontend/utils/utils.ts.
pub mod Laws
pub mod Totals
mod Tests
use job_mon.Base.{List, Option, String, [], if◌then◌else◌, none, some, ◌++◌, ◌∷◌}
use job_mon.Js.Object.{Object, get, has, put}

module _ {ℓ} {T : Type ℓ} (key_func : T → String) where
  -- One round of the loop. `none` is the `TypeError` of `groups[key].push` where `key in groups` holds
  -- of a name that is only inherited.
  unfoldable pub add_to_group : T → Object (List T) → Option (Object (List T))
  add_to_group obj groups =
      let key = key_func obj in
      if has key groups
      then elim (get key groups) [
        | none ↦ none
        | some group ↦ some (put key (group ++ obj ∷ []) groups)
      ]
      else some (put key (obj ∷ []) groups)

  unfoldable pub group_from : Object (List T) → List T → Option (Object (List T))
  unfolding add_to_group
  group_from groups [] = some groups
  group_from groups (obj ∷ rest) = elim (add_to_group obj groups) [
    | none ↦ none
    | some groups' ↦ group_from groups' rest
  ]

  unfoldable pub group_by : List T → Option (Object (List T))
  unfolding group_from
  group_by objs = group_from [] objs

abbrev pub or_nil {ℓ} : {T : Type ℓ} → Option (List T) → List T
or_nil none = []
or_nil (some group) = group

-- `groups[key]`, for a key of the groups.
abbrev pub group_at {ℓ} : {T : Type ℓ} → String → Object (List T) → List T
group_at k groups = or_nil (get k groups)
