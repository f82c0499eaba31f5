-- ===== src/Users.antt =====
-- The users in frontend/components/settings/UsersView.tsx: the user that is loaded, and the roles that
-- are saved. `pending` holds the names whose answers are on their way, which arrive in order.
pub mod Saving
mod Tests
use job_mon.Base.{
  Bool, List, Option, String, [], ◌∷◌, ◌++◌, ◌==◌, false, if◌then◌else◌, none, some, true,
}

-- `UserRoles`
pub record UserRoles : Type 0 where
  pub username : String
  pub roles : List String

pub record UsersView : Type 0 where
  pub username : Option String
  pub user : Option UserRoles
  pub pending : List String

abbrev pub initial_view : UsersView
initial_view = record { username = none; user = none; pending = [] }

-- `/api/config/users/` with the name, and the body.
pub record UserRequest : Type 0 where
  pub name : Option String
  pub body : UserRoles

abbrev pub is_shown : Option String → String → Bool
is_shown none name = false
is_shown (some shown) name = shown == name

-- The button "Load", and the effect on `username`.
unfoldable pub load_user : String → UsersView → UsersView
load_user name s =
    if is_shown s.username name
    then s
    else if name == ""
    then record { username = some name; user = s.user; pending = s.pending }
    else record { username = some name; user = s.user; pending = s.pending ++ name ∷ [] }

abbrev pub rest_of : List String → List String
rest_of [] = []
rest_of (name ∷ names) = names

-- The answer to the first request that waits; `none` is a rejected one.
unfoldable pub receive_user : Option UserRoles → UsersView → UsersView
receive_user answer s = record { username = s.username; user = answer; pending = rest_of s.pending }

abbrev pub save_of : Option String → List String → Option UserRoles → Option UserRequest
save_of name roles none = none
save_of name roles (some user) =
    some (record { name = name; body = record { username = user.username; roles = roles } })

-- The button "Save" of the roles, which shows if a user does.
unfoldable pub update_user : List String → UsersView → Option UserRequest
update_user roles s = save_of s.username roles s.user

-- The answer to an update.
unfoldable pub receive_update : Option UserRoles → UsersView → UsersView
receive_update none s = s
receive_update (some data_sent) s = record {
  username = s.username;
  user = some data_sent;
  pending = s.pending;
}
