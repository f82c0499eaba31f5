-- ===== src/Users/Tests.antt =====
-- A run of the user settings.
use job_mon.Users.{
  UserRequest, UserRoles, UsersView, initial_view, load_user, receive_user, update_user,
}
use job_mon.Base.{[], ◌∷◌, ◌≡◌, some, refl}
use job_mon.Users.Saving.{Reaches, update_user-target, loads, answers, done, more}

abbrev ada : UserRoles
ada = record { username = "ada"; roles = "user" ∷ [] }

abbrev asked : UsersView
asked = load_user "ada" initial_view

abbrev loaded : UsersView
loaded = receive_user (some ada) asked

loaded-Reaches : Reaches initial_view loaded
unfolding load_user receive_user
loaded-Reaches =
    more initial_view asked loaded (loads "ada" initial_view (λ e. cc e))
      (more asked loaded loaded (answers "ada" [] (some ada) asked refl refl) (done loaded))

abbrev request : UserRequest
request = record { name = some "ada"; body = record { username = "ada"; roles = "admin" ∷ [] } }

update_user-target_example : (request.name ≡ some "ada") × (request.body.roles ≡ "admin" ∷ [])
unfolding load_user receive_user update_user
update_user-target_example =
    update_user-target loaded ("admin" ∷ []) request loaded-Reaches refl refl

-- A save while another user is being loaded sends the first one's roles to the second one.
mixed :
    update_user [] (load_user "eve" loaded)
    ≡ some (record { name = some "eve"; body = record { username = "ada"; roles = [] } })
unfolding load_user receive_user update_user
mixed = refl
