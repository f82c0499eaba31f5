-- ===== src/Session/Tests.antt =====
-- Runs of the session.
use job_mon.Base.{Option, String, [], if◌then◌else◌, none, refl, some, ℕ, ◌==◌, ◌↔◌, ◌∷◌, ◌≡◌, ◌⊎◌}
use job_mon.Session.{AuthUser, Pushes, Visits, auth_fetch, get_user, my_app, nobody, unauthorized}
use job_mon.Session.Routing.{MaySee, redirects_end, shown_iff}

abbrev ada : AuthUser
ada = record { username = some "ada"; roles = some ("user" ∷ []) }

abbrev guest : AuthUser
guest = record { username = some "guest"; roles = some [] }

-- A parser that knows one payload.
abbrev parse : String → Option AuthUser
parse payload = if payload == "ada" then some ada else none

unknown_token : get_user parse (some "a.b") ≡ some nobody
unfolding get_user
unknown_token = refl

guest_redirected : (my_app guest "/jobs").pushed ≡ "/role-error" ∷ []
unfolding my_app
guest_redirected = refl

shown_iff_example : ((my_app ada "/jobs").redirection_string ≡ none) ↔ MaySee ada "/jobs"
shown_iff_example = shown_iff ada "/jobs"

redirects_end_example :
    (end : String) × Visits guest "/jobs" end
    × MaySee guest end
    × ((to : String) → Visits guest "/jobs" to → (to ≡ "/jobs") ⊎ (to ≡ end))
    × ((to : String) → ¬ Pushes guest end to)
redirects_end_example = redirects_end guest "/jobs"

abbrev forbidden : ℕ
forbidden = 403

refused : (auth_fetch 401 (some "t")).1 ≡ unauthorized
unfolding auth_fetch
refused = refl
