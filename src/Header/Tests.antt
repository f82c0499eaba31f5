-- ===== src/Header/Tests.antt =====
-- Runs of the header's links.
use job_mon.Header.{has_role, header_links, is_admin}
use job_mon.Session.{AuthUser, has_no_allowed_role, is_authenticated}
use job_mon.Base.{[], ◌∷◌, ◌≡◌, some, refl}

abbrev admin : AuthUser
admin = record { username = some "ada"; roles = some ("admin" ∷ []) }

all_links : header_links admin ≡ "/jobs" ∷ "/statistics" ∷ "/settings" ∷ []
unfolding header_links has_role is_admin is_authenticated has_no_allowed_role
all_links = refl
