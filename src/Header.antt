-- ===== src/Header.antt =====
-- The links of frontend/components/header/Header.tsx, and the pages behind them that only an admin
-- sees (frontend/pages/settings.tsx, frontend/pages/statistics.tsx).
pub mod Links
mod Tests
use job_mon.Metrics.{is_in}
use job_mon.Session.{AuthUser, has_no_allowed_role, is_authenticated}
use job_mon.Base.{
  Bool, List, Option, String, [], ◌∷◌, ◌++◌, ◌==◌, ◌&&◌, ◌||◌, false, if◌then◌else◌, none, not,
  some, true,
}
use Prim.Native.String

-- `user.Roles?.includes(UserRole.Admin) ?? false`
unfoldable pub is_admin : AuthUser → Bool
is_admin user = elim user.roles [ none ↦ false | some roles ↦ is_in roles "admin" ]

-- `hasRole`
unfoldable pub has_role : AuthUser → Bool
unfolding has_no_allowed_role
has_role user = elim user.roles [ none ↦ false | some roles ↦ not (has_no_allowed_role user) ]

abbrev pub when_admin : Bool → List String
when_admin admin = if admin then "/statistics" ∷ "/settings" ∷ [] else []

-- The paths that the header links to, which both of its layouts share.
unfoldable pub header_links : AuthUser → List String
unfolding is_admin has_role is_authenticated
header_links user =
    if is_authenticated user && has_role user then "/jobs" ∷ when_admin (is_admin user) else []

-- Whether the page at a path answers that the access is denied.
unfoldable pub is_denied : AuthUser → String → Bool
unfolding is_admin
is_denied user path = (path == "/settings" || path == "/statistics") && not (is_admin user)

-- `search`: where the search field leads.
unfoldable pub search_address : String → String
search_address term = String.◌++◌ "/search?term=" term
