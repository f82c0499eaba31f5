-- ===== src/Header/Links.antt =====
-- The links lead to pages that are shown.
use job_mon.Header.{has_role, header_links, is_admin, is_denied, when_admin}
use job_mon.Session.{AuthUser, has_no_allowed_role, is_authenticated}
use job_mon.Metrics.{is_in}
use job_mon.Session.Routing.{MaySee, IsAllowed}
use job_mon.Base.{
  Bool, String, [], ◌∷◌, ◌==◌, ◌≡◌, ◌≢◌, ◌↔◌, ◌||◌, ◌&&◌, not, arith, false, true, refl, eq_iff,
  Bool-cases, Option-cases, inl, inr, if◌then◌else◌,
}

-- The pages that the header links to.
abbrev pub is_linked : String → Bool
is_linked path = path == "/jobs" || path == "/statistics" || path == "/settings"

linked-allowed :
    (path : String) → is_linked path ≡ true → (path ≢ "/login") × (path ≢ "/role-error")
linked-allowed path h = (λ e. cc (rw e at h), λ e. cc (rw e at h))

list_linked :
    (path : String)
    → is_in ("/jobs" ∷ "/statistics" ∷ "/settings" ∷ []) path ≡ true
    → is_linked path ≡ true
list_linked path h = ground (
  arith,
  eq_iff "/jobs" path,
  eq_iff "/statistics" path,
  eq_iff "/settings" path,
  eq_iff path "/jobs",
  eq_iff path "/statistics",
  eq_iff path "/settings",
)

linked_list :
    (path : String)
    → is_linked path ≡ true
    → is_in ("/jobs" ∷ "/statistics" ∷ "/settings" ∷ []) path ≡ true
linked_list path h = ground (
  arith,
  eq_iff "/jobs" path,
  eq_iff "/statistics" path,
  eq_iff "/settings" path,
  eq_iff path "/jobs",
  eq_iff path "/statistics",
  eq_iff path "/settings",
)

links :
    (known barred admin : Bool) (path : String)
    → (is_in (if known && not barred then "/jobs" ∷ when_admin admin else []) path ≡ true) ↔ (
        (is_linked path ≡ true)
        × IsAllowed known barred path
        × (((path == "/settings" || path == "/statistics") && not admin) ≡ false))
links false barred admin path =
    (λ h. absurd (cc h), λ (linked, at, _). absurd (cc (rw at at linked)))
links true true admin path = (λ h. absurd (cc h), λ (linked, at, _). absurd (cc (rw at at linked)))
links true false true path = (
  λ h. let linked = list_linked path h in (linked, linked-allowed path linked, ground arith),
  λ (linked, _, _). linked_list path linked,
)
links true false false path = (
  λ h.
      let at : path ≡ "/jobs" = ground (arith, eq_iff "/jobs" path) in
      let linked : is_linked path ≡ true = rw (at) refl in
      (linked, linked-allowed path linked, rw (at) refl),
  λ (linked, _, shown). ground (arith, eq_iff "/jobs" path, eq_iff path "/jobs"),
)

has_role-barred :
    (user : AuthUser)
    → is_authenticated user ≡ true
    → has_role user ≡ not (has_no_allowed_role user)
unfolding has_role is_authenticated has_no_allowed_role
has_role-barred user h = elim (Option-cases user.roles) [
  | inl e ↦ absurd (cc (rw e at h))
  | inr (roles, e) ↦ rw (e) refl
]

-- The header links to a path exactly if it is one of its three pages, the redirects let the user
-- see it, and the page does not deny the access.
pub header_links_iff :
    (user : AuthUser) (path : String)
    → (is_in (header_links user) path ≡ true)
      ↔ ((is_linked path ≡ true) × MaySee user path × (is_denied user path ≡ false))
unfolding header_links is_denied
header_links_iff user path = elim (Bool-cases (is_authenticated user)) [
  | inl known ↦
      rw (has_role-barred user known, known)
        (links true (has_no_allowed_role user) (is_admin user) path)
  | inr unknown ↦ rw (unknown) (links false (has_no_allowed_role user) (is_admin user) path)
]
