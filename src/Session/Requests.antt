-- ===== src/Session/Requests.antt =====
-- What an unauthorized response does to the session.
use job_mon.Base.{
  Option, String, [], arith, false, none, refl, some, ℕ, ◌==◌, ◌↔◌, ◌∷◌, ◌≡◌, ◌≢◌, ◌⊎◌,
}
use job_mon.Session.{
  AuthUser, auth_fetch, get_user, is_authenticated, json, my_app, nobody, rendering, unauthorized,
}
use text.Mathlib.TextEquality.{eq_iff}

-- The promise is rejected exactly for the statuses 401 and 403; then the cookie is removed, and
-- in all other cases it is kept.
pub auth_fetch-cookie :
    (status : ℕ) (cookie : Option String)
    → ((auth_fetch status cookie).1 ≡ unauthorized → (auth_fetch status cookie).0 ≡ none)
      × ((auth_fetch status cookie).1 ≡ json → (auth_fetch status cookie).0 ≡ cookie)
      × (((auth_fetch status cookie).1 ≡ unauthorized) ↔ ((status ≡ 401) ⊎ (status ≡ 403)))
unfolding auth_fetch
auth_fetch-cookie status cookie = ground arith

module _ (parse : String → Option AuthUser) where
  -- After a response that `authFetch` rejects, the user read of the cookie is nobody, and on
  -- every path but the login page the next rendering shows no page and redirects to the login
  -- page.
  pub unauthorized-login :
      (status : ℕ) (cookie : Option String) (path : String)
      → (auth_fetch status cookie).1 ≡ unauthorized
      → path ≢ "/login"
      → (user : AuthUser) × (get_user parse (auth_fetch status cookie).0 ≡ some user)
        × ((my_app user path).redirection_string ≢ none)
        × ((my_app user path).pushed ≡ "/login" ∷ [])
  unfolding get_user my_app rendering is_authenticated
  unauthorized-login status cookie path failed elsewhere =
      let gone = (auth_fetch-cookie status cookie).0 failed in
      let other : (path == "/login") ≡ false = ground (arith, eq_iff path "/login") in
      (nobody, rw gone refl, rw other (λ e. cc e), rw other refl)
