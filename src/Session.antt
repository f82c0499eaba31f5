-- ===== src/Session.antt =====
-- The session: frontend/utils/user.ts, frontend/utils/auth.ts and the redirects of
-- frontend/pages/_app.tsx.
pub mod Token
pub mod Routing
pub mod Requests
mod Tests
use job_mon.Base.{
  is_some, Bool, List, Option, String, [], any, eqb, false, if◌then◌else◌, leb, none, not, some,
  true, ℕ, ◌&&◌, ◌++◌, ◌==◌, ◌||◌, ◌∷◌, ◌≡◌,
}
use job_mon.Js.Text.{split}

-- `AuthUser`, whose fields may be `undefined`.
pub record AuthUser : Type 0 where
  pub username : Option String
  pub roles : Option (List String)

abbrev pub nobody : AuthUser
nobody = record { username = none; roles = none }

module _ (parse : String → Option AuthUser) where
  -- What is made of the parts of the token.
  user_of_parts : List String → Option AuthUser
  user_of_parts (header ∷ payload ∷ signature ∷ []) = parse payload
  user_of_parts _ = some nobody

  -- `useGetUser`. `parse` is `JSON.parse(base64url.decode(part))` with the two fields that are read of
  -- it; `none` is the exception of either.
  unfoldable pub get_user : Option String → Option AuthUser
  unfolding split user_of_parts
  get_user none = some nobody
  get_user (some auth_token) =
      if auth_token == "" then some nobody else user_of_parts (split b'.' auth_token)

unfoldable pub is_authenticated : AuthUser → Bool
is_authenticated user = is_some user.roles && is_some user.username

-- `useHasNoAllowedRole`, which is asked of an authenticated user only; without roles it throws.
unfoldable pub has_no_allowed_role : AuthUser → Bool
has_no_allowed_role user = elim user.roles [
  | none ↦ false
  | some roles ↦ not (any (λ r. r == "admin") roles) && not (any (λ r. r == "user") roles)
]

-- A rendering of `MyApp`: the message in place of the page, and the calls of `router.push` in its
-- effect.
pub record Rendering : Type 0 where
  pub redirection_string : Option String
  pub pushed : List String

abbrev when_push : Bool → String → List String
when_push test path = if test then path ∷ [] else []

abbrev when_message : Bool → String → Option String → Option String
when_message test message before = if test then some message else before

-- The body of `MyApp`, once it is known whether the user is authenticated and has no role.
unfoldable pub rendering : Bool → Bool → String → Rendering
rendering known barred pathname =
    if known && not (pathname == "/role-error") && barred
    then record { redirection_string = some "Checking user-roles"; pushed = "/role-error" ∷ [] }
    else if known && pathname == "/role-error" && not barred
    then record { redirection_string = some "Redirecting to jobs..."; pushed = "/jobs" ∷ [] }
    else record {
      redirection_string =
          when_message (known && pathname == "/login") "Redirecting to jobs..."
            (when_message (not known && not (pathname == "/login")) "Redirecting to login..." none);
      pushed =
          when_push (not known && not (pathname == "/login")) "/login"
          ++ when_push (known && pathname == "/login") "/jobs";
    }

unfoldable pub my_app : AuthUser → String → Rendering
unfolding is_authenticated has_no_allowed_role rendering
my_app user pathname = rendering (is_authenticated user) (has_no_allowed_role user) pathname

-- A step of the router: a rendering at the first path pushes the second.
pub data Pushes (user : AuthUser) : String → String → Type 0 where
  push :
      (from to : String) (before after : List String)
      → (my_app user from).pushed ≡ before ++ to ∷ after
      → Pushes user from to

pub data Visits (user : AuthUser) : String → String → Type 0 where
  here : (path : String) → Visits user path path
  step : (from next to : String) → Pushes user from next → Visits user next to → Visits user from to

-- What `authFetch` reads of a response. `ok` is documented to hold of the statuses from 200 to 299.
abbrev pub ok : ℕ → Bool
ok status = leb 200 status && leb status 299

pub data Outcome : Type 0 where
  unauthorized json : Outcome

-- `authFetch` after the response: what becomes of the cookie, and how the promise continues.
unfoldable pub auth_fetch : ℕ → Option String → Option String × Outcome
auth_fetch status cookie =
    if not (ok status) && (eqb status 401 || eqb status 403)
    then (none, unauthorized)
    else (cookie, json)
