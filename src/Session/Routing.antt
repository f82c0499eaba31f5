-- ===== src/Session/Routing.antt =====
-- Where the redirects lead.
use job_mon.Base.{
  List, ap, false, inl, inr, refl, sym, true, ◌++◌, ◌↔◌, ◌∙◌, Bool, String, [], arith,
  if◌then◌else◌, none, ◌∷◌, ◌≡◌, ◌≢◌, ◌⊎◌,
}
use job_mon.Session.{
  AuthUser, Pushes, Visits, has_no_allowed_role, here, is_authenticated, my_app, push, step,
  rendering,
}
use text.Mathlib.TextEquality.{eq_iff}

-- Where a page is shown: to a visitor the login page, to a user without a role the page that says
-- so, and to all others every page but these two.
abbrev pub IsAllowed : Bool → Bool → String → Type 0
IsAllowed known barred path =
    if known
    then if barred then path ≡ "/role-error" else (path ≢ "/login") × (path ≢ "/role-error")
    else path ≡ "/login"

abbrev target : Bool → Bool → String
target known barred = if known then if barred then "/role-error" else "/jobs" else "/login"

distinct : (path : String) → path ≡ "/login" → path ≢ "/role-error"
distinct path p q = cc (p, q)

target-IsAllowed : (known barred : Bool) → IsAllowed known barred (target known barred)
target-IsAllowed true true = refl
target-IsAllowed true false = (λ e. cc e, λ e. cc e)
target-IsAllowed false barred = refl

-- What a rendering does.
routes :
    (known barred : Bool) (path : String)
    → ((rendering known barred path ≡ record { redirection_string = none; pushed = [] })
        × IsAllowed known barred path)
      ⊎ (((rendering known barred path).redirection_string ≢ none)
          × ((rendering known barred path).pushed ≡ target known barred ∷ [])
          × ¬ IsAllowed known barred path)
unfolding rendering
routes known barred path =
    ground (arith, eq_iff path "/login", eq_iff path "/role-error", distinct path)

-- `IsAllowed` of a user.
abbrev pub MaySee : AuthUser → String → Type 0
MaySee user = IsAllowed (is_authenticated user) (has_no_allowed_role user)

abbrev goal : AuthUser → String
goal user = target (is_authenticated user) (has_no_allowed_role user)

-- A page is shown exactly if the user may see it: without a session only the login page, without
-- an allowed role only the page that says so, and otherwise every page but these two.
pub shown_iff :
    (user : AuthUser) (path : String)
    → ((my_app user path).redirection_string ≡ none) ↔ MaySee user path
unfolding my_app
shown_iff user path = elim (routes (is_authenticated user) (has_no_allowed_role user) path) [
  | inl (shown, allowed) ↦ (λ _. allowed, λ _. ap (λ r. r.redirection_string) shown)
  | inr (hidden, pushed, barred) ↦ (λ e. absurd (hidden e), λ allowed. absurd (barred allowed))
]

not_in_nil : (before after : List String) (to : String) → [] ≢ before ++ to ∷ after
not_in_nil [] after to e = cc e
not_in_nil (b ∷ before) after to e = cc e

only_one : (t to : String) (before after : List String) → t ∷ [] ≡ before ++ to ∷ after → to ≡ t
only_one t to [] after e = ground arith
only_one t to (b ∷ before) after e =
    let rest : [] ≡ before ++ to ∷ after = ground arith in absurd (not_in_nil before after to rest)

Pushes-goal :
    (user : AuthUser) (path to : String)
    → Pushes user path to
    → (to ≡ goal user) × ¬ MaySee user path
unfolding my_app
Pushes-goal user path to (push _ _ before after e) =
    elim (routes (is_authenticated user) (has_no_allowed_role user) path) [
      | inl (shown, allowed) ↦
          absurd (not_in_nil before after to (sym (ap (λ r. r.pushed) shown) ∙ e))
      | inr (hidden, pushed, barred) ↦ (only_one _ to before after (sym pushed ∙ e), barred)
    ]

Visits-goal :
    (user : AuthUser) (path to : String) → Visits user path to → (to ≡ path) ⊎ (to ≡ goal user)
Visits-goal user path to (here _) = inl refl
Visits-goal user path to (step _ next _ first rest) =
    let (same, _) = Pushes-goal user path next first in
    elim (Visits-goal user next to rest) [ inl stay ↦ inr (stay ∙ same) | inr done ↦ inr done ]

-- Wherever a user goes, the redirects lead in finitely many steps to a path that the user may see
-- and that redirects no further; on the way no other path than the first and the last is visited.
pub redirects_end :
    (user : AuthUser) (path : String)
    → (end : String) × Visits user path end
      × MaySee user end
      × ((to : String) → Visits user path to → (to ≡ path) ⊎ (to ≡ end))
      × ((to : String) → ¬ Pushes user end to)
unfolding my_app
redirects_end user path = elim (routes (is_authenticated user) (has_no_allowed_role user) path) [
  | inl (shown, allowed) ↦ (
    path,
    here path,
    allowed,
    λ to v. stays to v allowed,
    λ to p. (Pushes-goal user path to p).1 allowed,
  )
  | inr (hidden, pushed, barred) ↦
      let safe = target-IsAllowed (is_authenticated user) (has_no_allowed_role user) in
      let first = push path (goal user) [] [] pushed in
      (
        goal user,
        step path (goal user) (goal user) first (here (goal user)),
        safe,
        λ to v. Visits-goal user path to v,
        λ to p. (Pushes-goal user (goal user) to p).1 safe,
      )
]
  where
    stays : (to : String) → Visits user path to → MaySee user path → (to ≡ path) ⊎ (to ≡ path)
    stays to (here _) allowed = inl refl
    stays to (step _ next _ first rest) allowed =
        absurd ((Pushes-goal user path next first).1 allowed)
