-- ===== src/Users/Saving.antt =====
-- Whose roles are saved.
use job_mon.Users.{
  initial_view, is_shown, save_of, UserRequest, UserRoles, UsersView, load_user, receive_update,
  receive_user, update_user,
}
use job_mon.Base.{
  ◌⊎◌, List, Option, String, [], ◌∷◌, ◌++◌, ◌==◌, ◌≡◌, ◌≢◌, ◌∙◌, arith, false, none, some, refl,
  sym, ap, eq_iff, Bool-cases, inl, inr,
}
use job_mon.Users.{rest_of}
use mathlib.Core.Path.{subst}

-- An answer is about a name, if it brings a user.
abbrev pub IsAbout : Option String → Option UserRoles → Type 0
IsAbout name none = Unit
IsAbout name (some user) = name ≡ some user.username

-- A user loads a name, the backend answers the first request that waits, and a save is answered before
-- anything else happens.
pub data Step : UsersView → UsersView → Type 0 where
  loads : (name : String) (s : UsersView) → name ≢ "" → Step s (load_user name s)
  answers :
      (name : String) (rest : List String) (answer : Option UserRoles) (s : UsersView)
      → s.pending ≡ name ∷ rest
      → IsAbout (some name) answer
      → Step s (receive_user answer s)
  saves :
      (roles : List String) (r : UserRequest) (answer : Option UserRoles) (s : UsersView)
      → s.pending ≡ []
      → update_user roles s ≡ some r
      → IsAbout r.name answer
      → Step s (receive_update answer s)

pub data Reaches : UsersView → UsersView → Type 0 where
  done : (s : UsersView) → Reaches s s
  more : (s t u : UsersView) → Step s t → Reaches t u → Reaches s u

abbrev last_name : String → List String → String
last_name name [] = name
last_name name (n ∷ ns) = last_name n ns

last_name-append : (name new : String) (ns : List String) → last_name name (ns ++ new ∷ []) ≡ new
last_name-append name new [] = refl
last_name-append name new (n ∷ ns) = last_name-append n new ns

-- The name of the view is the last one that was asked for, and that of the user if none waits.
abbrev IsCurrent : Option String → Option UserRoles → List String → Type 0
IsCurrent name user [] = IsAbout name user
IsCurrent name user (n ∷ ns) = name ≡ some (last_name n ns)

IsCurrent-append :
    (name : String) (user : Option UserRoles) (ns : List String)
    → IsCurrent (some name) user (ns ++ name ∷ [])
IsCurrent-append name user [] = refl
IsCurrent-append name user (n ∷ ns) = ap some (sym (last_name-append n name ns))

abbrev Holds : UsersView → Type 0
Holds s = IsCurrent s.username s.user s.pending

load_user-cases :
    (name : String) (s : UsersView)
    → name ≢ ""
    → (load_user name s ≡ s)
      ⊎ (load_user name s
          ≡ record { username = some name; user = s.user; pending = s.pending ++ name ∷ [] })
unfolding load_user
load_user-cases name s h =
    let named : (name == "") ≡ false = ground (arith, h, eq_iff name "") in
    elim (Bool-cases (is_shown s.username name)) [
      | inl same ↦ inl (rw same refl)
      | inr other ↦ inr (rw (other, named) refl)
    ]

Holds-load : (name : String) (s : UsersView) → name ≢ "" → Holds s → Holds (load_user name s)
Holds-load name s h c = elim (load_user-cases name s h) [
  | inl same ↦ subst Holds (sym same) c
  | inr asked ↦ subst Holds (sym asked) (IsCurrent-append name s.user s.pending)
]

IsCurrent-answer :
    (name : String) (rest : List String) (shown : Option String) (user answer : Option UserRoles)
    → IsAbout (some name) answer
    → IsCurrent shown user (name ∷ rest)
    → IsCurrent shown answer rest
IsCurrent-answer name [] shown user none a c = tt
IsCurrent-answer name [] shown user (some u) a c = c ∙ a
IsCurrent-answer name (n ∷ ns) shown user answer a c = c

saved :
    (name : Option String) (roles : List String) (user : Option UserRoles) (r : UserRequest)
    → IsAbout name user
    → save_of name roles user ≡ some r
    → (r.name ≡ name) × (r.name ≡ some r.body.username) × (r.body.roles ≡ roles)
saved name roles none r c e = absurd (cc e)
saved name roles (some user) r c e =
    let same : record { name = name; body = record { username = user.username; roles = roles } }
        ≡ r =
      ground arith in
    subst (λ q. (q.name ≡ name) × (q.name ≡ some q.body.username) × (q.body.roles ≡ roles)) same
      (refl, c, refl)

Holds-Step : (s t : UsersView) → Step s t → Holds s → Holds t
unfolding receive_user receive_update update_user
Holds-Step s _ (loads name _ h) c = Holds-load name s h c
Holds-Step s _ (answers name rest answer _ p a) c =
    subst (λ ps. IsCurrent s.username answer (rest_of ps)) (sym p)
      (IsCurrent-answer name rest s.username s.user answer a
        (subst (IsCurrent s.username s.user) p c))
Holds-Step s _ (saves roles r none _ p e a) c = c
Holds-Step s _ (saves roles r (some u) _ p e a) c =
    let about : IsAbout s.username s.user = subst (IsCurrent s.username s.user) p c in
    let (same, _, _) = saved s.username roles s.user r about e in
    subst (IsCurrent s.username (some u)) (sym p) (sym same ∙ a)

Holds-Reaches : (s t : UsersView) → Reaches s t → Holds s → Holds t
Holds-Reaches s t (done _) h = h
Holds-Reaches s t (more _ u _ first rest) h = Holds-Reaches u t rest (Holds-Step s u first h)

pub update_user-target :
    (s : UsersView) (roles : List String) (r : UserRequest)
    → Reaches initial_view s
    → s.pending ≡ []
    → update_user roles s ≡ some r
    → (r.name ≡ some r.body.username) × (r.body.roles ≡ roles)
unfolding update_user
update_user-target s roles r reached p e =
    let about : IsAbout s.username s.user =
      subst (IsCurrent s.username s.user) p (Holds-Reaches initial_view s reached tt) in
    let (_, target, kept) = saved s.username roles s.user r about e in (target, kept)
