-- ===== src/Live/Sockets.antt =====
-- The websocket of a live job: the effect that opens it, with the clean-up that React calls before the
-- effect runs again, and at the end. It runs again when the job's `IsRunning` or its id has changed.
use job_mon.Base.{
  ◌∙◌, sym, ap, Bool, List, Option, ℕ, [], ◌∷◌, ◌&&◌, ◌≡◌, eqb, false, filter, none, not, some, suc,
  true, refl, arith,
}

abbrev same_flag : Option Bool → Option Bool → Bool
same_flag none none = true
same_flag (some true) (some true) = true
same_flag (some false) (some false) = true
same_flag _ _ = false

abbrev same_id : Option ℕ → Option ℕ → Bool
same_id none none = true
same_id (some m) (some n) = eqb m n
same_id _ _ = false

abbrev pub Deps : Type 0
Deps = Option Bool × Option ℕ

abbrev unchanged : Option Deps → Deps → Bool
unchanged none new = false
unchanged (some (flag, id)) (new_flag, new_id) = same_flag flag new_flag && same_id id new_id

-- `ws`, the socket that the pending clean-up holds, the sockets that are open, by their numbers, and what
-- the effect ran for.
pub record Connection : Type 0 where
  pub held : Option ℕ
  pub ws : Option ℕ
  pub open_sockets : List ℕ
  pub next : ℕ
  pub deps : Option Deps

abbrev pub unconnected : Connection
unconnected = record { held = none; ws = none; open_sockets = []; next = 0; deps = none }

abbrev close_by : Option ℕ → Connection → Connection
close_by none c = c
close_by (some n) c = record c {
  held = none;
  ws = none;
  open_sockets = filter (λ m. not (eqb m n)) c.open_sockets;
}

-- The clean-up of the effect.
unfoldable pub close_socket : Connection → Connection
close_socket c = close_by c.held c

abbrev is_true : Option Bool → Bool
is_true none = false
is_true (some b) = b

abbrev open_if : Bool → Deps → Connection → Connection
open_if true deps c = record {
  held = some c.next;
  ws = some c.next;
  open_sockets = c.next ∷ c.open_sockets;
  next = suc c.next;
  deps = some deps;
}
open_if false deps c = record c { deps = some deps }

abbrev reopen : Bool → Bool → Deps → Connection → Connection
reopen true has_metric_data deps c = c
reopen false has_metric_data deps c =
    open_if (is_true deps.0 && has_metric_data) deps (close_by c.held c)

-- The effect at a rendering: whether the job is running and has metrics, and its id.
unfoldable pub socket_effect : Bool → Deps → Connection → Connection
socket_effect has_metric_data deps c = reopen (unchanged c.deps deps) has_metric_data deps c

unfoldable pub socket_run : List (Bool × Deps) → Connection → Connection
unfolding socket_effect
socket_run [] c = c
socket_run ((has_metric_data, deps) ∷ rs) c = socket_run rs (socket_effect has_metric_data deps c)

abbrev pub opened_by : Option ℕ → List ℕ
opened_by none = []
opened_by (some n) = n ∷ []

-- The socket of the clean-up is the only one that is open, and it is the one of the state.
abbrev IsSingle : Connection → Type 0
IsSingle c = (c.open_sockets ≡ opened_by c.held) × (c.ws ≡ c.held)

abbrev IsClosed : Connection → Type 0
IsClosed c = (c.open_sockets ≡ []) × (c.ws ≡ none) × (c.held ≡ none)

closes_all :
    (held : Option ℕ) (c : Connection)
    → c.open_sockets ≡ opened_by held
    → c.ws ≡ held
    → c.held ≡ held
    → IsClosed (close_by held c)
closes_all none c opens shown e = (opens, shown, e)
closes_all (some n) c opens shown e = (rw (opens) (ground arith), refl, refl)

IsSingle-open_if :
    (test : Bool) (deps : Deps) (c : Connection) → IsClosed c → IsSingle (open_if test deps c)
IsSingle-open_if true deps c (opens, shown, e) = (ap (λ os. c.next ∷ os) opens, refl)
IsSingle-open_if false deps c (opens, shown, e) = (rw (e) opens, shown ∙ sym e)

IsSingle-reopen :
    (same has_metric_data : Bool) (deps : Deps) (c : Connection)
    → IsSingle c
    → IsSingle (reopen same has_metric_data deps c)
IsSingle-reopen true has_metric_data deps c h = h
IsSingle-reopen false has_metric_data deps c (opens, shown) =
    IsSingle-open_if (is_true deps.0 && has_metric_data) deps (close_by c.held c)
      (closes_all c.held c opens shown refl)

IsSingle-run : (rs : List (Bool × Deps)) (c : Connection) → IsSingle c → IsSingle (socket_run rs c)
unfolding socket_run socket_effect
IsSingle-run [] c h = h
IsSingle-run ((has_metric_data, deps) ∷ rs) c h =
    IsSingle-run rs (socket_effect has_metric_data deps c)
      (IsSingle-reopen (unchanged c.deps deps) has_metric_data deps c h)

-- After any renderings of a page the socket in its state is the only one that is open, or none is
-- when the state has none, and the clean-up leaves neither an open socket nor one in the state.
pub socket_run-closed :
    (rs : List (Bool × Deps))
    → (let c = socket_run rs unconnected in
        (c.open_sockets ≡ opened_by c.ws)
        × ((close_socket c).open_sockets ≡ [])
        × ((close_socket c).ws ≡ none))
unfolding close_socket
socket_run-closed rs =
    let c = socket_run rs unconnected in
    let (opens, shown) = IsSingle-run rs unconnected (refl, refl) in
    let closed = closes_all c.held c opens shown refl in
    (opens ∙ ap opened_by (sym shown), closed.0, closed.1)
