-- ===== src/Nodes/Clicks/Refining.antt =====
-- The events of the selection, against a set of hosts.
use job_mon.Nodes.Clicks.Hosts.{Shows, click-IsUnique, has_all, is_host, same_all}
use job_mon.Js.Text.{split}
use job_mon.Base.{
  All, Bool, List, String, [], any, ap, arith, false, if◌then◌else◌, none, not, refl, some, true,
  ◌==◌, ◌∙◌, ◌∷◌, ◌≡◌,
}
use job_mon.Js.Object.{Object, get, put}
use job_mon.Js.Object.Laws.{get-put}
use job_mon.Js.Object.Places.{has_own-is_some}
use job_mon.Nodes.{all_host_selection, put_all}
use job_mon.Nodes.Clicks.{
  IsOffered, checks, click-get, clicks, Click, click, on_button, on_node, on_text,
}
use job_mon.Nodes.Selecting.{put_all-IsUnique, IsPlain, names_of}
use mathlib.Core.Option

-- What an event does to the set of the chosen hosts.
abbrev pub choose : String → List String → (String → Bool) → Click → String → Bool
choose prefix hosts marked on_button k = not (has_all marked hosts)
choose prefix hosts marked (on_node n) k = if n == k then not (marked k) else marked k
choose prefix hosts marked (on_text str) k = any (λ n. n == k) (names_of str prefix)

abbrev pub choose_run : String → List String → (String → Bool) → List Click → String → Bool
choose_run prefix hosts marked [] = marked
choose_run prefix hosts marked (e ∷ es) = choose_run prefix hosts (choose prefix hosts marked e) es

-- Events on the hosts of a job.
abbrev pub IsPossible : String → List String → Click → Type 0
IsPossible prefix hosts on_button = Unit
IsPossible prefix hosts (on_node n) = (is_host n hosts ≡ true) × ((n == "all") ≡ false)
IsPossible prefix hosts (on_text str) = All IsPlain (names_of str prefix)

offered :
    (prefix : String) (hosts : List String) (marked : String → Bool) (items : Object Bool)
    (event : Click)
    → Shows hosts marked items
    → IsPossible prefix hosts event
    → IsOffered prefix items event
offered prefix hosts marked items on_button shown h = tt
offered prefix hosts marked items (on_node n) (u, got) (host, other) =
    (has_own-is_some n items ∙ rw (got n, host) refl, other)
offered prefix hosts marked items (on_text str) shown h = h

checks-choose :
    (prefix : String) (hosts : List String) (marked : String → Bool) (items : Object Bool)
    (event : Click) (k : String)
    → Shows hosts marked items
    → checks prefix items event k (marked k) ≡ choose prefix hosts marked event k
checks-choose prefix hosts marked items on_button k shown =
    ap not (same_all hosts marked items shown)
checks-choose prefix hosts marked items (on_node n) k shown = refl
checks-choose prefix hosts marked items (on_text str) k shown = refl

map_shown :
    (f : Bool → Bool) (host marked : Bool)
    → Option.map f (if host then some marked else none) ≡ (if host then some (f marked) else none)
map_shown f true marked = refl
map_shown f false marked = refl

Shows-click :
    (prefix : String) (hosts : List String) (marked : String → Bool) (items : Object Bool)
    (event : Click)
    → Shows hosts marked items
    → IsPossible prefix hosts event
    → Shows hosts (choose prefix hosts marked event) (click true prefix items event)
Shows-click prefix hosts marked items event (u, got) h = (
  click-IsUnique prefix items event u,
  λ k.
      click-get prefix items event k (offered prefix hosts marked items event (u, got) h)
      ∙ ap (Option.map (checks prefix items event k)) (got k)
      ∙ map_shown (checks prefix items event k) (is_host k hosts) (marked k)
      ∙ ap (λ v. if is_host k hosts then some v else none)
          (checks-choose prefix hosts marked items event k (u, got)),
)

Shows-clicks :
    (prefix : String) (hosts : List String) (marked : String → Bool) (items : Object Bool)
    (events : List Click)
    → Shows hosts marked items
    → All (IsPossible prefix hosts) events
    → Shows hosts (choose_run prefix hosts marked events) (clicks true prefix items events)
unfolding clicks
Shows-clicks prefix hosts marked items [] shown h = shown
Shows-clicks prefix hosts marked items (e ∷ es) shown h =
    Shows-clicks prefix hosts (choose prefix hosts marked e) (click true prefix items e) es
      (Shows-click prefix hosts marked items e shown h.0) h.1

get-put_all :
    (k : String) (ks : List String) (o : Object Bool)
    → get k (put_all true ks o) ≡ (if is_host k ks then some true else get k o)
unfolding put_all
get-put_all k [] o = refl
get-put_all k (j ∷ ks) o = ground (arith, get-put_all k ks (put j true o), get-put j k true o)

-- From the selection of all hosts on, where the selection is allowed, any clicks on nodes of the
-- job, clicks on the button and texts of plain names leave it at the set of hosts that the same
-- events make of a set: the button takes all hosts, or none if it had all, a click on a node
-- moves that one in or out, and a text takes the hosts that it names. No host is added or lost.
pub clicks-refine :
    (prefix node_list : String) (events : List Click)
    → (let hosts = split b'|' node_list in
        All (IsPossible prefix hosts) events
        → (k : String)
        → get k (clicks true prefix (all_host_selection node_list) events)
          ≡ (if is_host k hosts then some (choose_run prefix hosts (λ _. true) events k) else none))
unfolding all_host_selection get
clicks-refine prefix node_list events h =
    let hosts = split b'|' node_list in
    (Shows-clicks prefix hosts (λ _. true) (put_all true hosts []) events
      (put_all-IsUnique hosts [] tt, λ k. get-put_all k hosts []) h).1
