-- ===== src/Nodes/Clicks/Hosts.antt =====
-- A selection of frontend/components/jobview/Selection.tsx as a set of hosts.
use job_mon.Base.{
  All, Bool, Bool-cases, List, String, [], any, ap, arith, false, if◌then◌else◌, inl, inr, map,
  none, refl, some, sym, true, ◌&&◌, ◌==◌, ◌||◌, ◌∙◌, ◌∷◌, ◌≡◌,
}
use job_mon.Js.Object.{Object, get, has, has_own, keys, put}
use job_mon.Js.Object.Entries.{get-entry}
use job_mon.Js.Object.Laws.{IsUnique, put-IsUnique}
use job_mon.Nodes.{all_checked, check_key, check_keys, or_false, set_checked}
use job_mon.Nodes.Clicks.{Click, click, passed}
use text.Mathlib.TextEquality.{eq_iff}

-- Whether a set has all of the hosts.
abbrev pub has_all : (String → Bool) → List String → Bool
has_all marked [] = true
has_all marked (h ∷ hosts) = marked h && has_all marked hosts

abbrev pub is_host : String → List String → Bool
is_host k hosts = any (λ h. h == k) hosts

-- A selection shows the set of the chosen hosts.
abbrev pub Shows : List String → (String → Bool) → Object Bool → Type 0
Shows hosts marked items =
    IsUnique items
    × ((k : String) → get k items ≡ (if is_host k hosts then some (marked k) else none))

has_own-map :
    (v : Bool) (k : String) (o : Object Bool) → has_own k (map (λ e. (e.0, v)) o) ≡ has_own k o
unfolding has_own
has_own-map v k [] = refl
has_own-map v k ((j, w) ∷ o) = ap (λ t. j == k || t) (has_own-map v k o)

map-IsUnique : (v : Bool) (o : Object Bool) → IsUnique o → IsUnique (map (λ e. (e.0, v)) o)
map-IsUnique v [] u = tt
map-IsUnique v ((k, w) ∷ o) u = (has_own-map v k o ∙ u.0, map-IsUnique v o u.1)

check_keys-IsUnique :
    (val selection : Object Bool) (ks : List String) (new : Object Bool)
    → IsUnique new
    → IsUnique (check_keys val selection ks new)
unfolding check_keys check_key
check_keys-IsUnique val selection [] new u = u
check_keys-IsUnique val selection (k ∷ ks) new u =
    check_keys-IsUnique val selection ks (check_key val selection k new)
      (checked (k == "all") (has k selection))
  where
    checked :
        (all own : Bool)
        → IsUnique (
            if all
            then map (λ e. (e.0, or_false (get k val))) new
            else if own
            then put k (or_false (get k val)) new
            else new)
    checked true own = map-IsUnique (or_false (get k val)) new u
    checked false true = put-IsUnique k (or_false (get k val)) new u
    checked false false = u

pub click-IsUnique :
    (prefix : String) (items : Object Bool) (event : Click)
    → IsUnique items
    → IsUnique (click true prefix items event)
unfolding click set_checked
click-IsUnique prefix items event u =
    check_keys-IsUnique (passed prefix items event) items (keys (passed prefix items event)) items u

all_checked-get :
    (o : Object Bool) (k : String) (v : Bool) → all_checked o ≡ true → get k o ≡ some v → v ≡ true
unfolding all_checked get
all_checked-get [] k v h e = absurd (cc e)
all_checked-get ((j, w) ∷ o) k v h e = let rest = all_checked-get o k v in ground arith

entries-all_checked : (o : Object Bool) → All (λ e. e.1 ≡ true) o → all_checked o ≡ true
unfolding all_checked
entries-all_checked [] h = refl
entries-all_checked ((k, v) ∷ o) h = rw (h.0) (entries-all_checked o h.1)

has_all-host :
    (marked : String → Bool) (hosts : List String) (k : String)
    → has_all marked hosts ≡ true
    → is_host k hosts ≡ true
    → marked k ≡ true
has_all-host marked [] k h e = absurd (cc e)
has_all-host marked (j ∷ hosts) k h e = elim (Bool-cases (j == k)) [
  | inl same ↦
      let same_host : j ≡ k = ground (arith, same, eq_iff j k) in
      ground (arith, h, ap marked same_host)
  | inr other ↦ let rest = has_all-host marked hosts k in ground arith
]

host-has_all :
    (marked : String → Bool) (hosts : List String)
    → ((k : String) → is_host k hosts ≡ true → marked k ≡ true)
    → has_all marked hosts ≡ true
host-has_all marked [] h = refl
host-has_all marked (j ∷ hosts) h =
    let first = h j (ground (arith, eq_iff j j)) in
    let rest = host-has_all marked hosts (λ k e. h k (ground arith)) in rw first rest

entries_true :
    (o p : Object Bool)
    → ((k : String) (v : Bool) → get k o ≡ some v → v ≡ true)
    → All (λ e. get e.0 o ≡ some e.1) p
    → All (λ e. e.1 ≡ true) p
entries_true o [] h g = tt
entries_true o ((k, v) ∷ p) h g = (h k v g.0, entries_true o p h g.1)

shown_true :
    (host marked v : Bool)
    → (host ≡ true → marked ≡ true)
    → (if host then some marked else none) ≡ some v
    → v ≡ true
shown_true true marked v h e = ground (arith, h refl)
shown_true false marked v h e = absurd (cc e)

pub same_all :
    (hosts : List String) (marked : String → Bool) (items : Object Bool)
    → Shows hosts marked items
    → all_checked items ≡ has_all marked hosts
same_all hosts marked items (u, got) = elim (Bool-cases (has_all marked hosts)) [
  | inl all ↦
      entries-all_checked items (
        entries_true items items
          (λ k v e.
            shown_true (is_host k hosts) (marked k) v (has_all-host marked hosts k all)
              (sym (got k) ∙ e))
          (get-entry items u))
      ∙ sym all
  | inr some_not ↦ elim (Bool-cases (all_checked items)) [
    | inl all ↦
        let each =
          host-has_all marked hosts
            (λ k e. all_checked-get items k (marked k) all (got k ∙ rw e refl)) in
        absurd (cc (each, some_not))
    | inr other ↦ other ∙ sym some_not
  ]
]
