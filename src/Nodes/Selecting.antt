-- ===== src/Nodes/Selecting.antt =====
-- The text field selects the named nodes, and no others.
use job_mon.Js.Text.{split}
use job_mon.Js.Object.Entries.{get-entry, keys-plain}
use job_mon.Base.{
  Option, ap, if◌then◌else◌, map, some, ◌&&◌, ◌∙◌, All, Bool, Bool-cases, List, String, [], any,
  arith, false, inl, inr, none, refl, true, ◌==◌, ◌||◌, ◌∷◌, ◌≡◌,
}
use job_mon.Js.Object.{get, has, Object, has_own, index_of, is_inherited, put}
use job_mon.Js.Object.Laws.{get-put, get-miss, IsUnique, has_own-put, put-IsUnique, put-miss}
use job_mon.Nodes.{
  flat_map_parts, node_name, parse_selection, check_key, check_keys, set_checked, put_all,
}
use text.Mathlib.TextEquality.{eq_iff}

-- A name that is listed after "all" and is no inherited one.
abbrev pub IsPlain : String → Type 0
IsPlain n = (index_of n ≡ none) × ((n == "all") ≡ false) × (is_inherited n ≡ false)

abbrev Marked : String × Bool → Type 0
Marked e = (e.1 ≡ true) × IsPlain e.0

All-put : (n : String) (o : Object Bool) → IsPlain n → All Marked o → All Marked (put n true o)
unfolding put
All-put n [] p h = ((refl, p), tt)
All-put n ((k, v) ∷ o) p h = elim (Bool-cases (k == n)) [
  | inl same ↦ rw (same, put) ((refl, h.0.1), h.1)
  | inr other ↦ rw (other, put) (h.0, All-put n o p h.1)
]

All-put_all :
    (names : List String) (o : Object Bool)
    → All IsPlain names
    → All Marked o
    → All Marked (put_all true names o)
unfolding put_all
All-put_all [] o p h = h
All-put_all (n ∷ names) o p h = All-put_all names (put n true o) p.1 (All-put n o p.0 h)

pub put_all-IsUnique :
    (names : List String) (o : Object Bool) → IsUnique o → IsUnique (put_all true names o)
unfolding put_all
put_all-IsUnique [] o u = u
put_all-IsUnique (n ∷ names) o u = put_all-IsUnique names (put n true o) (put-IsUnique n true o u)

has_own-put_all :
    (k : String) (names : List String) (o : Object Bool)
    → has_own k (put_all true names o) ≡ (any (λ n. n == k) names || has_own k o)
unfolding put_all
has_own-put_all k [] o = refl
has_own-put_all k (n ∷ names) o =
    ground (arith, has_own-put_all k names (put n true o), has_own-put n k true o)

-- The names come after "all".
put_all-after :
    (names : List String) (o : Object Bool)
    → All IsPlain names
    → put_all true names (("all", false) ∷ o) ≡ ("all", false) ∷ put_all true names o
unfolding put_all
put_all-after [] o p = refl
put_all-after (n ∷ names) o p =
    let other : ("all" == n) ≡ false = ground (arith, eq_iff n "all", eq_iff "all" n, p.0) in
    rw (put-miss n "all" false o true other) (put_all-after names (put n true o) p.1)

-- The keys of `rest`, each with the value that the map has for it.
abbrev Ready : Object Bool → String → Type 0
Ready val k = (get k val ≡ some true) × IsPlain k

Marked-keys :
    (val rest : Object Bool)
    → All Marked rest
    → All (λ e. get e.0 val ≡ some e.1) rest
    → All (Ready val) (map (λ e. e.0) rest)
Marked-keys val [] m g = tt
Marked-keys val ((k, v) ∷ rest) m g =
    let found = g.0 in
    let yes = m.0.0 in ((found ∙ ap some yes, m.0.1), Marked-keys val rest m.1 g.1)

entries_after :
    (rest o : Object Bool)
    → All Marked rest
    → All (λ e. get e.0 o ≡ some e.1) rest
    → All (λ e. get e.0 (("all", false) ∷ o) ≡ some e.1) rest
entries_after [] o m g = tt
entries_after ((k, v) ∷ rest) o m g =
    let other : ("all" == k) ≡ false = ground (arith, eq_iff k "all", eq_iff "all" k, m.0.1.1) in
    (get-miss k "all" false o other ∙ g.0, entries_after rest o m.1 g.1)

check_key-get :
    (val selection : Object Bool) (k j : String) (new : Object Bool)
    → Ready val k
    → get j (check_key val selection k new)
      ≡ (if k == j && has_own j selection then some true else get j new)
unfolding check_key has
check_key-get val selection k j new r =
    let found = r.0 in
    let other = r.1.1 in
    let clean = r.1.2 in rw (other, found, clean) (ground (arith, eq_iff k j, get-put k j true new))

check_keys-get :
    (val selection : Object Bool) (j : String) (ks : List String) (new : Object Bool)
    → All (Ready val) ks
    → get j (check_keys val selection ks new)
      ≡ (if any (λ k. k == j) ks && has_own j selection then some true else get j new)
unfolding check_keys
check_keys-get val selection j [] new r = refl
check_keys-get val selection j (k ∷ ks) new r = ground (
  arith,
  check_keys-get val selection j ks (check_key val selection k new) r.1,
  check_key-get val selection k j new r.0,
)

any-keys : (j : String) (o : Object Bool) → any (λ k. k == j) (map (λ e. e.0) o) ≡ has_own j o
unfolding has_own
any-keys j [] = refl
any-keys j ((k, v) ∷ o) = ap (λ t. k == j || t) (any-keys j o)

plain_keys : (o : Object Bool) → All Marked o → All (λ e. index_of e.0 ≡ none) o
plain_keys [] m = tt
plain_keys ((k, v) ∷ o) m = (m.0.1.0, plain_keys o m.1)

all_plain : index_of "all" ≡ none
unfolding index_of
all_plain = refl

get-cleared :
    (k : String) (o : Object Bool)
    → get k (map (λ e. (e.0, false)) o) ≡ (if has_own k o then some false else none)
unfolding get has_own
get-cleared k [] = refl
get-cleared k ((j, w) ∷ o) = ground (arith, get-cleared k o)

selected_value :
    (names : List String) (selection : Object Bool) (k : String) {o : Option Bool}
    → o ≡ (
        if any (λ n. n == k) (map (λ e. e.0) (put_all true names [])) && has_own k selection
        then some true
        else get k (map (λ e. (e.0, false)) selection))
    → o ≡ (if has_own k selection then some (any (λ n. n == k) names) else none)
unfolding has_own
selected_value names selection k e = ground (
  arith,
  e,
  get-cleared k selection,
  any-keys k (put_all true names []),
  has_own-put_all k names [],
)

put_all-selects :
    (names : List String) (selection : Object Bool)
    → All IsPlain names
    → (s : Object Bool) × (set_checked (put_all true names (put "all" false [])) (some selection)
        ≡ some s)
      × ((k : String)
          → get k s ≡ (if has_own k selection then some (any (λ n. n == k) names) else none))
unfolding set_checked check_keys check_key put get
put_all-selects names selection p =
    let rest = put_all true names [] in
    let val = ("all", false) ∷ rest in
    let named = map (λ e. e.0) rest in
    let marked = All-put_all names [] p tt in
    let found = entries_after rest rest marked (get-entry rest (put_all-IsUnique names [] tt)) in
    let ready = Marked-keys val rest marked found in
    let order = keys-plain val (all_plain, plain_keys rest marked) in
    let start = map (λ e. (e.0, false)) selection in
    (
      check_keys val selection named start,
      rw (put_all-after names [] p, order) refl,
      λ k. selected_value names selection k (check_keys-get val selection k named start ready),
    )

-- The nodes that the words of a text name.
abbrev pub names_of : String → String → List String
names_of str prefix = map (node_name prefix) (flat_map_parts (split b' ' str))

-- If no name is listed before "all" as an index, is "all" itself or is an inherited name, the
-- text of the selection field selects exactly those nodes of the job that its words name: every
-- other one is deselected, and none is added.
pub text-selects :
    (str prefix : String) (selection : Object Bool)
    → All IsPlain (names_of str prefix)
    → (s : Object Bool) × (set_checked (parse_selection str prefix) (some selection) ≡ some s)
      × ((k : String)
          → get k s ≡ (
              if has_own k selection then some (any (λ n. n == k) (names_of str prefix)) else none))
unfolding parse_selection
text-selects str prefix selection p = put_all-selects (names_of str prefix) selection p
