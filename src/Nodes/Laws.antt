-- ===== src/Nodes/Laws.antt =====
-- What a click on a node and the button "Select all" do.
use job_mon.Js.Object.Entries.{keys-single}
use job_mon.Js.Object.Laws.{get-put}
use job_mon.Base.{
  Bool-cases, List, inl, inr, ltb, ltb→lt, length, ◌<◌, Bool, String, [], arith, false,
  if◌then◌else◌, map, refl, some, true, ◌==◌, ◌∷◌, ◌≡◌,
}
use job_mon.Js.Object.{put, Object, get, has, has_own, keys}
use job_mon.Nodes.{only, node, selected, check_key, check_keys, set_checked}
use mathlib.Core.Option
use text.Mathlib.TextPositions.{eq_refl}

get-all :
    (v : Bool) (k : String) (o : Object Bool)
    → get k (map (λ e. (e.0, v)) o) ≡ Option.map (λ _. v) (get k o)
unfolding get
get-all v k [] = refl
get-all v k ((j, w) ∷ o) = ground (arith, get-all v k o)

-- Checking one node of the job, which is not called "all", sets that node and keeps every other
-- one.
pub set_checked-node :
    (n : String) (v : Bool) (selection : Object Bool)
    → (n == "all") ≡ false
    → has_own n selection ≡ true
    → (s : Object Bool) × (set_checked ((n, v) ∷ []) (some selection) ≡ some s)
      × ((k : String) → get k s ≡ (if n == k then some v else get k selection))
unfolding set_checked check_keys check_key has get
set_checked-node n v selection other own = (
  put n v selection,
  rw (keys-single n v, check_keys, check_key, other, own, eq_refl n) refl,
  λ k. get-put n k v selection,
)

-- Checking "all" gives every node of the selection the value, and adds no node.
pub set_checked-all :
    (v : Bool) (selection : Object Bool)
    → (s : Object Bool) × (set_checked (("all", v) ∷ []) (some selection) ≡ some s)
      × ((k : String) → get k s ≡ Option.map (λ _. v) (get k selection))
unfolding set_checked check_keys check_key get
set_checked-all v selection = (map (λ e. (e.0, v)) selection, refl, λ k. get-all v k selection)

only-single : (xs : List String) (n : String) → only xs ≡ some n → xs ≡ n ∷ []
only-single [] n e = absurd (cc e)
only-single (x ∷ []) n e = ground arith
only-single (x ∷ y ∷ xs) n e = absurd (cc e)

-- If the page shows the data of one node, the job has several nodes and this one is the only
-- selected one.
pub node-selected :
    (selection : Object Bool) (n : String)
    → node (some selection) ≡ some n
    → (1 < length (keys selection)) × (selected selection ≡ n ∷ [])
unfolding node
node-selected selection n e = elim (Bool-cases (ltb 1 (length (keys selection)))) [
  | inl several ↦ (
    ltb→lt 1 (length (keys selection)) several,
    only-single (selected selection) n (rw (several, node) at e),
  )
  | inr one ↦ absurd (cc (rw (one, node) at e))
]
