-- ===== src/Nodes/Clicks.antt =====
-- The events of frontend/components/jobview/Selection.tsx: its button, its nodes and its text field, with
-- what they pass to `setChecked`.
pub mod Hosts
pub mod Refining
use job_mon.Js.Object.Places.{has_own-is_some}
use job_mon.Base.{
  List, Bool-cases, ap, inl, inr, All, Bool, Option, String, [], any, arith, false, if◌then◌else◌,
  is_some, none, not, refl, some, true, ◌==◌, ◌∙◌, ◌∷◌, ◌≡◌,
}
use job_mon.Js.Object.{Object, get, has_own, put}
use job_mon.Nodes.{all_checked, or_false, parse_selection, set_checked}
use job_mon.Nodes.Laws.{set_checked-all, set_checked-node}
use job_mon.Nodes.Selecting.{IsPlain, names_of, text-selects}
use mathlib.Core.Option
use mathlib.Core.Path.{subst}
use text.Mathlib.TextEquality.{eq_iff}

pub data Click : Type 0 where
  on_button : Click
  on_node : String → Click
  on_text : String → Click

-- What is passed to `setChecked` when the nodes `items` are drawn.
unfoldable pub passed : String → Object Bool → Click → Object Bool
unfolding all_checked put get parse_selection
passed prefix items on_button = put "all" (not (all_checked items)) []
passed prefix items (on_node n) = put n (not (or_false (get n items))) []
passed prefix items (on_text str) = parse_selection str prefix

abbrev pub or_items : Object Bool → Option (Object Bool) → Object Bool
or_items items none = items
or_items items (some s) = s

-- The selection after an event. Where it is not allowed, the button and the field are not drawn, and
-- the nodes have a handler that does nothing.
unfoldable pub click : Bool → String → Object Bool → Click → Object Bool
unfolding set_checked passed
click selection_allowed prefix items event =
    if selection_allowed
    then or_items items (set_checked (passed prefix items event) (some items))
    else items

unfoldable pub clicks : Bool → String → Object Bool → List Click → Object Bool
unfolding click
clicks selection_allowed prefix items [] = items
clicks selection_allowed prefix items (e ∷ es) =
    clicks selection_allowed prefix (click selection_allowed prefix items e) es

-- The label of the button.
unfoldable pub button_label : Object Bool → String
unfolding all_checked
button_label items = if all_checked items then "Select None" else "Select All"

-- The events that can happen: a click on a node of the job, whose name is not "all", and a text of
-- plain names.
abbrev pub IsOffered : String → Object Bool → Click → Type 0
IsOffered prefix items on_button = Unit
IsOffered prefix items (on_node n) = (has_own n items ≡ true) × ((n == "all") ≡ false)
IsOffered prefix items (on_text str) = All IsPlain (names_of str prefix)

-- Whether a node with the check mark `v` has one afterwards.
abbrev pub checks : String → Object Bool → Click → String → Bool → Bool
checks prefix items on_button k v = not (all_checked items)
checks prefix items (on_node n) k v = if n == k then not v else v
checks prefix items (on_text str) k v = any (λ n. n == k) (names_of str prefix)

flipped : (o : Option Bool) → is_some o ≡ true → some (not (or_false o)) ≡ Option.map (λ v. not v) o
flipped none h = absurd (cc h)
flipped (some v) h = refl

kept : (o : Option Bool) → o ≡ Option.map (λ v. v) o
kept none = refl
kept (some v) = refl

named :
    (v : Bool) (k : String) (items : Object Bool)
    → (if has_own k items then some v else none) ≡ Option.map (λ _. v) (get k items)
named v k items = rw (has_own-is_some k items) (of (get k items))
  where
    of : (o : Option Bool) → (if is_some o then some v else none) ≡ Option.map (λ _. v) o
    of none = refl
    of (some w) = refl

toggled :
    (n k : String) (items : Object Bool)
    → has_own n items ≡ true
    → (if n == k then some (not (or_false (get n items))) else get k items)
      ≡ Option.map (λ v. if n == k then not v else v) (get k items)
toggled n k items own = elim (Bool-cases (n == k)) [
  | inl same ↦
      let e : n ≡ k = ground (arith, same, eq_iff n k) in
      rw same (
        subst (λ j. some (not (or_false (get n items))) ≡ Option.map (λ v. not v) (get j items)) e
          (flipped (get n items) (rw (has_own-is_some n items) at own)))
  | inr other ↦ rw other (kept (get k items))
]

-- After an event that is offered a node has a check mark as `checks` says, and no node is added or lost.
pub click-get :
    (prefix : String) (items : Object Bool) (event : Click) (k : String)
    → IsOffered prefix items event
    → get k (click true prefix items event) ≡ Option.map (checks prefix items event k) (get k items)
unfolding click passed put set_checked
click-get prefix items on_button k h =
    let (s, same, got) = set_checked-all (not (all_checked items)) items in
    ap (λ o. get k (or_items items o)) same ∙ got k
click-get prefix items (on_node n) k (own, other) =
    let (s, same, got) = set_checked-node n (not (or_false (get n items))) items other own in
    ap (λ o. get k (or_items items o)) same ∙ got k ∙ toggled n k items own
click-get prefix items (on_text str) k h =
    let (s, same, got) = text-selects str prefix items h in
    ap (λ o. get k (or_items items o)) same
    ∙ got k
    ∙ named (any (λ n. n == k) (names_of str prefix)) k items
