-- ===== src/Nodes.antt =====
-- The selection of nodes on the page of a job: `selection`, `node` and `setChecked` of
-- frontend/pages/job/[id].tsx, and the text field of frontend/components/jobview/Selection.tsx.
pub mod Laws
pub mod Parsing
pub mod Selecting
pub mod Clicks
pub mod HostNames
mod Tests
use job_mon.Base.{◌>>=◌}
use job_mon.Base.{
  Bool, List, Option, String, [], eqb, false, filter, if◌then◌else◌, length, ltb, map, none, some,
  suc, true, zero, ℕ, ◌&&◌, ◌++◌, ◌+◌, ◌-◌, ◌==◌, ◌||◌, ◌∷◌,
}
use job_mon.Js.Object.{Object, codes, decimal, get, has, is_digit, keys, put}
use job_mon.Js.Text.{split}
use job_mon.Js.Text.Decimal.{numeral, value}
use job_mon.Session.{here}
use Prim.Native.Char.{Char, code}
use Prim.Native.String

-- The effect on `NodeList`: all hosts are selected.
unfoldable pub put_all : Bool → List String → Object Bool → Object Bool
put_all v [] o = o
put_all v (k ∷ ks) o = put_all v ks (put k v o)

unfoldable pub all_host_selection : String → Object Bool
unfolding put_all split
all_host_selection node_list = put_all true (split b'|' node_list) []

abbrev pub or_false : Option Bool → Bool
or_false none = false
or_false (some v) = v

-- `selected`, of a selection that is there.
unfoldable pub selected : Object Bool → List String
unfolding keys get
selected selection = filter (λ val. or_false (get val selection)) (keys selection)

-- `node`: the node whose data is shown, if it is the only selected one of several.
abbrev pub only : List String → Option String
only (k ∷ []) = some k
only _ = none

unfoldable pub node : Option (Object Bool) → Option String
unfolding selected
node none = none
node (some selection) = if ltb 1 (length (keys selection)) then only (selected selection) else none

-- One round of the loop of `setChecked`; `new` is the copy of the selection.
unfoldable pub check_key : Object Bool → Object Bool → String → Object Bool → Object Bool
check_key val selection key new =
    let v = or_false (get key val) in
    if key == "all"
    then map (λ e. (e.0, v)) new
    else if has key selection
    then put key v new
    else new

unfoldable pub check_keys : Object Bool → Object Bool → List String → Object Bool → Object Bool
unfolding check_key
check_keys val selection [] new = new
check_keys val selection (k ∷ ks) new = check_keys val selection ks (check_key val selection k new)

-- `setChecked`: the selection afterwards. Every call of `setSelection` passes the same object.
unfoldable pub set_checked : Object Bool → Option (Object Bool) → Option (Object Bool)
unfolding check_keys keys
set_checked val none = none
set_checked val (some selection) = some (check_keys val selection (keys val) selection)

-- `allChecked` of `Selection`; its button checks `{ all: !allChecked }`.
unfoldable pub all_checked : Object Bool → Bool
all_checked [] = true
all_checked ((k, v) ∷ items) = v && all_checked items

-- The digits that a text starts with, and the rest.
unfoldable pub span_digits : String → String × String
span_digits String.[] = ("", "")
span_digits (String.◌∷◌ c s) =
    let parts = span_digits s in
    if is_digit (code c) then (String.◌∷◌ c parts.0, parts.1) else ("", String.◌∷◌ c s)

-- What follows one character, if the text starts with it.
abbrev after : ℕ → String → Option String
after sep String.[] = none
after sep (String.◌∷◌ c s) = if eqb (code c) sep then some s else none

-- The named groups of the regular expression.
pub data Match : Type 0 where
  range : String → String → Match
  single : String → Match

-- `\[\d+-\d+\]` at the start of a text.
unfoldable pub range_here : String → Option Match
unfolding span_digits
range_here s = do
  opened ← after b'[' s
  let lower = span_digits opened
  dashed ← after b'-' lower.1
  let upper = span_digits dashed
  rest ← after b']' upper.1
  if lower.0 == "" || upper.0 == "" then none else some (range lower.0 upper.0)

-- `\d+` at the start of a text.
unfoldable pub single_here : String → Option Match
unfolding span_digits
single_here s =
    let figures = span_digits s in if figures.0 == "" then none else some (single figures.0)

abbrev or_match : Option Match → Option Match → Option Match
or_match none other = other
or_match (some m) other = some m

-- `s.match(...)`: the first place where one of the alternatives matches, the range first.
unfoldable pub first_match : String → Option Match
unfolding range_here single_here
first_match String.[] = none
first_match (String.◌∷◌ c s) =
    let here = String.◌∷◌ c s in
    or_match (range_here here) (or_match (single_here here) (first_match s))

-- `for (let i = lower; i <= upper; i++)`, by the number of rounds.
unfoldable pub count_up : ℕ → ℕ → List String
unfolding numeral
count_up zero i = []
count_up (suc rounds) i = numeral i ∷ count_up rounds (i + 1)

abbrev pub between : Option ℕ → Option ℕ → List String
between none upper = []
between (some lower) none = []
between (some lower) (some upper) = count_up (upper + 1 - lower) lower

abbrev nodes_of : Option Match → List String
nodes_of none = []
nodes_of (some (single s)) = s ∷ []
nodes_of (some (range lower upper)) = between (value lower) (value upper)

unfoldable pub parse_part : String → List String
unfolding first_match count_up decimal
parse_part s = nodes_of (first_match s)

unfoldable pub zeros : ℕ → String
zeros zero = ""
zeros (suc n) = String.◌++◌ "0" (zeros n)

-- `nodePrefix + "0".repeat(padding) + node`
unfoldable pub node_name : String → String → String
unfolding zeros
node_name prefix node = String.◌++◌ (String.◌++◌ prefix (zeros (4 - length (codes node)))) node

unfoldable pub flat_map_parts : List String → List String
unfolding parse_part
flat_map_parts [] = []
flat_map_parts (part ∷ parts) = parse_part part ++ flat_map_parts parts

-- `parseSelection`: the map that it passes to `setChecked`.
unfoldable pub parse_selection : String → String → Object Bool
unfolding flat_map_parts node_name put_all put split
parse_selection str prefix =
    put_all true (map (node_name prefix) (flat_map_parts (split b' ' str))) (put "all" false [])
