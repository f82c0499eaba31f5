-- ===== src/Nodes/HostNames.antt =====
-- `prefixMatch` and `prefix` of frontend/components/jobview/JobInfo.tsx: the prefix of the names of nodes,
-- which the text field of the selection puts before a number.
pub mod Typing
pub mod Showing
use job_mon.Base.{
  Bool, List, Option, String, [], if◌then◌else◌, leb, none, some, ℕ, ◌&&◌, ◌||◌, ◌∷◌,
}
use job_mon.Js.Text.{split}
use Prim.Native.Char.{Char, code}
use Prim.Native.String

-- `[a-zA-Z]`
abbrev pub is_letter : ℕ → Bool
is_letter c = (leb b'a' c && leb c b'z') || (leb b'A' c && leb c b'Z')

-- The letters that a text starts with.
unfoldable pub letters : String → String
letters String.[] = ""
letters (String.◌∷◌ c s) =
    let rest = letters s in if is_letter (code c) then String.◌∷◌ c rest else ""

-- The group `([a-zA-Z]+)` of the first match; `(\d*)` always matches behind it.
unfoldable pub first_letters : String → Option String
unfolding letters
first_letters String.[] = none
first_letters (String.◌∷◌ c s) =
    let rest = first_letters s in
    if is_letter (code c) then some (letters (String.◌∷◌ c s)) else rest

abbrev first_part : List String → String
first_part [] = ""
first_part (part ∷ parts) = part

abbrev or_cluster : String → Option String → String
or_cluster cluster_id none = cluster_id
or_cluster cluster_id (some prefix) = prefix

unfoldable pub node_prefix : String → String → String
unfolding first_letters split
node_prefix node_list cluster_id =
    or_cluster cluster_id (first_letters (first_part (split b'|' node_list)))
