-- ===== src/Partitions/Items.antt =====
-- `createPartitionItem` and `PartitionItem`: the values that the form of a partition starts with, and
-- the test of its node range.
pub mod Reopening
use job_mon.Js.Object.{codes, get, is_digit}
use job_mon.Partitions.{Partition, PartitionConfig, Partitions, VirtualPartition, virtual_of}
use mathlib.Core.Option
use job_mon.Base.{
  Bool, List, Option, String, ℕ, [], ◌∷◌, ◌&&◌, ◌||◌, ◌==◌, ◌>>=◌, eqb, false, if◌then◌else◌, leb,
  none, some, true,
}
use Prim.Native.String

-- `join(",")`
abbrev pub join : List String → String
join [] = ""
join (s ∷ []) = s
join (s ∷ t ∷ ts) = String.◌++◌ s (String.◌++◌ "," (join (t ∷ ts)))

abbrev nodes_text : Option (List String) → String
nodes_text none = ""
nodes_text (some ns) = join ns

-- What an item of a virtual partition passes to its form.
abbrev pub virtual_item : String → String → VirtualPartition → PartitionConfig
virtual_item parent p_name v = record {
  display_name = p_name;
  is_virtual = true;
  parent = some parent;
  string_nodes = some (nodes_text v.nodes);
  metrics = v.metrics;
  max_time = none;
  virtual_partitions = none;
}

abbrev pub parent_item : String → Partition → PartitionConfig
parent_item p_name p = record {
  display_name = p_name;
  is_virtual = false;
  parent = none;
  string_nodes = none;
  metrics = p.metrics;
  max_time = p.max_time;
  virtual_partitions = p.virtual_partitions;
}

-- `createPartitionItem`, for the name of a parent if it has one.
unfoldable pub create_item : Option String → String → Partitions → Option PartitionConfig
unfolding get
create_item none p_name partitions = Option.map (parent_item p_name) (get p_name partitions)
create_item (some parent) p_name partitions = do
  p ← get parent partitions
  Option.map (virtual_item parent p_name) (get p_name (virtual_of p))

abbrev first_or_empty : List String → String
first_or_empty [] = ""
first_or_empty (name ∷ names) = name

abbrev or_text : Option String → String → Option String
or_text none text = some text
or_text (some s) text = some s

-- The initial values of the form, for the names of the parents.
unfoldable pub form_values : List String → PartitionConfig → PartitionConfig
form_values parents conf = record conf {
  parent = or_text conf.parent (first_or_empty parents);
  string_nodes = or_text conf.string_nodes "";
}

-- `\d`, `-` and `,`
abbrev is_range_char : ℕ → Bool
is_range_char c = is_digit c || eqb c b'-' || eqb c b','

-- `\w`
abbrev is_word_char : ℕ → Bool
is_word_char c =
    is_digit c || (leb b'a' c && leb c b'z') || (leb b'A' c && leb c b'Z') || eqb c b'_'

-- The rest of a text behind `[`, which is characters of a range, and `]` at the end.
unfoldable pub closes : Bool → List ℕ → Bool
closes some_read [] = false
closes some_read (c ∷ []) = some_read && eqb c b']'
closes some_read (c ∷ d ∷ cs) = is_range_char c && closes true (d ∷ cs)

unfoldable pub brackets : List ℕ → Bool
unfolding closes
brackets [] = false
brackets (c ∷ cs) = if eqb c b'[' then closes false cs else is_word_char c && brackets cs

abbrev all_range : List ℕ → Bool
all_range [] = true
all_range (c ∷ cs) = is_range_char c && all_range cs

abbrev non_empty : List ℕ → Bool
non_empty [] = false
non_empty (c ∷ cs) = true

-- `validateSlurmNodeRange`: the first match of its regular expression is the whole text.
unfoldable pub validate_slurm_node_range : String → String
unfolding brackets
validate_slurm_node_range s =
    if brackets (codes s) || (non_empty (codes s) && all_range (codes s))
    then ""
    else "Not a valid node range format"
