-- ===== src/Partitions.antt =====
-- `setPartitionConfig` of frontend/components/settings/PartitionsView.tsx: what an edit of a partition
-- makes of the configured partitions. `none` is the exception where the parent is missing. The
-- partition that "Add" puts in has no properties at all.
pub mod Editing
pub mod Items
pub mod Opening
mod Tests
use job_mon.Aggregates.{or_empty}
use job_mon.Cache.{truthy_text}
use job_mon.Js.Object.{Object, delete, get, put}
use job_mon.Js.Text.{split}
use job_mon.Base.{
  Bool, List, Option, String, if◌then◌else◌, is_some, none, not, some, ℕ, ◌&&◌, ◌==◌, ◌||◌, ◌>>=◌,
}

pub record VirtualPartition : Type 0 where
  pub nodes : Option (List String)
  pub metrics : Option (List String)

pub record Partition : Type 0 where
  pub max_time : Option ℕ
  pub metrics : Option (List String)
  pub virtual_partitions : Option (Object VirtualPartition)

abbrev pub Partitions : Type 0
Partitions = Object Partition

-- What an item of the view passes: a parent or a virtual partition.
pub record PartitionConfig : Type 0 where
  pub display_name : String
  pub is_virtual : Bool
  pub parent : Option String
  pub string_nodes : Option String
  pub metrics : Option (List String)
  pub max_time : Option ℕ
  pub virtual_partitions : Option (Object VirtualPartition)

abbrev pub virtual_of : Partition → Object VirtualPartition
virtual_of p = or_empty p.virtual_partitions

-- `delete p.VirtualPartitions[pName]`, if there are any.
abbrev without_virtual : String → Partition → Partition
without_virtual p_name p = record p {
  virtual_partitions = elim p.virtual_partitions [
    | none ↦ none
    | some vs ↦ some (delete p_name vs)
  ];
}

-- The first `if`: a partition that has become virtual, or is no longer, leaves its old place.
unfoldable pub leave_place : Bool → String → PartitionConfig → Partitions → Option Partitions
unfolding delete get put
leave_place was_virtual p_name conf partitions =
    if (was_virtual && conf.is_virtual) || (not was_virtual && not conf.is_virtual)
    then some partitions
    else if conf.is_virtual
    then some (delete p_name partitions)
    else elim (truthy_text conf.parent) [
      | none ↦ some partitions
      | some parent ↦ elim (get parent partitions) [
        | none ↦ none
        | some p ↦ some (put parent (without_virtual p_name p) partitions)
      ]
    ]

-- `if (pConf.displayName !== pName)`: the old name is deleted, and the new one is used.
unfoldable pub renamed : {V : Type 0} → String → String → Object V → Object V
unfolding delete
renamed display_name p_name o = if display_name == p_name then o else delete p_name o

abbrev nodes_of : Option String → Option (List String)
nodes_of none = none
nodes_of (some text) = some (split b',' text)

abbrev pub virtual_entry : PartitionConfig → VirtualPartition
virtual_entry conf = record {
  nodes = nodes_of (truthy_text conf.string_nodes);
  metrics = conf.metrics;
}

unfoldable pub set_virtual : Bool → String → PartitionConfig → Partition → Partition
unfolding renamed put delete split
set_virtual del p_name conf p =
    if del && is_some p.virtual_partitions
    then record p { virtual_partitions = some (delete p_name (virtual_of p)) }
    else record p {
      virtual_partitions = some (
          put conf.display_name (virtual_entry conf)
            (renamed conf.display_name p_name (virtual_of p)));
    }

abbrev or_zero : Option ℕ → ℕ
or_zero none = 0
or_zero (some n) = n

abbrev pub parent_entry : PartitionConfig → Partition
parent_entry conf = record {
  max_time = some (or_zero conf.max_time);
  metrics = conf.metrics;
  virtual_partitions = conf.virtual_partitions;
}

unfoldable pub set_parent : Bool → String → PartitionConfig → Partitions → Partitions
unfolding renamed put delete
set_parent del p_name conf partitions =
    if del
    then delete p_name partitions
    else put conf.display_name (parent_entry conf) (renamed conf.display_name p_name partitions)

unfoldable pub enter_place : Bool → String → PartitionConfig → Partitions → Option Partitions
unfolding set_virtual set_parent get put
enter_place del p_name conf partitions =
    if conf.is_virtual
    then elim (truthy_text conf.parent) [
      | none ↦ some partitions
      | some parent ↦ elim (get parent partitions) [
        | none ↦ none
        | some p ↦ some (put parent (set_virtual del p_name conf p) partitions)
      ]
    ]
    else some (set_parent del p_name conf partitions)

-- `setPartitionConfig`: the partitions afterwards.
unfoldable pub set_partition_config :
    Bool → Bool → String → PartitionConfig → Partitions → Option Partitions
unfolding leave_place enter_place
set_partition_config was_virtual del p_name conf partitions = do
  left ← leave_place was_virtual p_name conf partitions
  enter_place del p_name conf left
