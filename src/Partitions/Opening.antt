-- ===== src/Partitions/Opening.antt =====
-- The items of frontend/components/settings/PartitionsView.tsx in the order in which they are drawn, and
-- which of them is open after an edit. The object of partitions is changed in place, so the page's
-- configuration changes with it.
pub mod Saving
use job_mon.Base.{
  ◌>>=◌, Bool, List, Option, String, [], false, if◌then◌else◌, is_some, map, none, some, ℕ, ◌&&◌,
  ◌++◌, ◌∷◌,
}
use job_mon.Base.Int.{negsuc, pos, ℤ, ◌+ℤ◌}
use job_mon.Cache.{truthy_text}
use job_mon.Js.Object.{Object, entries, get, keys, put}
use job_mon.Js.Object.Places.{position}
use job_mon.Partitions.{
  Partition, PartitionConfig, Partitions, VirtualPartition, enter_place, leave_place, virtual_of,
}

-- An item: the name of its parent, if it is a virtual partition, and its own name.
abbrev pub Item : Type 0
Item = Option String × String

abbrev pub virtual_items : String → Object VirtualPartition → List Item
virtual_items parent vs = map (λ e. (some parent, e.0)) vs

abbrev pub items_of : Object Partition → List Item
items_of [] = []
items_of ((p_name, p) ∷ es) =
    (none, p_name) ∷ virtual_items p_name (entries (virtual_of p)) ++ items_of es

unfoldable pub items : Partitions → List Item
unfolding entries
items partitions = items_of (entries partitions)

-- `findIndex((v) => v === name)`
abbrev pub place_of : Option ℕ → ℤ
place_of none = negsuc 0
place_of (some i) = pos i

abbrev pub find_index : String → List String → ℤ
find_index name names = place_of (position name names)

-- `lConfig.Partitions` and `accIndex`
pub record PartitionsView : Type 0 where
  pub partitions : Partitions
  pub acc_index : Option ℤ

abbrev pub virtual_index : String → String → Partitions → Option ℤ
virtual_index parent name partitions = elim (get parent partitions) [
  | none ↦ none
  | some p ↦
      some (find_index parent (keys partitions) +ℤ find_index name (keys (virtual_of p)) +ℤ pos 1)
]

-- Whether a parent has virtual partitions, which a deletion asks.
abbrev has_virtual : String → Partitions → Bool
has_virtual parent partitions = elim (get parent partitions) [
  | none ↦ false
  | some p ↦ is_some p.virtual_partitions
]

-- `index`, for the partitions before and after the entry is set.
unfoldable pub index_after : Bool → PartitionConfig → Option ℤ → Partitions → Partitions → Option ℤ
unfolding keys get ◌+ℤ◌
index_after del conf acc_index left after =
    if conf.is_virtual
    then elim (truthy_text conf.parent) [
      | none ↦ acc_index
      | some parent ↦
          if del && has_virtual parent left
          then none
          else virtual_index parent conf.display_name after
    ]
    else acc_index

-- `setPartitionConfig` with the index that it sets.
unfoldable pub save_item :
    Bool → Bool → String → PartitionConfig → PartitionsView → Option PartitionsView
unfolding leave_place enter_place index_after
save_item was_virtual del p_name conf view = do
  left ← leave_place was_virtual p_name conf view.partitions
  after ← enter_place del p_name conf left
  some (record { partitions = after; acc_index = index_after del conf view.acc_index left after })

-- The button "Add".
unfoldable pub add_partition : PartitionsView → PartitionsView
unfolding put
add_partition view = record view {
  partitions =
      put "New Partition" (record { max_time = none; metrics = none; virtual_partitions = none })
        view.partitions;
}

-- A click on the header of an item, with what the accordion passes.
abbrev pub toggle : ℤ → PartitionsView → PartitionsView
toggle i view = record view { acc_index = some i }
