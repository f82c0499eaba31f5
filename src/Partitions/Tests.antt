-- ===== src/Partitions/Tests.antt =====
-- Runs of the partition settings.
use job_mon.Base.Int.{pos}
use job_mon.Partitions.Opening.{PartitionsView, add_partition, items, save_item}
use job_mon.Partitions.Opening.Saving.{save_item-opens, virtual_before}
use mathlib.Core.Option
use job_mon.Partitions.Items.{brackets, closes, create_item, validate_slurm_node_range}
use job_mon.Partitions.Items.Reopening.{create_item-saved}
use job_mon.Base.{get_elem?, ℕ, ◌+◌, String, [], false, none, refl, some, true, ◌==◌, ◌∷◌, ◌≡◌}
use job_mon.Js.Object.{has_own, entries, keys, get}
use job_mon.Partitions.{
  VirtualPartition, Partition, PartitionConfig, Partitions, set_partition_config,
}

abbrev main : Partition
main = record { max_time = some 3600; metrics = none; virtual_partitions = none }

abbrev configured : Partitions
configured = ("main", main) ∷ ("gpu", main) ∷ []

abbrev rename : PartitionConfig
rename = record {
  display_name = "cpu";
  is_virtual = false;
  parent = none;
  string_nodes = none;
  metrics = some ("ipc" ∷ []);
  max_time = some 60;
  virtual_partitions = none;
}

abbrev small : PartitionConfig
small = record {
  display_name = "small";
  is_virtual = true;
  parent = some "main";
  string_nodes = some "n1,n2";
  metrics = none;
  max_time = none;
  virtual_partitions = none;
}

abbrev tiny : VirtualPartition
tiny = record { nodes = some ("n7" ∷ []); metrics = none }

abbrev with_tiny : Partition
with_tiny = record main { virtual_partitions = some (("tiny", tiny) ∷ []) }

create_item-saved_example :
    (after : Partitions) × (set_partition_config true false "tiny" small
        (("main", with_tiny) ∷ configured)
      ≡ some after)
    × (create_item (some "main") "small" after ≡ some small)
    × ((k : String)
        → ("main" == k) ≡ false
        → create_item none k after ≡ create_item none k (("main", with_tiny) ∷ configured))
    × ((v : String)
        → ("small" == v) ≡ false
        → ("tiny" == v) ≡ false
        → create_item (some "main") v after
          ≡ create_item (some "main") v (("main", with_tiny) ∷ configured))
unfolding get
create_item-saved_example =
    create_item-saved "tiny" "main" "n1,n2" small with_tiny (("main", with_tiny) ∷ configured) refl
      refl refl refl

-- A list of plain names is no valid range, but a range in brackets is.
refused : validate_slurm_node_range "n1,n2" ≡ "Not a valid node range format"
unfolding validate_slurm_node_range brackets closes
refused = refl

accepted : validate_slurm_node_range "n[1-3,7]" ≡ ""
unfolding validate_slurm_node_range brackets closes
accepted = refl

-- A parent with a virtual partition stands before the one whose virtual partition is saved.
abbrev opened_view : PartitionsView
opened_view = record {
  partitions = ("gpu", with_tiny) ∷ ("main", main) ∷ [];
  acc_index = some (pos 2);
}

save_item-opens_example :
    (after : PartitionsView) × (index : ℕ) × (save_item true false "tiny" small opened_view
      ≡ some after)
    × (after.acc_index ≡ some (pos index))
    × (get_elem? (items after.partitions) (index + virtual_before "main" (entries after.partitions))
        ≡ some (some "main", "small"))
unfolding get has_own
save_item-opens_example =
    save_item-opens "tiny" "main" small main opened_view refl refl refl (refl, (refl, tt)) tt

-- The saved item is the fourth one, and the third one is opened.
third_opened :
    (Option.map (λ v. v.acc_index) (save_item true false "tiny" small opened_view)
      ≡ some (some (pos 2)))
    × (Option.map (λ v. items v.partitions) (save_item true false "tiny" small opened_view)
        ≡ some
            ((none, "gpu") ∷ (some "gpu", "tiny") ∷ (none, "main") ∷ (some "main", "small") ∷ []))
unfolding save_item items keys entries
third_opened = (refl, refl)

-- "Add" replaces a partition of this name by one without properties.
added_over :
    Option.map
      (λ p. p.max_time)
      (get "New Partition"
        (add_partition
          (record { partitions = ("New Partition", main) ∷ []; acc_index = none })).partitions)
    ≡ some none
unfolding add_partition get
added_over = refl
