-- ===== src/Partitions/Editing.antt =====
-- What an edit changes.
use job_mon.Base.{
  Bool, String, arith, false, if◌then◌else◌, none, not, refl, some, true, ◌&&◌, ◌==◌, ◌≡◌,
}
use job_mon.Cache.{truthy_text}
use job_mon.Js.Object.{Object, delete, get, put}
use job_mon.Js.Object.Laws.{get-delete, get-put}
use job_mon.Partitions.{
  Partition, PartitionConfig, Partitions, enter_place, leave_place, parent_entry, renamed,
  set_parent, set_partition_config, set_virtual, virtual_entry, virtual_of,
}
use text.Mathlib.TextEquality.{eq_iff}

renamed-get :
    {V : Type 0} (display_name p_name k : String) (v : V) (o : Object V)
    → get k (put display_name v (renamed display_name p_name o))
      ≡ (if display_name == k then some v else if p_name == k then none else get k o)
unfolding renamed
renamed-get display_name p_name k v o = ground (
  arith,
  get-put display_name k v (renamed display_name p_name o),
  get-put display_name k v o,
  get-put display_name k v (delete p_name o),
  get-delete p_name k o,
  eq_iff display_name p_name,
  eq_iff display_name k,
  eq_iff p_name k,
)

-- An edit of a partition that is not virtual and stays so succeeds. Unless it deletes, the
-- displayed name gets the entry of the edit; the old name is gone, if it is another one, and
-- every other partition is kept. A deletion removes the old name only.
pub set_parent-edit :
    (p_name : String) (conf : PartitionConfig) (del : Bool) (partitions : Partitions)
    → conf.is_virtual ≡ false
    → (after : Partitions) × (set_partition_config false del p_name conf partitions ≡ some after)
      × ((k : String)
          → get k after ≡ (
              if not del && conf.display_name == k
              then some (parent_entry conf)
              else if p_name == k
              then none
              else get k partitions))
unfolding set_partition_config leave_place enter_place set_parent
set_parent-edit p_name conf true partitions plain =
    (delete p_name partitions, rw (plain) refl, λ k. get-delete p_name k partitions)
set_parent-edit p_name conf false partitions plain = (
  put conf.display_name (parent_entry conf) (renamed conf.display_name p_name partitions),
  rw (plain) refl,
  λ k. renamed-get conf.display_name p_name k (parent_entry conf) partitions,
)

-- An edit of a virtual partition that is not deleted and whose parent is configured succeeds and
-- changes the parent only, and of it only its virtual partitions: the displayed name gets the
-- entry of the edit, the old name is gone, if it is another one, and the others are kept.
pub set_virtual-edit :
    (p_name parent : String) (conf : PartitionConfig) (p : Partition) (partitions : Partitions)
    → conf.is_virtual ≡ true
    → truthy_text conf.parent ≡ some parent
    → get parent partitions ≡ some p
    → (after : Partitions) × (q : Partition) × (set_partition_config true false p_name conf
          partitions
        ≡ some after)
      × ((k : String) → get k after ≡ (if parent == k then some q else get k partitions))
      × (q.max_time ≡ p.max_time)
      × (q.metrics ≡ p.metrics)
      × ((v : String)
          → get v (virtual_of q) ≡ (
              if conf.display_name == v
              then some (virtual_entry conf)
              else if p_name == v
              then none
              else get v (virtual_of p)))
unfolding set_partition_config leave_place enter_place set_virtual
set_virtual-edit p_name parent conf p partitions virtual with_parent held =
    let q = set_virtual false p_name conf p in
    (
      put parent q partitions,
      q,
      rw (virtual, with_parent, held) refl,
      λ k. get-put parent k q partitions,
      refl,
      refl,
      λ v. renamed-get conf.display_name p_name v (virtual_entry conf) (virtual_of p),
    )
