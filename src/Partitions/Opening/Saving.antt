-- ===== src/Partitions/Opening/Saving.antt =====
-- Which item a save opens.
use job_mon.Js.Object.Places.Uniqueness.{filter-IsUnique}
use job_mon.Base.Int.{int_laws, pos, ◌+ℤ◌}
use job_mon.Cache.{truthy_text}
use job_mon.Js.Object.Laws.{IsUnique, get-put, put-IsUnique}
use job_mon.Base.{
  length-map, false, not, true, sym, none, some-map, ◌∙◌, Bool-cases, List, String, [], ap, arith,
  get_elem?, if◌then◌else◌, inl, inr, length, map, refl, some, suc, zero, ℕ, ◌++◌, ◌+◌, ◌==◌, ◌∷◌,
  ◌≡◌,
}
use job_mon.Js.Object.{keys, delete, get, put, Object, entries}
use job_mon.Js.Object.Places.{entries-position, position}
use job_mon.Partitions.{
  Partitions, PartitionConfig, enter_place, leave_place, renamed, set_virtual, virtual_entry,
  Partition, VirtualPartition, virtual_of,
}
use job_mon.Partitions.Opening.{
  virtual_index, PartitionsView, index_after, items, save_item, Item, virtual_items, items_of,
}
use mathlib.Core.Option
use mathlib.Core.Path.{subst}
use text.Mathlib.TextPositions.{eq_refl}

-- How many virtual partitions are drawn before the item of a parent.
abbrev pub virtual_before : String → Object Partition → ℕ
virtual_before parent [] = 0
virtual_before parent ((k, p) ∷ es) =
    let rest = virtual_before parent es in
    if k == parent then 0 else length (entries (virtual_of p)) + rest

module _ {A : Type 0} where
  get_elem?-append :
      (xs ys : List A) (n : ℕ) → get_elem? (xs ++ ys) (length xs + n) ≡ get_elem? ys n
  get_elem?-append [] ys n = ap (get_elem? ys) (omega arith)
  get_elem?-append (x ∷ xs) ys n =
      let e : suc (length xs) + n ≡ suc (length xs + n) = omega arith in
      rw (e) (get_elem?-append xs ys n)

  get_elem?-before :
      (xs ys : List A) (n : ℕ) (x : A) → get_elem? xs n ≡ some x → get_elem? (xs ++ ys) n ≡ some x
  get_elem?-before [] ys n x h = absurd (cc h)
  get_elem?-before (y ∷ xs) ys zero x h = h
  get_elem?-before (y ∷ xs) ys (suc n) x h = get_elem?-before xs ys n x h

get_elem?-map :
    {A B : Type 0} (f : A → B) (xs : List A) (n : ℕ)
    → get_elem? (map f xs) n ≡ Option.map f (get_elem? xs n)
get_elem?-map f [] n = refl
get_elem?-map f (x ∷ xs) zero = refl
get_elem?-map f (x ∷ xs) (suc n) = get_elem?-map f xs n

first_item :
    (k parent name : String) (q p : Partition) (v : VirtualPartition) (rest : List Item) (j : ℕ)
    → k ≡ parent
    → q ≡ p
    → get_elem? (entries (virtual_of p)) j ≡ some (name, v)
    → get_elem? ((none, k) ∷ virtual_items k (entries (virtual_of q)) ++ rest) (suc j)
      ≡ some (some parent, name)
first_item k parent name q p v rest j ek eq there =
    let f : String × VirtualPartition → Item = λ e. (some parent, e.0) in
    subst
      (λ n.
        get_elem? ((none, n) ∷ virtual_items n (entries (virtual_of q)) ++ rest) (suc j)
        ≡ some (some parent, name))
      (sym ek)
      (rw eq (
        get_elem?-before (map f (entries (virtual_of p))) rest j (some parent, name)
          (get_elem?-map f (entries (virtual_of p)) j ∙ ap (Option.map f) there)))

item_at :
    (parent name : String) (p : Partition) (v : VirtualPartition) (es : Object Partition) (i j : ℕ)
    → position parent (map (λ e. e.0) es) ≡ some i
    → get_elem? es i ≡ some (parent, p)
    → get_elem? (entries (virtual_of p)) j ≡ some (name, v)
    → get_elem? (items_of es) (i + j + 1 + virtual_before parent es) ≡ some (some parent, name)
item_at parent name p v [] i j at here there = absurd (cc at)
item_at parent name p v ((k, q) ∷ es) i j at here there = elim (Bool-cases (k == parent)) [
  | inl same ↦
      let first : i ≡ 0 = ground (arith, rw same at at) in
      let head : some (k, q) ≡ some (parent, p) = rw first at here in
      let index : i + j + 1 + 0 ≡ suc j = omega (arith, first) in
      rw (same, index)
        (first_item k parent name q p v (items_of es) j (cc (head)) (cc (head)) there)
  | inr other ↦
      let (i', at', next) = some-map suc (position parent (map (λ e. e.0) es)) i (rw other at at) in
      let later = item_at parent name p v es i' j at' (rw (← next) at here) there in
      let before = virtual_items k (entries (virtual_of q)) in
      let index : i + j + 1 + (length (entries (virtual_of q)) + virtual_before parent es)
          ≡ suc (length before + (i' + j + 1 + virtual_before parent es)) =
        omega (
          arith,
          next,
          length-map {B = Item} (λ (e : String × VirtualPartition). (some k, e.0))
              (entries (virtual_of q)),
        ) in
      rw (other, index)
        (get_elem?-append before (items_of es) (i' + j + 1 + virtual_before parent es) ∙ later)
]

renamed-IsUnique :
    {V : Type 0} (display_name p_name : String) (o : Object V)
    → IsUnique o
    → IsUnique (renamed display_name p_name o)
unfolding renamed delete
renamed-IsUnique display_name p_name o u = elim (Bool-cases (display_name == p_name)) [
  | inl same ↦ rw same u
  | inr other ↦ rw other (filter-IsUnique (λ e. not (e.0 == p_name)) o u)
]

index_sum : (i j : ℕ) → pos i +ℤ pos j +ℤ pos 1 ≡ pos (i + j + 1)
index_sum i j = omega int_laws

virtual_index-found :
    (parent name : String) (q : Partition) (partitions : Partitions) (i j : ℕ)
    → get parent partitions ≡ some q
    → position parent (keys partitions) ≡ some i
    → position name (keys (virtual_of q)) ≡ some j
    → virtual_index parent name partitions ≡ some (pos (i + j + 1))
virtual_index-found parent name q partitions i j there at vat =
    rw (virtual_index, there, at, vat) (ap some (index_sum i j))

saved :
    (p_name parent : String) (conf : PartitionConfig) (p q : Partition) (view : PartitionsView)
    (i j : ℕ)
    → conf.is_virtual ≡ true
    → truthy_text conf.parent ≡ some parent
    → get parent view.partitions ≡ some p
    → set_virtual false p_name conf p ≡ q
    → get parent (put parent q view.partitions) ≡ some q
    → position parent (keys (put parent q view.partitions)) ≡ some i
    → position conf.display_name (keys (virtual_of q)) ≡ some j
    → save_item true false p_name conf view
      ≡ some
          (record { partitions = put parent q view.partitions; acc_index = some (pos (i + j + 1)) })
unfolding save_item leave_place enter_place index_after
saved p_name parent conf p q view i j virtual with_parent held set there at vat =
    rw (virtual, with_parent, held, set)
      (ap (λ n. some (record { partitions = put parent q view.partitions; acc_index = n }))
        (virtual_index-found parent conf.display_name q (put parent q view.partitions) i j there at
          vat))

-- A save of a virtual partition whose parent is configured succeeds, where names are unique, and
-- sets an index of the open item behind which the saved item stands by as many places as virtual
-- partitions are drawn for the parents before its own.
pub save_item-opens :
    (p_name parent : String) (conf : PartitionConfig) (p : Partition) (view : PartitionsView)
    → conf.is_virtual ≡ true
    → truthy_text conf.parent ≡ some parent
    → get parent view.partitions ≡ some p
    → IsUnique view.partitions
    → IsUnique (virtual_of p)
    → (after : PartitionsView) × (index : ℕ) × (save_item true false p_name conf view ≡ some after)
      × (after.acc_index ≡ some (pos index))
      × (get_elem?
            (items after.partitions)
            (index + virtual_before parent (entries after.partitions))
          ≡ some (some parent, conf.display_name))
unfolding items set_virtual keys
save_item-opens p_name parent conf p view virtual with_parent held unique unique_names =
    let q = set_virtual false p_name conf p in
    let partitions = put parent q view.partitions in
    let name = conf.display_name in
    let there : get parent partitions ≡ some q =
      get-put parent parent q view.partitions ∙ rw (eq_refl parent) refl in
    let (i, at, placed) =
      entries-position parent q partitions (put-IsUnique parent q view.partitions unique) there in
    let others = renamed name p_name (virtual_of p) in
    let entry : get name (virtual_of q) ≡ some (virtual_entry conf) =
      get-put name name (virtual_entry conf) others ∙ rw (eq_refl name) refl in
    let (j, vat, vplaced) =
      entries-position name (virtual_entry conf) (virtual_of q)
        (put-IsUnique name (virtual_entry conf) others
          (renamed-IsUnique name p_name (virtual_of p) unique_names))
        entry in
    (
      record { partitions = partitions; acc_index = some (pos (i + j + 1)) },
      i + j + 1,
      saved p_name parent conf p q view i j virtual with_parent held refl there at vat,
      refl,
      item_at parent name q (virtual_entry conf) (entries partitions) i j at placed vplaced,
    )
