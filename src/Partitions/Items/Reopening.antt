-- ===== src/Partitions/Items/Reopening.antt =====
-- What an item shows after it was saved.
use mathlib.Core.Option
use job_mon.Cache.{truthy_text}
use job_mon.Js.Object.{entries, get}
use job_mon.Partitions.{
  Partition, PartitionConfig, Partitions, set_partition_config, virtual_entry, virtual_of,
}
use job_mon.Partitions.Editing.{set_virtual-edit}
use job_mon.Js.Text.{glue, split}
use job_mon.Partitions.Items.{parent_item, virtual_item, create_item, join}
use text.Mathlib.TextPositions.{eq_refl}
use Prim.Native.Char.{Char, code}
use text.Mathlib.TextEquality.{Char-path}
use text.Mathlib.TextLemmas.{nil-append, cons-append}
use job_mon.Base.{
  ◌==◌, eqb_iff, List, String, ℕ, [], ◌∷◌, ◌≡◌, ◌∙◌, arith, eqb, false, none, some, true, refl, sym,
  ap, Bool-cases, inl, inr,
}

split-cons : (sep : ℕ) (s : String) → (p : String) × (ps : List String) × (split sep s ≡ p ∷ ps)
unfolding split glue
split-cons sep String.[] = ("", [], refl)
split-cons sep (String.◌∷◌ c s) = elim (Bool-cases (eqb (code c) sep)) [
  | inl same ↦ ("", split sep s, rw (same) refl)
  | inr other ↦ let (p, ps, e) = split-cons sep s in (String.◌∷◌ c p, ps, rw (other, e) refl)
]

join-cons :
    (c : Char) (p : String) (ps : List String)
    → join (String.◌∷◌ c p ∷ ps) ≡ String.◌∷◌ c (join (p ∷ ps))
join-cons c p [] = refl
join-cons c p (q ∷ qs) = cons-append c p _

join-comma : (p : String) (ps : List String) → join ("" ∷ p ∷ ps) ≡ String.◌∷◌ "," (join (p ∷ ps))
join-comma p ps = nil-append _ ∙ cons-append "," String.[] _ ∙ ap (String.◌∷◌ ",") (nil-append _)

-- Joining at commas undoes splitting at them.
pub join-split : (s : String) → join (split b',' s) ≡ s
unfolding split glue
join-split String.[] = refl
join-split (String.◌∷◌ c s) =
    let (p, ps, e) = split-cons b',' s in
    let rest : join (p ∷ ps) ≡ s = ap join (sym e) ∙ join-split s in
    elim (Bool-cases (eqb (code c) b',')) [
      | inl same ↦
          let number : code c ≡ b',' = ground (arith, same, eqb_iff (code c) b',') in
          let comma : c ≡ "," = Char-path c "," number in
          rw (same, e)
            (join-comma p ps ∙ ap (String.◌∷◌ ",") rest ∙ ap (λ d. String.◌∷◌ d s) (sym comma))
      | inr other ↦ rw (other, e) (join-cons c p ps ∙ ap (String.◌∷◌ c) rest)
    ]

-- A virtual partition with a text of nodes whose parent is configured, saved without deleting it,
-- shows when it is opened again the name, the metrics and the text of nodes that were entered,
-- although the text is stored in parts. The items of the other parents are kept, and so are those
-- of the other virtual partitions of its parent, but for its old name.
pub create_item-saved :
    (p_name parent text : String) (conf : PartitionConfig) (p : Partition) (partitions : Partitions)
    → conf.is_virtual ≡ true
    → truthy_text conf.parent ≡ some parent
    → truthy_text conf.string_nodes ≡ some text
    → get parent partitions ≡ some p
    → (after : Partitions) × (set_partition_config true false p_name conf partitions ≡ some after)
      × (create_item (some parent) conf.display_name after
          ≡ some (record {
            display_name = conf.display_name;
            is_virtual = true;
            parent = some parent;
            string_nodes = some text;
            metrics = conf.metrics;
            max_time = none;
            virtual_partitions = none;
          }))
      × ((k : String)
          → (parent == k) ≡ false
          → create_item none k after ≡ create_item none k partitions)
      × ((v : String)
          → (conf.display_name == v) ≡ false
          → (p_name == v) ≡ false
          → create_item (some parent) v after ≡ create_item (some parent) v partitions)
unfolding create_item
create_item-saved p_name parent text conf p partitions virtual with_parent nodes held =
    let (after, q, edited, others, _, _, entries) =
      set_virtual-edit p_name parent conf p partitions virtual with_parent held in
    let there : get parent after ≡ some q = others parent ∙ rw (eq_refl parent) refl in
    let entry : get conf.display_name (virtual_of q) ≡ some (virtual_entry conf) =
      entries conf.display_name ∙ rw (eq_refl conf.display_name) refl in
    (
      after,
      edited,
      rw (there, entry, nodes, join-split text) refl,
      λ k other.
          let same : get k after ≡ get k partitions = others k ∙ rw (other) refl in
          ap (Option.map (parent_item k)) same,
      λ v other old.
          let same : get v (virtual_of q) ≡ get v (virtual_of p) =
            entries v ∙ rw (other, old) refl in
          rw (there, held) (ap (Option.map (virtual_item parent v)) same),
    )
