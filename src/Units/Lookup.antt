-- ===== src/Units/Lookup.antt =====
-- `getBaseUnit` and `getPrefix` of frontend/types/units.ts on the strings that they are given.
use text.Mathlib.TextEquality.{starts_with_iff}
use text.Mathlib.TextLemmas.{nil-append}
use job_mon.Base.{
  arith, some, Option, Bool, true, not, ◌&&◌, ◌||◌, ◌∷◌, ap, ◌==◌, eq_iff, String, ◌≡◌, refl, false,
  none, List, [], ◌++◌, All, find-first, find-none, Option-cases, inl, inr,
}
use job_mon.Js.Object.{get, Object, keys}
use job_mon.Units.Table.{PrefixType, metric, UnitType, Prefix, prefixes, units}
use job_mon.Units.{
  prefix_at, label, prefix_key, get_prefix, includes, unit_at, base_unit_key, get_base_unit,
}

includes-empty : (str : String) → includes str "" ≡ true
unfolding includes
includes-empty String.[] = refl
includes-empty (String.◌∷◌ c s) =
    let h = (starts_with_iff (String.◌∷◌ c s) "").1 (String.◌∷◌ c s, nil-append _) in rw h

abbrev unit_names : List String
unit_names =
    "Flops" ∷ "Bits" ∷ "DegC" ∷ "Bytes" ∷ "Byte" ∷ "Percentage" ∷ "Packets" ∷ "Watts" ∷ "OPs"
    ∷ "Herz" ∷ "None" ∷ []

keys-units : keys units ≡ unit_names
unfolding keys
keys-units = refl

-- A string has a base unit: the first key of `Units`, in the order of the table, whose format
-- stands somewhere in the string.
pub get_base_unit-first :
    (str : String)
    → (key : String) × (before : List String) × (after : List String) × (keys units
        ≡ before ++ key ∷ after)
      × (get_base_unit str ≡ unit_at key)
      × (includes str (unit_at key).display_format ≡ true)
      × All (λ j. includes str (unit_at j).display_format ≡ false) before
unfolding get_base_unit get
get_base_unit-first str = elim (Option-cases (base_unit_key str)) [
  | inl e ↦ absurd (cc (last_fails e, includes-empty str))
  | inr (key, e) ↦
      let (before, after, split, passes, earlier) = find-first _ (keys units) key e in
      (key, before, after, split, rw (e, get_base_unit), passes, earlier)
]
  where
    last_fails : base_unit_key str ≡ none → includes str "" ≡ false
    last_fails e =
        let all = find-none (λ val. includes str (unit_at val).display_format) (keys units) e in
        (rw keys-units at all).1.1.1.1.1.1.1.1.1.1.0

abbrev every {ℓ} : {A : Type ℓ} → (A → Bool) → List A → Bool
every p [] = true
every p (x ∷ xs) = p x && every p xs

every-get {ℓ} :
    {V : Type ℓ} (p : String → Bool) (o : Object V) (k : String) (v : V)
    → every (λ e. p e.0) o ≡ true
    → get k o ≡ some v
    → p k ≡ true
unfolding get
every-get p [] k v h e = cc
every-get p ((j, w) ∷ o) k v h e = ground (arith, eq_iff j k, every-get p o k v)

abbrev found_is : Option String → String → Bool
found_is none k = false
found_is (some j) k = j == k

found_is-eq : (o : Option String) (k : String) → found_is o k ≡ true → o ≡ some k
found_is-eq none k h = cc
found_is-eq (some j) k h = ap some ((eq_iff j k).0 h)

abbrev is_metric : PrefixType → Bool
is_metric metric = true
is_metric _ = false

-- Both searches find the keys that a label was made of, if the unit takes metric prefixes.
abbrev reads_back : String → String → Bool
reads_back j k =
    let str = label (prefix_at j) (unit_at k) in
    not (is_metric (unit_at k).prefix)
    || found_is (base_unit_key str) k && found_is (prefix_key str (unit_at k)) j

reads_back_table : every (λ e. every (λ u. reads_back e.0 u.0) units) prefixes ≡ true
unfolding base_unit_key prefix_key keys get
reads_back_table = refl

-- A unit that is written as one of the prefixes before the format of a metric unit is read as
-- that unit and that prefix: 63 labels, from "kFLOP/s" to "Hz".
pub label_round_trip :
    (j k : String) (p : Prefix) (t : UnitType)
    → get j prefixes ≡ some p
    → get k units ≡ some t
    → t.prefix ≡ metric
    → (get_base_unit (label p t) ≡ t) × (get_prefix (label p t) t ≡ p)
unfolding get_base_unit get_prefix
label_round_trip j k p t hp ht hm = ground (arith, unit_found, prefix_found)
  where
    read : reads_back j k ≡ true
    read =
        every-get (reads_back j) units k t
          (every-get (λ i. every (λ u. reads_back i u.0) units) prefixes j p reads_back_table hp) ht

    at_p : prefix_at j ≡ p
    at_p = rw hp

    at_t : unit_at k ≡ t
    at_t = rw ht

    unit_found : base_unit_key (label p t) ≡ some k
    unit_found = found_is-eq (base_unit_key (label p t)) k (ground (arith, rw (at_p, at_t) at read))

    prefix_found : prefix_key (label p t) t ≡ some j
    prefix_found =
        found_is-eq (prefix_key (label p t) t) j (ground (arith, rw (at_p, at_t) at read))
