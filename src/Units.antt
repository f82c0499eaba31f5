-- ===== src/Units.antt =====
-- frontend/types/units.ts: the units of the metrics, their prefixes, and the choice of a prefix.
pub mod Table
pub mod Lookup
pub mod Scaling
pub mod Display
mod Tests
use Prim.Native.String
use text.Mathlib.Text.{starts_with}
use job_mon.Base.{
  ℕ, String, Bool, true, false, ◌&&◌, ◌||◌, not, Option, none, some, ◌==◌, if◌then◌else◌, find,
}
use job_mon.Js.Object.{Object, get, keys}
use job_mon.Js.Number.{Number}
use mathlib.Core.Option
use Table.{PrefixType, no_prefix, metric, exponential, UnitType, Prefix, units, prefixes}

-- `str.includes(part)`
unfoldable pub includes : String → String → Bool
includes String.[] part = part == ""
includes (String.◌∷◌ c s) part = starts_with (String.◌∷◌ c s) part || includes s part

abbrev pub none_unit : UnitType
none_unit = record { display_format = ""; prefix = no_prefix }

abbrev pub none_prefix : Prefix
none_prefix = record { short = ""; exp = 0; base = 10 }

abbrev pub or_else {ℓ} : {A : Type ℓ} → Option A → A → A
or_else none d = d
or_else (some a) d = a

-- `Units[key]`, for a key of `Units`
abbrev pub unit_at : String → UnitType
unit_at k = or_else (get k units) none_unit

-- `Prefixes[key]`, for a key of `Prefixes`
abbrev pub prefix_at : String → Prefix
prefix_at k = or_else (get k prefixes) none_prefix

abbrev pub unit_or_none : Option String → UnitType
unit_or_none none = none_unit
unit_or_none (some k) = unit_at k

abbrev pub prefix_or_none : Option String → Prefix
prefix_or_none none = none_prefix
prefix_or_none (some k) = prefix_at k

-- The key that `getBaseUnit` finds.
unfoldable pub base_unit_key : String → Option String
unfolding includes
base_unit_key str = find (λ val. includes str (unit_at val).display_format) (keys units)

unfoldable pub get_base_unit : String → UnitType
unfolding base_unit_key
get_base_unit str = unit_or_none (base_unit_key str)

-- A prefix before a unit's format.
abbrev pub label : Prefix → UnitType → String
label p t = String.◌++◌ p.short t.display_format

-- The key that `getPrefix` finds in the case of a metric unit.
unfoldable pub prefix_key : String → UnitType → Option String
prefix_key str t = find (λ key. str == label (prefix_at key) t) (keys prefixes)

unfoldable pub get_prefix : String → UnitType → Prefix
unfolding prefix_key
get_prefix str t = elim t.prefix [ metric ↦ prefix_or_none (prefix_key str t) | _ ↦ none_prefix ]

module _ (n : Number) where
  pub record MetricUnit : Type 0 where
    pub type : UnitType
    pub value : n.Carrier

  -- `new Unit(val, unit)`
  unfoldable pub new_unit : n.Carrier → String → MetricUnit
  unfolding get_base_unit get_prefix
  new_unit val unit =
      let base = get_base_unit unit in
      let prefix = get_prefix unit base in
      record { type = base; value = n.mul val (n.pow prefix.base prefix.exp) }

  -- `1 <= value && value < 1000`
  unfoldable pub in_range : n.Carrier → Bool
  in_range v = n.le (n.of_ℕ 1) v && n.lt v (n.of_ℕ 1000)

  unfoldable pub scaled : n.Carrier → Prefix → n.Carrier
  scaled v p = n.div v (n.pow p.base p.exp)

  unfoldable pub best_prefix : MetricUnit → Option String
  unfolding in_range scaled
  best_prefix u = if in_range u.value then some "None" else elim u.type.prefix [
    | metric ↦ find (λ key. in_range (scaled u.value (prefix_at key))) (keys prefixes)
    | _ ↦ some "None"
  ]

  -- `typeof prefix !== 'undefined' ? prefix : best`
  abbrev pub chosen : Option String → Option String → Option String
  chosen none best = best
  chosen (some p) best = some p

  -- What follows `if (best)`, which "" fails; `none` is the `TypeError` of a name that is no key of
  -- `Prefixes` (the names inherited from `Object.prototype` are not told apart from those).
  abbrev with_prefix : Option String → (Prefix → String) → String → Option String
  with_prefix none used plain = some plain
  with_prefix (some best) used plain =
      if best == "" then some plain else Option.map used (get best prefixes)

  unfoldable pub prefix_to_string : MetricUnit → Option String → Option String
  unfolding best_prefix
  prefix_to_string u prefix = elim u.type.prefix [
    | exponential ↦ some u.type.display_format
    | _ ↦ with_prefix (chosen prefix (best_prefix u)) (λ p. label p u.type) u.type.display_format
  ]

  unfoldable pub value_to_string : MetricUnit → Option String → Option String
  unfolding best_prefix
  value_to_string u prefix = elim u.type.prefix [
    | exponential ↦ some (n.to_exponential u.value 2)
    | _ ↦
        with_prefix (chosen prefix (best_prefix u)) (λ p. n.to_fixed (scaled u.value p) 2)
          (n.to_fixed u.value 2)
  ]

  abbrev joined : Option String → Option String → Option String
  joined none rest = none
  joined (some v) none = none
  joined (some v) (some p) = some (String.◌++◌ v (String.◌++◌ " " p))

  unfoldable pub to_string : MetricUnit → Option String → Option String
  unfolding value_to_string prefix_to_string
  to_string u prefix = joined (value_to_string u prefix) (prefix_to_string u prefix)
