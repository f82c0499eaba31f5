-- ===== src/Units/Tests.antt =====
-- Runs of the code of frontend/types/units.ts, some of them those of frontend/test/types/units.test.ts.
use job_mon.Base.{String, refl, some, true, ℕ, ◌≡◌}
use job_mon.Js.Number.Naturals.{naturals, naturals-IsScaling}
use job_mon.Js.Object.{get, keys}
use job_mon.Units.{
  MetricUnit, best_prefix, get_base_unit, get_prefix, in_range, label, prefix_at, scaled, unit_at,
}
use job_mon.Units.Table.{Prefix, prefixes}
use job_mon.Units.Lookup.{label_round_trip}
use job_mon.Units.Scaling.{best_prefix-scales}

base_units :
    (get_base_unit "kB" ≡ unit_at "Byte")
    × (get_base_unit "kB/s" ≡ unit_at "Bytes")
    × (get_base_unit "kOP/s" ≡ unit_at "OPs")
    × (get_base_unit "" ≡ unit_at "None")
unfolding get_base_unit keys get
base_units = (refl, refl, refl, refl)

abbrev bytes : String → ℕ → MetricUnit naturals
bytes k v = record { type = unit_at k; value = v }

best_prefixes :
    (best_prefix naturals (bytes "Byte" 1001) ≡ some "kilo")
    × (best_prefix naturals (bytes "OPs" 999) ≡ some "None")
    × (best_prefix naturals (bytes "Bytes" 12_300_000_000_000) ≡ some "tera")
unfolding best_prefix keys get
best_prefixes = (refl, refl, refl)

label_round_trip_example :
    (get_base_unit (label (prefix_at "giga") (unit_at "Flops")) ≡ unit_at "Flops")
    × (get_prefix (label (prefix_at "giga") (unit_at "Flops")) (unit_at "Flops") ≡ prefix_at "giga")
unfolding get
label_round_trip_example =
    label_round_trip "giga" "Flops" (prefix_at "giga") (unit_at "Flops") refl refl refl

best_prefix-scales_example :
    (k : String) × (p : Prefix) × (best_prefix naturals (bytes "Byte" 1001) ≡ some k)
    × (get k prefixes ≡ some p)
    × (p.base ≡ 10)
    × (in_range naturals (scaled naturals 1001 p) ≡ true)
unfolding get
best_prefix-scales_example =
    best_prefix-scales naturals naturals-IsScaling (bytes "Byte" 1001) refl refl refl

abbrev exa : String
exa = "exa"
