-- ===== src/Units/Display.antt =====
-- `valueToString`, `prefixToString` and `toString` of frontend/types/units.ts.
use job_mon.Units.Scaling.{best_prefix-IsKey}
use job_mon.Base.{
  Option-cases, Bool-cases, Option, String, arith, eq_iff, false, inl, inr, none, some, ◌==◌, ◌↔◌,
  ◌≡◌, ◌≢◌,
}
use job_mon.Js.Number.{Number}
use job_mon.Js.Object.{get}
use job_mon.Units.{
  prefix_to_string, value_to_string, MetricUnit, best_prefix, chosen, label, scaled, to_string,
}
use job_mon.Units.Table.{Prefix, exponential, prefixes}
use Prim.Native.String

module _ (n : Number) where
  key-nonempty : (k : String) (p : Prefix) → get k prefixes ≡ some p → (k == "") ≡ false
  unfolding get
  key-nonempty k p h = elim (Bool-cases (k == "")) [
    | inr e ↦ e
    | inl e ↦ let same : k ≡ "" = (eq_iff k "").0 e in absurd (cc (rw same at h))
  ]

  -- The number and the label use one prefix: the one asked for, or else the best one. Units with
  -- exponents are printed in scientific notation, without a prefix, whatever was asked for.
  pub to_string-uses :
      (u : MetricUnit n) (asked : Option String) (k : String) (p : Prefix)
      → chosen n asked (best_prefix n u) ≡ some k
      → get k prefixes ≡ some p
      → to_string n u asked ≡ (elim u.type.prefix [
        | exponential ↦
            some (String.◌++◌ (n.to_exponential u.value 2) (String.◌++◌ " " u.type.display_format))
        | _ ↦
            some
              (String.◌++◌ (n.to_fixed (scaled n u.value p) 2) (String.◌++◌ " " (label p u.type)))
      ])
  unfolding to_string
  to_string-uses u asked k p c h = ground (arith, key-nonempty k p h)

  -- Without a prefix of the caller's `toString` never throws.
  pub to_string-total : (u : MetricUnit n) → to_string n u none ≢ none
  unfolding value_to_string prefix_to_string to_string
  to_string-total u = elim (Option-cases (best_prefix n u)) [
    | inl e ↦ ground arith
    | inr (k, e) ↦
        let (p, found) = best_prefix-IsKey n u k e in ground (arith, key-nonempty k p found)
  ]

  -- `toString` throws exactly if the caller's prefix is none of the table (nor empty) and would
  -- be used.
  pub to_string-throws_iff :
      (u : MetricUnit n) (asked : String)
      → (to_string n u (some asked) ≡ none)
        ↔ ((u.type.prefix ≢ exponential) × (asked ≢ "") × (get asked prefixes ≡ none))
  unfolding to_string
  to_string-throws_iff u asked = ground (arith, eq_iff asked "")
