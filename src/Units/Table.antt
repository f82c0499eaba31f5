-- ===== src/Units/Table.antt =====
-- frontend/types/units.ts: the constants `Units` and `Prefixes`.
use job_mon.Base.{ℕ, String, [], ◌∷◌}
use job_mon.Js.Object.{Object}

pub data PrefixType : Type 0 where
  no_prefix metric exponential : PrefixType

pub record UnitType : Type 0 where
  pub display_format : String
  pub prefix : PrefixType

pub record Prefix : Type 0 where
  pub short : String
  pub exp : ℕ
  pub base : ℕ

abbrev unit : String → PrefixType → UnitType
unit f p = record { display_format = f; prefix = p }

abbrev scale : String → ℕ → ℕ → Prefix
scale s e b = record { short = s; exp = e; base = b }

abbrev pub units : Object UnitType
units =
    ("Flops", unit "FLOP/s" metric)
    ∷ ("Bits", unit "Bit/s" metric)
    ∷ ("DegC", unit "°C" no_prefix)
    ∷ ("Bytes", unit "B/s" metric)
    ∷ ("Byte", unit "B" metric)
    ∷ ("Percentage", unit "%" no_prefix)
    ∷ ("Packets", unit "Packet/s" exponential)
    ∷ ("Watts", unit "W" metric)
    ∷ ("OPs", unit "OP/s" metric)
    ∷ ("Herz", unit "Hz" metric)
    ∷ ("None", unit "" no_prefix)
    ∷ []

abbrev pub prefixes : Object Prefix
prefixes =
    ("kilo", scale "k" 3 10)
    ∷ ("mega", scale "M" 6 10)
    ∷ ("giga", scale "G" 9 10)
    ∷ ("tera", scale "T" 12 10)
    ∷ ("kibi", scale "Ki" 10 2)
    ∷ ("mebi", scale "Mi" 20 2)
    ∷ ("gibi", scale "Gi" 30 2)
    ∷ ("tebi", scale "Ti" 40 2)
    ∷ ("None", scale "" 0 10)
    ∷ []
