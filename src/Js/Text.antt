-- ===== src/Js/Text.antt =====
-- `String.prototype.split` at one character, given by its code.
pub mod Laws
pub mod Decimal
use job_mon.Base.{Bool, List, String, [], eqb, false, if◌then◌else◌, ℕ, ◌||◌, ◌∷◌}
use Prim.Native.Char.{Char, code}
use Prim.Native.String

unfoldable pub glue : Char → List String → List String
glue c [] = String.◌∷◌ c String.[] ∷ []
glue c (part ∷ parts) = String.◌∷◌ c part ∷ parts

unfoldable pub split : ℕ → String → List String
unfolding glue
split sep String.[] = "" ∷ []
split sep (String.◌∷◌ c s) =
    let rest = split sep s in if eqb (code c) sep then "" ∷ rest else glue c rest

-- `str.includes(sep)`, for one character.
abbrev pub occurs : ℕ → String → Bool
occurs sep String.[] = false
occurs sep (String.◌∷◌ c s) = eqb (code c) sep || occurs sep s
