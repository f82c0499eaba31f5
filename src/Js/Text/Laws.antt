-- ===== src/Js/Text/Laws.antt =====
-- Splitting what was joined.
use job_mon.Base.{String, [], arith, eqb, false, refl, true, ℕ, ◌∷◌, ◌≡◌}
use job_mon.Js.Text.{glue, occurs, split}
use Prim.Native.Char.{Char, code}
use Prim.Native.String
use text.Mathlib.TextLemmas.{nil-append, cons-append}

pub split-whole : (sep : ℕ) (s : String) → occurs sep s ≡ false → split sep s ≡ s ∷ []
unfolding split glue
split-whole sep String.[] h = refl
split-whole sep (String.◌∷◌ c s) h =
    let other : eqb (code c) sep ≡ false = ground arith in
    let rest : occurs sep s ≡ false = ground arith in rw (other, split-whole sep s rest)

pub split-append :
    (dot : Char) (s t : String)
    → occurs (code dot) s ≡ false
    → split (code dot) (String.◌++◌ s (String.◌∷◌ dot t)) ≡ s ∷ split (code dot) t
unfolding split glue
split-append dot String.[] t h =
    let same : eqb (code dot) (code dot) ≡ true = ground arith in rw (nil-append, split, same)
split-append dot (String.◌∷◌ c s) t h =
    let other : eqb (code c) (code dot) ≡ false = ground arith in
    let rest : occurs (code dot) s ≡ false = ground arith in
    rw (cons-append, split, other, split-append dot s t rest)
