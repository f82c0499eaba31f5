-- ===== src/Js/Object.antt =====
-- Plain objects used as maps: `DataMap`, `SelectionMap` and the like (frontend/types/job.ts,
-- frontend/types/helpers.ts). Own properties stand in the order of their creation.
pub mod Laws
pub mod Entries
pub mod Places
use Prim.Native.Char.{code}
use Prim.Native.String
use job_mon.Base.{
  ℕ, ◌+◌, ◌-◌, ◌*◌, String, Bool, true, false, not, ◌&&◌, ◌||◌, Option, none, some, List, [], ◌∷◌,
  ◌++◌, map, ◌==◌, ltb, leb, eqb, if◌then◌else◌, any, filter,
}

abbrev pub Object {ℓ} : Type ℓ → Type ℓ
Object V = List (String × V)

-- The names that every object inherits from `Object.prototype`.
abbrev pub inherited_names : List String
inherited_names =
    "constructor" ∷ "__defineGetter__" ∷ "__defineSetter__" ∷ "hasOwnProperty" ∷ "__lookupGetter__"
    ∷ "__lookupSetter__" ∷ "isPrototypeOf" ∷ "propertyIsEnumerable" ∷ "toString" ∷ "valueOf"
    ∷ "__proto__" ∷ "toLocaleString" ∷ []

unfoldable pub is_inherited : String → Bool
is_inherited k = any (λ n. n == k) inherited_names

module _ {ℓ} {V : Type ℓ} where
  -- The own property `o[k]`.
  unfoldable pub get : String → Object V → Option V
  get k [] = none
  get k ((j, v) ∷ o) = if j == k then some v else get k o

  unfoldable pub has_own : String → Object V → Bool
  has_own k [] = false
  has_own k ((j, v) ∷ o) = j == k || has_own k o

  -- `k in o` also finds what is inherited.
  unfoldable pub has : String → Object V → Bool
  has k o = has_own k o || is_inherited k

  -- `o[k] = v`: an own property keeps its place.
  unfoldable pub put : String → V → Object V → Object V
  put k v [] = (k, v) ∷ []
  put k v ((j, w) ∷ o) = if j == k then (j, v) ∷ o else (j, w) ∷ put k v o

  -- `delete o[k]`
  unfoldable pub delete : String → Object V → Object V
  delete k o = filter (λ e. not (e.0 == k)) o

-- The code points of a text.
abbrev pub codes : String → List ℕ
codes String.[] = []
codes (String.◌∷◌ c s) = code c ∷ codes s

abbrev pub is_digit : ℕ → Bool
is_digit c = leb b'0' c && leb c b'9'

unfoldable pub decimal : ℕ → List ℕ → Option ℕ
decimal n [] = some n
decimal n (c ∷ s) = if is_digit c then decimal (10 * n + (c - b'0')) s else none

-- An array index, the canonical numeral of a number below 2^32 - 1.
abbrev canonical : List ℕ → Option ℕ
canonical [] = none
canonical (c ∷ []) = decimal 0 (c ∷ [])
canonical (c ∷ d ∷ s) = if eqb c b'0' then none else decimal 0 (c ∷ d ∷ s)

abbrev below_limit : Option ℕ → Option ℕ
below_limit none = none
below_limit (some n) = if ltb n 4_294_967_295 then some n else none

unfoldable pub index_of : String → Option ℕ
unfolding decimal
index_of k = below_limit (canonical (codes k))

abbrev pub is_none {ℓ} : {A : Type ℓ} → Option A → Bool
is_none none = true
is_none (some a) = false

module _ {ℓ} {V : Type ℓ} where
  -- `n` before the first index that is not below it.
  place : ℕ → String × V → Object V → Object V
  place n e [] = e ∷ []
  place n e ((j, w) ∷ o) =
      let later = (j, w) ∷ place n e o in
      elim (index_of j) [
        | none ↦ e ∷ (j, w) ∷ o
        | some m ↦ if ltb m n then later else e ∷ (j, w) ∷ o
      ]

  indexed : Object V → Object V
  indexed [] = []
  indexed ((k, v) ∷ o) = elim (index_of k) [
    | none ↦ indexed o
    | some n ↦ place n (k, v) (indexed o)
  ]

  -- `Object.entries`: indices ascend, and the other names follow in the order of their creation.
  unfoldable pub entries : Object V → Object V
  unfolding indexed place index_of
  entries o = indexed o ++ filter (λ e. is_none (index_of e.0)) o

  unfoldable pub keys : Object V → List String
  unfolding entries
  keys o = map (λ e. e.0) (entries o)
