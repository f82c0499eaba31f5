-- ===== src/Nodes/Parsing.antt =====
-- What a word of the text field stands for.
use job_mon.Js.Text.Decimal.{
  are_digits, is_number, numeral-is_number, numeral, value, value-numeral,
}
use job_mon.Base.{
  Bool-cases, eqb, inl, inr, none, ℕ, ◌+◌, ◌-◌, ◌==◌, Bool, String, [], arith, false, not, refl,
  true, ◌∷◌, ◌≡◌,
}
use job_mon.Js.Object.{is_digit}
use job_mon.Nodes.{between, count_up, range_here, single_here, first_match, parse_part, span_digits}
use Prim.Native.Char.{Char, code}
use Prim.Native.String
use text.Mathlib.TextEquality.{eq_iff}
use text.Mathlib.TextLemmas.{nil-append, cons-append, append-nil}

-- A text that does not go on with a digit.
abbrev stops : String → Bool
stops String.[] = true
stops (String.◌∷◌ c s) = not (is_digit (code c))

cons_not_nil : (c : Char) (s : String) → (String.◌∷◌ c s == "") ≡ false
cons_not_nil c s = elim (Bool-cases (String.◌∷◌ c s == "")) [
  | inl blank ↦ absurd (cc ((eq_iff (String.◌∷◌ c s) "").0 blank))
  | inr other ↦ other
]

span-digits :
    (d s : String) → are_digits d ≡ true → stops s ≡ true → span_digits (String.◌++◌ d s) ≡ (d, s)
unfolding span_digits
span-digits String.[] String.[] h k = refl
span-digits String.[] (String.◌∷◌ c s) h k =
    let other : is_digit (code c) ≡ false = ground arith in rw (nil-append, span_digits, other)
span-digits (String.◌∷◌ c d) s h k =
    let figure : is_digit (code c) ≡ true = ground arith in
    let rest : are_digits d ≡ true = ground arith in
    rw (cons-append, span_digits, figure, span-digits d s rest k)

module _ (c : Char) (s : String) (figure : is_digit (code c) ≡ true) where
  -- A text that starts with a digit is no range.
  range_none : range_here (String.◌∷◌ c s) ≡ none
  unfolding range_here
  range_none = let other : eqb (code c) b'[' ≡ false = ground arith in rw other refl

-- A word of digits names one node, as it is written.
pub parse_part-single :
    (c : Char) (s : String)
    → are_digits (String.◌∷◌ c s) ≡ true
    → parse_part (String.◌∷◌ c s) ≡ String.◌∷◌ c s ∷ []
unfolding parse_part first_match single_here
parse_part-single c s h =
    let figure : is_digit (code c) ≡ true = ground arith in
    let whole = rw append-nil at (span-digits (String.◌∷◌ c s) String.[] h refl) in
    rw (range_none c s figure, whole, cons_not_nil c s) refl

-- The word "[lower-upper]".
abbrev pub range_text : String → String → String
range_text lower upper = String.◌∷◌ "[" (String.◌++◌ lower (String.◌∷◌ "-" (String.◌++◌ upper "]")))

-- A word of digits names one node, as it is written.
pub parse_part-range :
    (lower upper : String)
    → is_number lower ≡ true
    → is_number upper ≡ true
    → parse_part (range_text lower upper) ≡ between (value lower) (value upper)
unfolding parse_part first_match range_here
parse_part-range lower upper h k =
    let h' : are_digits lower ≡ true = ground arith in
    let k' : are_digits upper ≡ true = ground arith in
    let hn : (lower == "") ≡ false = ground arith in
    let kn : (upper == "") ≡ false = ground arith in
    let first = span-digits lower (String.◌∷◌ "-" (String.◌++◌ upper "]")) h' refl in
    let second = span-digits upper "]" k' refl in rw (first, second, hn, kn) refl

-- The word "[lower-upper]" of two numerals names the nodes from the lower to the upper number,
-- both included, and none if the upper one is smaller.
pub parse_part-numbers :
    (lower upper : ℕ)
    → parse_part (range_text (numeral lower) (numeral upper)) ≡ count_up (upper + 1 - lower) lower
parse_part-numbers lower upper =
    rw
      (
        parse_part-range (numeral lower) (numeral upper) (numeral-is_number lower)
            (numeral-is_number upper),
        value-numeral lower,
        value-numeral upper,
      )
      refl
