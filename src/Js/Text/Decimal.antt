-- ===== src/Js/Text/Decimal.antt =====
-- The decimal numerals of numbers, and `parseInt` of a numeral.
use job_mon.Base.{
  ap, sym, ◌∙◌, Bool, false, not, true, ◌&&◌, ◌==◌, eqb_iff, ◌≢◌, refl, Bool-cases, inl, inr,
  ltb→lt, ◌-◌, Option, String, arith, eqb, if◌then◌else◌, ltb, some, suc, zero, ℕ, ◌%◌, ◌*◌, ◌+◌,
  ◌/◌, ◌<◌, ◌≡◌, ◌≤◌,
}
use job_mon.Js.Object.{is_digit, codes, decimal}
use Prim.Native.Char.{code}
use text.Mathlib.TextPositions.{eq_refl}
use text.Mathlib.TextEquality.{eq_iff}
use text.Mathlib.TextLemmas.{nil-append, cons-append}
use Prim.Native.String

abbrev digit : ℕ → String
digit n =
    if eqb n 0
    then "0"
    else if eqb n 1
    then "1"
    else if eqb n 2
    then "2"
    else if eqb n 3
    then "3"
    else if eqb n 4
    then "4"
    else if eqb n 5
    then "5"
    else if eqb n 6
    then "6"
    else if eqb n 7
    then "7"
    else if eqb n 8
    then "8"
    else "9"

unfoldable pub numeral_from : ℕ → ℕ → String
numeral_from zero n = digit n
numeral_from (suc fuel) n =
    let front = numeral_from fuel (n / 10) in
    if ltb n 10 then digit n else String.◌++◌ front (digit (n % 10))

-- `n.toString()`
unfoldable pub numeral : ℕ → String
unfolding numeral_from
numeral n = numeral_from n n

-- `parseInt` of a text of digits.
abbrev pub value : String → Option ℕ
value s = decimal 0 (codes s)

-- Each figure as a numeral.
figures :
    (m : ℕ)
    → (decimal m (codes "0") ≡ some (10 * m + 0))
      × (decimal m (codes "1") ≡ some (10 * m + 1))
      × (decimal m (codes "2") ≡ some (10 * m + 2))
      × (decimal m (codes "3") ≡ some (10 * m + 3))
      × (decimal m (codes "4") ≡ some (10 * m + 4))
      × (decimal m (codes "5") ≡ some (10 * m + 5))
      × (decimal m (codes "6") ≡ some (10 * m + 6))
      × (decimal m (codes "7") ≡ some (10 * m + 7))
      × (decimal m (codes "8") ≡ some (10 * m + 8))
      × (decimal m (codes "9") ≡ some (10 * m + 9))
unfolding decimal
figures m = (refl, refl, refl, refl, refl, refl, refl, refl, refl, refl)

abbrev Reads : ℕ → ℕ → String → Type 0
Reads m n s = decimal m (codes s) ≡ some (10 * m + n)

step :
    (m n k : ℕ) (s rest : String)
    → Reads m k s
    → (n ≢ k → Reads m n rest)
    → Reads m n (if eqb n k then s else rest)
step m n k s rest hit miss = elim (Bool-cases (eqb n k)) [
  | inl same ↦ let e = (eqb_iff n k).0 same in rw (same, e) hit
  | inr other ↦ rw other (miss (λ e. absurd (cc ((eqb_iff n k).1 e, other))))
]

digit-value : (m n : ℕ) → n < 10 → Reads m n (digit n)
digit-value m n h = step m n 0 "0" _ (figures m).0 (λ h0. step m n 1 "1" _ (figures m).1 (λ h1.
    step m n 2 "2" _ (figures m).2 (λ h2. step m n 3 "3" _ (figures m).3 (λ h3.
      step m n 4 "4" _ (figures m).4 (λ h4. step m n 5 "5" _ (figures m).5 (λ h5.
        step m n 6 "6" _ (figures m).6 (λ h6. step m n 7 "7" _ (figures m).7 (λ h7.
          step m n 8 "8" _ (figures m).8
            (λ h8. let nine : n ≡ 9 = omega arith in rw nine (figures m).9)))))))))

decimal-append :
    (m : ℕ) (s t : String) (n : ℕ)
    → decimal m (codes s) ≡ some n
    → decimal m (codes (String.◌++◌ s t)) ≡ decimal n (codes t)
unfolding decimal
decimal-append m String.[] t n h = let same : m ≡ n = ground arith in rw (nil-append, same)
decimal-append m (String.◌∷◌ c s) t n h = elim (Bool-cases (is_digit (code c))) [
  | inl figure ↦
      let next = 10 * m + (code c - b'0') in
      let tail : decimal next (codes s) ≡ some n = rw (decimal, figure) at h in
      rw (cons-append, decimal, figure, decimal-append next s t n tail)
  | inr other ↦ absurd (cc (rw (decimal, other) at h))
]

from_zero : (n : ℕ) {o : Option ℕ} → o ≡ some (10 * 0 + n) → o ≡ some n
from_zero n h = let same : 10 * 0 + n ≡ n = omega arith in rw same at h

numeral_from-value : (fuel n : ℕ) → n ≤ fuel → decimal 0 (codes (numeral_from fuel n)) ≡ some n
unfolding numeral_from
numeral_from-value zero n h =
    let none_left : 0 ≡ n = omega arith in rw (← none_left) (digit-value 0 0 (omega arith))
numeral_from-value (suc fuel) n h = elim (Bool-cases (ltb n 10)) [
  | inl small ↦ rw small (from_zero n (digit-value 0 n (ltb→lt n 10 small)))
  | inr large ↦
      let front = numeral_from-value fuel (n / 10) (ground arith) in
      let figure = digit-value (n / 10) (n % 10) (omega arith) in
      let joined = decimal-append 0 (numeral_from fuel (n / 10)) (digit (n % 10)) (n / 10) front in
      let whole : 10 * (n / 10) + n % 10 ≡ n = omega arith in rw (large, joined, figure, whole)
]

-- Reading a numeral gives the number.
pub value-numeral : (n : ℕ) → value (numeral n) ≡ some n
unfolding numeral
value-numeral n = numeral_from-value n n (omega arith)

module _ (P : String → Type 0) where
  pick : (test : Bool) {s rest : String} → P s → P rest → P (if test then s else rest)
  pick true hit miss = hit
  pick false hit miss = miss

  digit_cases :
      (n : ℕ)
      → P "0" × P "1" × P "2" × P "3" × P "4" × P "5" × P "6" × P "7" × P "8" × P "9"
      → P (digit n)
  digit_cases n h = pick (eqb n 0) h.0 (
      pick (eqb n 1) h.1 (
        pick (eqb n 2) h.2 (
          pick (eqb n 3) h.3 (
            pick (eqb n 4) h.4 (
              pick (eqb n 5) h.5
                (pick (eqb n 6) h.6 (pick (eqb n 7) h.7 (pick (eqb n 8) h.8 (h.9)))))))))

-- A text of digits only.
abbrev pub are_digits : String → Bool
are_digits String.[] = true
are_digits (String.◌∷◌ c s) = is_digit (code c) && are_digits s

abbrev pub is_number : String → Bool
is_number s = are_digits s && not (s == "")

digit-are_digits : (n : ℕ) → are_digits (digit n) ≡ true
digit-are_digits n =
    digit_cases (λ s. are_digits s ≡ true) n
      (refl, refl, refl, refl, refl, refl, refl, refl, refl, refl)

are_digits-append : (s t : String) → are_digits (String.◌++◌ s t) ≡ (are_digits s && are_digits t)
are_digits-append String.[] t = rw nil-append refl
are_digits-append (String.◌∷◌ c s) t = rw cons-append (ground (arith, are_digits-append s t))

numeral_from-are_digits : (fuel n : ℕ) → are_digits (numeral_from fuel n) ≡ true
unfolding numeral_from
numeral_from-are_digits zero n = digit-are_digits n
numeral_from-are_digits (suc fuel) n = elim (Bool-cases (ltb n 10)) [
  | inl small ↦ rw small (digit-are_digits n)
  | inr large ↦
      rw
        (
          large,
          are_digits-append (numeral_from fuel (n / 10)) (digit (n % 10)),
          numeral_from-are_digits fuel (n / 10),
          digit-are_digits (n % 10),
        )
        refl
]

zero_numeral : numeral 0 ≢ ""
unfolding numeral numeral_from
zero_numeral e = cc e

value_nil : value "" ≡ some 0
unfolding decimal
value_nil = refl

-- A numeral that is "" would have the value 0, but the numeral of 0 is "0".
not_blank : (n : ℕ) → numeral n ≢ ""
not_blank zero e = zero_numeral e
not_blank (suc n) e =
    let read = ap value e in
    let clash : some 0 ≡ some (suc n) = sym value_nil ∙ sym read ∙ value-numeral (suc n) in
    ground (arith, clash)

pub numeral-is_number : (n : ℕ) → is_number (numeral n) ≡ true
unfolding numeral
numeral-is_number n = elim (Bool-cases (numeral n == "")) [
  | inl blank ↦ absurd (not_blank n ((eq_iff (numeral n) "").0 blank))
  | inr other ↦ rw (numeral_from-are_digits n n, other) refl
]

pub numeral_inj : (m n : ℕ) → numeral m ≡ numeral n → m ≡ n
numeral_inj m n e =
    let read : some m ≡ some n = sym (value-numeral m) ∙ ap value e ∙ value-numeral n in
    ground (arith, read)

pub same_numeral : (i j : ℕ) → (numeral i == numeral j) ≡ eqb i j
same_numeral i j = elim (Bool-cases (eqb i j)) [
  | inl same ↦ let e = (eqb_iff i j).0 same in rw (same, e, eq_refl (numeral j)) refl
  | inr other ↦ elim (Bool-cases (numeral i == numeral j)) [
    | inl equal ↦
        let e = numeral_inj i j ((eq_iff (numeral i) (numeral j)).0 equal) in
        absurd (cc ((eqb_iff i j).1 e, other))
    | inr unequal ↦ cc (unequal, other)
  ]
]
