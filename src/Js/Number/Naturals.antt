-- ===== src/Js/Number/Naturals.antt =====
-- The natural numbers with rounded division meet what is assumed of `Number`.
use native.Mathlib.Nat.{pow-suc, div-add-mod, mod-lt}
use job_mon.Base.{ℕ, zero, suc, ◌+◌, ◌*◌, ◌/◌, ◌^◌, ◌<◌, ◌≤◌, ◌≡◌, arith, ltb, leb}
use job_mon.Js.Number.{Number, IsScaling}

abbrev pub naturals : Number
naturals = record {
  Carrier = ℕ;
  of_ℕ = λ n. n;
  add = λ a b. a + b;
  mul = λ a b. a * b;
  div = λ a b. a / b;
  pow = λ a b. a ^ b;
  le = leb;
  lt = ltb;
  to_fixed = λ n d. "n";
  to_exponential = λ n d. "e";
}

pow-pos : (e : ℕ) → 0 < 10 ^ e
pow-pos zero = omega arith
pow-pos (suc e) = omega (arith, pow-pos e, pow-suc 10 e)

-- A multiple of `p` beside one by a numeral.
mul-bounds :
    (p q : ℕ)
    → (1 ≤ q → p ≤ p * q)
      × (q ≤ 0 → p * q ≤ 0)
      × (1000 ≤ q → 1000 * p ≤ p * q)
      × (q < 1000 → p * q + p ≤ 1000 * p)
mul-bounds p q = (λ h. grind arith, λ h. grind arith, λ h. grind arith, λ h. below p q h)
  where
    below : (p q : ℕ) → q < 1000 → p * q + p ≤ 1000 * p
    below p q h = let step : p * (q + 1) ≤ p * 1000 = grind arith in omega arith

ge_div_of_pos : (v p : ℕ) → 0 < p → leb 1 (v / p) ≡ leb p v
ge_div_of_pos v p h = ground (arith, div-add-mod v p, mod-lt v h, mul-bounds p (v / p))

lt_div_of_pos : (v p : ℕ) → 0 < p → ltb (v / p) 1000 ≡ ltb v (1000 * p)
lt_div_of_pos v p h = ground (arith, div-add-mod v p, mod-lt v h, mul-bounds p (v / p))

pub naturals-IsScaling : IsScaling naturals
naturals-IsScaling = record {
  ge_div = λ v e _. ge_div_of_pos v (10 ^ e) (pow-pos e);
  lt_div = λ v e _. lt_div_of_pos v (10 ^ e) (pow-pos e);
  total = λ v m _ h. ground arith;
}
