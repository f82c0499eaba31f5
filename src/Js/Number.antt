-- ===== src/Js/Number.antt =====
-- IEEE-754 numbers, as far as the program computes with them. There are no floating-point numbers
-- here: the type and its operations are a parameter, and `IsScaling` names what is used of them.
pub mod Naturals
use job_mon.Base.{ℕ, ◌*◌, ◌≤◌, ◌^◌, ◌≡◌, Bool, true, false, String}

pub record Number : Type 1 where
  pub Carrier : Type 0
  pub of_ℕ : ℕ → Carrier
  pub add : Carrier → Carrier → Carrier
  pub mul : Carrier → Carrier → Carrier
  pub div : Carrier → Carrier → Carrier
  -- `Math.pow` of two whole numbers
  pub pow : ℕ → ℕ → Carrier
  pub le : Carrier → Carrier → Bool
  pub lt : Carrier → Carrier → Bool
  -- `toFixed` and `toExponential`
  pub to_fixed : Carrier → ℕ → String
  pub to_exponential : Carrier → ℕ → String

-- Division by a power of ten up to 10^12, which is exact in binary64, is compared with 1 and 1000 as
-- the exact quotient is; and a number that is at least 1 (so not NaN) is on one side of each integer.
pub record IsScaling (n : Number) : Type 0 where
  pub ge_div :
      (v : n.Carrier) (e : ℕ)
      → e ≤ 12
      → n.le (n.of_ℕ 1) (n.div v (n.pow 10 e)) ≡ n.le (n.of_ℕ (10 ^ e)) v
  pub lt_div :
      (v : n.Carrier) (e : ℕ)
      → e ≤ 12
      → n.lt (n.div v (n.pow 10 e)) (n.of_ℕ 1000) ≡ n.lt v (n.of_ℕ (1000 * 10 ^ e))
  pub total :
      (v : n.Carrier) (m : ℕ)
      → n.le (n.of_ℕ 1) v ≡ true
      → n.le (n.of_ℕ m) v ≡ false
      → n.lt v (n.of_ℕ m) ≡ true
