-- ===== src/Paging/Settling.antt =====
-- The page that repeated renderings settle on.
use job_mon.Base.{arith, max, ℕ, ◌+◌, ◌-◌, ◌/◌, ◌<◌, ◌≡◌}
use job_mon.Base.Int.{pos, ℤ, ◌≤ℤ◌}
use job_mon.Paging.{Quotient, adjust, ceil, clamp, divide}

-- A list has a page exactly if it has an element.
pub ceil-pos : (a b : ℕ) → 0 < b → 0 < a → 0 < (a + b - 1) / b
ceil-pos a b hb ha = grind arith

pub ceil-zero : (b : ℕ) → 0 < b → (0 + b - 1) / b ≡ 0
ceil-zero b hb = grind arith

-- The clamped value lies in the interval, and a value of the interval is kept.
pub clamp_bounds :
    (val low high : ℤ)
    → low ≤ℤ high
    → (low ≤ℤ clamp val low high)
      × (clamp val low high ≤ℤ high)
      × (low ≤ℤ val → val ≤ℤ high → clamp val low high ≡ val)
unfolding clamp
clamp_bounds val low high h = (ground arith, ground arith, λ a b. ground arith)

module _ (count limit : ℕ) (some_limit : 0 < limit) where
  abbrev quotient : Quotient
  quotient = divide count limit

  -- One rendering from any page, also from a stored one that is out of range, reaches page 0 or a
  -- valid page.
  adjust_once :
      (page : ℤ)
      → (pos 0 ≤ℤ adjust quotient page) × (adjust quotient page ≤ℤ pos (max 1 (ceil quotient)))
  unfolding adjust divide
  adjust_once page = ground arith

  adjust-settled :
      (page : ℤ)
      → pos 0 ≤ℤ page
      → page ≤ℤ pos (max 1 (ceil quotient))
      → (adjust quotient (adjust quotient page) ≡ adjust quotient page)
        × (count ≡ 0 → adjust quotient page ≡ pos 0)
        × (0 < count
            → (pos 1 ≤ℤ adjust quotient page) × (adjust quotient page ≤ℤ pos (ceil quotient)))
  unfolding adjust divide
  adjust-settled page h k = (
    ground (arith, ceil-pos count limit some_limit, ceil-zero limit some_limit),
    λ e. ground (arith, ceil-zero limit some_limit),
    λ e. ground (arith, ceil-pos count limit some_limit),
  )

  -- With a positive limit the page settles: whatever page was stored, two renderings reach a page
  -- that a third one keeps. It is 0 for an empty list, and a page from 1 to the last one for any
  -- other.
  pub adjust_settles :
      (page : ℤ)
      → (adjust quotient (adjust quotient (adjust quotient page))
          ≡ adjust quotient (adjust quotient page))
        × (count ≡ 0 → adjust quotient (adjust quotient page) ≡ pos 0)
        × (0 < count
            → (pos 1 ≤ℤ adjust quotient (adjust quotient page))
              × (adjust quotient (adjust quotient page) ≤ℤ pos (ceil quotient)))
  adjust_settles page =
      let (low, high) = adjust_once page in adjust-settled (adjust quotient page) low high

  -- A valid page is left alone.
  pub adjust-valid :
      (page : ℤ) → pos 1 ≤ℤ page → page ≤ℤ pos (ceil quotient) → adjust quotient page ≡ page
  unfolding adjust divide
  adjust-valid page h k = ground arith
