-- ===== src/Paging/Buttons.antt =====
-- The buttons of `PageSelection`.
use job_mon.Base.{
  All-append, All, Bool, arith, false, inl, inr, not, refl, true, ℕ, ◌&&◌, ◌<◌, ◌≡◌, ◌≢◌, ◌⊎◌,
}
use job_mon.Base.Int.{+ℤ_parts, -ℤ_parts, leb_ℤ, pos, ℤ, ◌+ℤ◌, ◌-ℤ◌, ◌≤ℤ◌}
use job_mon.Paging.{number_button, Button, buttons}

module _ (current pages : ℤ) where
  -- A click on the button, if it can be clicked, sets a valid page other than the current one.
  abbrev pub IsSafe : Button → Type 0
  IsSafe b = b.enabled ≡ true → (pos 1 ≤ℤ b.target) × (b.target ≤ℤ pages) × (b.target ≢ current)

  number_button-IsSafe :
      (shown : Bool) (t : ℤ)
      → (shown ≡ true → (pos 1 ≤ℤ t) × (t ≤ℤ pages) × (t ≢ current))
      → All IsSafe (number_button shown t)
  number_button-IsSafe true t h = (λ _. h refl, tt)
  number_button-IsSafe false t h = tt

  module _ (extended : Bool) (low : pos 1 ≤ℤ current) (high : current ≤ℤ pages) where
    back :
        (k : ℕ)
        → 0 < k
        → pos 1 ≤ℤ current -ℤ pos k
        → (pos 1 ≤ℤ current -ℤ pos k) × (current -ℤ pos k ≤ℤ pages) × (current -ℤ pos k ≢ current)
    back k h m =
        (m, omega (arith, -ℤ_parts current (pos k)), λ e. ground (arith, -ℤ_parts current (pos k)))

    forward :
        (k : ℕ)
        → 0 < k
        → current +ℤ pos k ≤ℤ pages
        → (pos 1 ≤ℤ current +ℤ pos k) × (current +ℤ pos k ≤ℤ pages) × (current +ℤ pos k ≢ current)
    forward k h m =
        (omega (arith, +ℤ_parts current (pos k)), m, λ e. ground (arith, +ℤ_parts current (pos k)))

    first-IsSafe :
        (t : ℤ)
        → (t ≡ pos 1) ⊎ (t ≡ current -ℤ pos 1)
        → IsSafe (record { enabled = not (leb_ℤ current (pos 1)); target = t })
    first-IsSafe t (inl e) on = ground arith
    first-IsSafe t (inr e) on =
        rw e (back 1 (omega arith) (ground (arith, -ℤ_parts current (pos 1))))

    last-IsSafe :
        (t : ℤ)
        → (t ≡ pages) ⊎ (t ≡ current +ℤ pos 1)
        → IsSafe (record { enabled = not (leb_ℤ pages current); target = t })
    last-IsSafe t (inl e) on = ground arith
    last-IsSafe t (inr e) on =
        rw e (forward 1 (omega arith) (ground (arith, +ℤ_parts current (pos 1))))

    back-IsSafe :
        (k : ℕ)
        → 0 < k
        → All IsSafe
            (number_button (extended && leb_ℤ (pos 1) (current -ℤ pos k)) (current -ℤ pos k))
    back-IsSafe k h = number_button-IsSafe _ _ (λ e. back k h (ground arith))

    forward-IsSafe :
        (k : ℕ)
        → 0 < k
        → All IsSafe (number_button (extended && leb_ℤ (current +ℤ pos k) pages) (current +ℤ pos k))
    forward-IsSafe k h = number_button-IsSafe _ _ (λ e. forward k h (ground arith))

-- On a valid page every button that can be clicked sets a valid page, other than the current one.
pub buttons-IsSafe :
    (current pages : ℤ) (extended : Bool)
    → pos 1 ≤ℤ current
    → current ≤ℤ pages
    → All (IsSafe current pages) (buttons current pages extended)
unfolding buttons
buttons-IsSafe current pages extended low high =
    let P = IsSafe current pages in
    let to_first = first-IsSafe current pages extended low high in
    let to_last = last-IsSafe current pages extended low high in
    let before =
      All-append P _ _ (back-IsSafe current pages extended low high 2 (omega arith))
        (back-IsSafe current pages extended low high 1 (omega arith)) in
    let around =
      All-append P _ _
        (All-append P _ _ before (forward-IsSafe current pages extended low high 1 (omega arith)))
        (forward-IsSafe current pages extended low high 2 (omega arith)) in
    (
      to_first (pos 1) (inl refl),
      (
        to_first (current -ℤ pos 1) (inr refl),
        All-append P _ _ around
            (to_last (current +ℤ pos 1) (inr refl), (to_last pages (inl refl), tt)),
      ),
    )
