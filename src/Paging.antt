-- ===== src/Paging.antt =====
-- The pages of a list: `clamp` of frontend/utils/utils.ts, the page logic that frontend/pages/jobs.tsx
-- and frontend/components/search/SearchResultList.tsx share, the part of the list that
-- frontend/components/joblist/JobList.tsx shows, and frontend/components/utils/PageSelection.tsx.
-- A page is an integer; the number of pages is the quotient of two natural numbers, whose rounding up
-- is exact in binary64 for lists below 2^53 elements.
pub mod Settling
pub mod Slices
pub mod Buttons
mod Tests
use job_mon.Base.{
  Bool, List, [], eqb, false, if◌then◌else◌, ltb, not, true, ℕ, ◌&&◌, ◌*◌, ◌++◌, ◌+◌, ◌-◌, ◌/◌,
  ◌||◌, ◌∷◌,
}
use job_mon.Base.Int.{leb_ℤ, ltb_ℤ, negsuc, pos, ℤ, ◌*ℤ◌, ◌+ℤ◌, ◌-ℤ◌}
use job_mon.Js.Array.{slice}
use Prim.Native.Nat.{zero}

abbrev pub is_zero : ℤ → Bool
is_zero (pos n) = eqb n 0
is_zero (negsuc n) = false

-- `Math.min(Math.max(val, min), max)`
unfoldable pub clamp : ℤ → ℤ → ℤ → ℤ
clamp val low high =
    let raised = if ltb_ℤ val low then low else val in if ltb_ℤ high raised then high else raised

-- The number `length / limit`.
pub data Quotient : Type 0 where
  nan infinity : Quotient
  ratio : ℕ → ℕ → Quotient

unfoldable pub divide : ℕ → ℕ → Quotient
divide count limit =
    if eqb limit 0 then if eqb count 0 then nan else infinity else ratio count limit

-- `!isNaN(pages) && isFinite(pages)`
abbrev pub is_finite : Quotient → Bool
is_finite (ratio a b) = true
is_finite _ = false

-- `Math.ceil(pages)`, read of a finite quotient only.
abbrev pub ceil : Quotient → ℕ
ceil (ratio a b) = (a + b - 1) / b
ceil _ = 0

-- `pages > k`
abbrev pub exceeds : Quotient → ℕ → Bool
exceeds nan k = false
exceeds infinity k = true
exceeds (ratio a b) k = ltb (k * b) a

-- The page that a call of `setPageStorage` leaves, if its test holds.
abbrev set_if : Bool → ℤ → ℤ → ℤ
set_if test new old = if test then new else old

-- One rendering: both tests read the page that was rendered, and the last call stands.
unfoldable pub adjust : Quotient → ℤ → ℤ
unfolding clamp
adjust pages page =
    let top = pos (ceil pages) in
    let outside = is_finite pages && (ltb_ℤ page (pos 0) || ltb_ℤ top page) in
    let clamped = set_if outside (clamp page (pos 0) top) page in
    set_if (is_zero page && exceeds pages 0) (pos 1) clamped

-- What `PageSelection` is told of the number of pages.
unfoldable pub shown_pages : Quotient → ℕ
shown_pages pages = if is_finite pages then ceil pages else 1

-- The selections stand above and below the list, if there is more than one page.
unfoldable pub shows_selection : Quotient → Bool
shows_selection pages = exceeds pages 1

-- The elements of one page; with the limit 0 the list is shown whole.
unfoldable pub page_slice {ℓ} : {A : Type ℓ} → ℕ → ℤ → List A → List A
page_slice limit page jobs =
    let start = pos limit *ℤ (page -ℤ pos 1) in
    if eqb limit 0 then jobs else slice start (start +ℤ pos limit) jobs

-- A button of `PageSelection`: whether it can be clicked, and the page that the click sets.
pub record Button : Type 0 where
  pub enabled : Bool
  pub target : ℤ

abbrev number_button : Bool → ℤ → List Button
number_button shown target = if shown then record { enabled = true; target = target } ∷ [] else []

-- First, back, up to two pages before, up to two pages behind, forward, last. The current page's own
-- button does nothing and is left out.
unfoldable pub buttons : ℤ → ℤ → Bool → List Button
unfolding ◌+ℤ◌ ◌-ℤ◌
buttons current pages extended =
    record { enabled = not (leb_ℤ current (pos 1)); target = pos 1 }
      ∷ record { enabled = not (leb_ℤ current (pos 1)); target = current -ℤ pos 1 }
      ∷ number_button (extended && leb_ℤ (pos 1) (current -ℤ pos 2)) (current -ℤ pos 2)
    ++ number_button (extended && leb_ℤ (pos 1) (current -ℤ pos 1)) (current -ℤ pos 1)
    ++ number_button (extended && leb_ℤ (current +ℤ pos 1) pages) (current +ℤ pos 1)
    ++ number_button (extended && leb_ℤ (current +ℤ pos 2) pages) (current +ℤ pos 2)
    ++ record { enabled = not (leb_ℤ pages current); target = current +ℤ pos 1 }
      ∷ record { enabled = not (leb_ℤ pages current); target = pages }
      ∷ []
