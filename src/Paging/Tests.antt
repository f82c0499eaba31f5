-- ===== src/Paging/Tests.antt =====
-- Runs of the page logic.
use job_mon.Js.Array.{slice}
use job_mon.Base.{List, [], refl, ℕ, ◌∷◌, ◌≡◌}
use job_mon.Base.Int.{pos, ◌*ℤ◌, ◌+ℤ◌, ◌-ℤ◌}
use job_mon.Paging.{adjust, divide, page_slice}

abbrev seven : List ℕ
seven = 1 ∷ 2 ∷ 3 ∷ 4 ∷ 5 ∷ 6 ∷ 7 ∷ []

third_page : page_slice 3 (pos 3) seven ≡ 7 ∷ []
unfolding page_slice slice ◌*ℤ◌ ◌+ℤ◌ ◌-ℤ◌
third_page = refl

adjusted :
    (adjust (divide 7 3) (pos 9) ≡ pos 3)
    × (adjust (divide 0 3) (pos 2) ≡ pos 0)
    × (adjust (divide 7 0) (pos 0) ≡ pos 1)
unfolding adjust divide
adjusted = (refl, refl, refl)
