-- ===== src/Js/Array.antt =====
-- `Array.prototype.slice` and `Array.prototype.sort`.
pub mod Laws
pub mod Order
use job_mon.Base.{
  ℕ, ◌+◌, ◌-◌, min, Bool, true, false, List, [], ◌∷◌, if◌then◌else◌, length, take, drop,
}
use job_mon.Base.Int.{ℤ, pos, negsuc, neg_part}

-- An index relative to the end if negative, cut off at both ends.
abbrev pub relative : ℤ → ℕ → ℕ
relative (pos a) n = min a n
relative (negsuc a) n = n - (a + 1)

abbrev pub is_negative : ℤ → Bool
is_negative (pos a) = false
is_negative (negsuc a) = true

module _ {ℓ} {A : Type ℓ} where
  unfoldable pub slice : ℤ → ℤ → List A → List A
  slice from to xs =
      let n = length xs in
      let start = relative from n in take (relative to n - start) (drop start xs)

-- A comparator puts `x` before `y` where its answer is negative. The language fixes the result for a
-- consistent comparator; insertion, which engines use for short arrays, is a result for any other.
module _ {ℓ} {A : Type ℓ} (compare : A → A → ℤ) where
  unfoldable pub insert : A → List A → List A
  insert x [] = x ∷ []
  insert x (y ∷ ys) = if is_negative (compare x y) then x ∷ y ∷ ys else y ∷ insert x ys

  unfoldable pub insert_all : List A → List A → List A
  insert_all done [] = done
  insert_all done (x ∷ xs) = insert_all (insert x done) xs

  unfoldable pub sort : List A → List A
  unfolding insert insert_all
  sort xs = insert_all [] xs
