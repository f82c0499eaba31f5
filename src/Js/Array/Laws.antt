-- ===== src/Js/Array/Laws.antt =====
-- Laws of `sort`: it rearranges, and where the comparator answers by an order it sorts.
use mathlib.Core.List.{perm_middle}
use mathlib.Core.List.Perm
use job_mon.Base.{
  ◌-◌, length, min, refl, suc, take, zero, ℕ, ◌≡◌, true, false, List, [], ◌∷◌, ◌++◌, Perm, arith,
  All, inl, inr, Bool-cases, filter, Bool,
}
use job_mon.Base.Int.{pos, ℤ}
use job_mon.Js.Array.{slice, is_negative, insert, insert_all, sort}

module _ {ℓ} {A : Type ℓ} (compare : A → A → ℤ) where
  insert-perm : (x : A) (ys : List A) → Perm (insert compare x ys) (x ∷ ys)
  unfolding insert
  insert-perm x [] = Perm.rfl
  insert-perm x (y ∷ ys) = ground (
    arith,
    Perm.refl (x ∷ y ∷ ys),
    Perm.trans (Perm.cons y (insert-perm x ys)) (Perm.swap x y ys),
  )

  insert_all-perm : (done xs : List A) → Perm (insert_all compare done xs) (xs ++ done)
  unfolding insert_all
  insert_all-perm done [] = Perm.rfl
  insert_all-perm done (x ∷ xs) =
      Perm.trans (insert_all-perm (insert compare x done) xs)
        (Perm.trans (Perm.append_left xs (insert-perm x done)) (perm_middle xs done))

  -- A sort rearranges, whatever the comparator.
  pub sort-perm : (xs : List A) → Perm (sort compare xs) xs
  unfolding sort
  sort-perm xs = append_nil (insert_all-perm [] xs)
    where
      append_nil : Perm (insert_all compare [] xs) (xs ++ []) → Perm (insert_all compare [] xs) xs
      append_nil h = rw mathlib.Core.List.append-nil at h

module _ {ℓ κ} {A : Type ℓ} (R : A → A → Type κ) where
  -- Every element stands in the relation to all that follow.
  abbrev pub IsSorted : List A → Type κ
  IsSorted [] = Unit
  IsSorted (x ∷ xs) = All (R x) xs × IsSorted xs

  pub filter-All : (p : A → Bool) (x : A) (xs : List A) → All (R x) xs → All (R x) (filter p xs)
  filter-All p x [] h = tt
  filter-All p x (y ∷ ys) h = ground (arith, filter-All p x ys h.1)

  pub filter-IsSorted : (p : A → Bool) (xs : List A) → IsSorted xs → IsSorted (filter p xs)
  filter-IsSorted p [] h = tt
  filter-IsSorted p (x ∷ xs) h = ground (arith, filter-All p x xs h.0, filter-IsSorted p xs h.1)

module _ {ℓ κ} {A : Type ℓ} (R : A → A → Type κ) (trans : (x y z : A) → R x y → R y z → R x z)
    (compare : A → A → ℤ) (before : (x y : A) → is_negative (compare x y) ≡ true → R x y)
    (after : (x y : A) → is_negative (compare x y) ≡ false → R y x) where
  All-trans : (x y : A) (ys : List A) → R x y → All (R y) ys → All (R x) ys
  All-trans x y [] h k = tt
  All-trans x y (z ∷ zs) h k = (trans x y z h k.0, All-trans x y zs h k.1)

  insert-All : (z x : A) (ys : List A) → R z x → All (R z) ys → All (R z) (insert compare x ys)
  unfolding insert
  insert-All z x [] h k = (h, tt)
  insert-All z x (y ∷ ys) h k = ground (arith, insert-All z x ys h k.1)

  insert-IsSorted : (x : A) (ys : List A) → IsSorted R ys → IsSorted R (insert compare x ys)
  unfolding insert
  insert-IsSorted x [] s = (tt, tt)
  insert-IsSorted x (y ∷ ys) s = elim (Bool-cases (is_negative (compare x y))) [
    | inl h ↦ let r = before x y h in rw (h, insert) ((r, All-trans x y ys r s.0), s)
    | inr h ↦ rw (h, insert) (insert-All y x ys (after x y h) s.0, insert-IsSorted x ys s.1)
  ]

  insert_all-IsSorted :
      (done xs : List A) → IsSorted R done → IsSorted R (insert_all compare done xs)
  unfolding insert_all
  insert_all-IsSorted done [] s = s
  insert_all-IsSorted done (x ∷ xs) s =
      insert_all-IsSorted (insert compare x done) xs (insert-IsSorted x done s)

  pub sort-IsSorted : (xs : List A) → IsSorted R (sort compare xs)
  unfolding sort
  sort-IsSorted xs = insert_all-IsSorted [] xs tt

module _ {ℓ} {A : Type ℓ} where
  take-min : (n : ℕ) (xs : List A) → take (min n (length xs)) xs ≡ take n xs
  take-min zero xs = let none_taken : min 0 (length xs) ≡ 0 = omega arith in rw none_taken
  take-min (suc n) [] = rw (take-nil (min (suc n) 0))
    where
      take-nil : (m : ℕ) → take {A = A} m [] ≡ []
      take-nil zero = refl
      take-nil (suc m) = refl
  take-min (suc n) (x ∷ xs) =
      let both : min (suc n) (suc (length xs)) ≡ suc (min n (length xs)) = omega arith in
      rw (both, take-min n xs)

  pub slice-first : (n : ℕ) (xs : List A) → slice (pos 0) (pos n) xs ≡ take n xs
  unfolding slice
  slice-first n xs =
      let start : min 0 (length xs) ≡ 0 = omega arith in
      let whole : min n (length xs) - 0 ≡ min n (length xs) = omega arith in
      rw (start, whole) (take-min n xs)
