-- ===== src/Js/Array/Order.antt =====
-- Sorted lists under `reverse`, `filter` and concatenation.
use job_mon.Base.{
  All, All-append, Bool, Bool-cases, List, [], filter, inl, inr, reverse, true, ◌++◌, ◌∷◌, ◌≡◌,
}
use job_mon.Js.Array.Laws.{IsSorted}
use mathlib.Core.List.{reverse-cons}

module _ {ℓ κ} {A : Type ℓ} where
  module _ (P : A → Type κ) where
    pub All-reverse : (xs : List A) → All P xs → All P (reverse xs)
    All-reverse [] h = tt
    All-reverse (x ∷ xs) h =
        rw (reverse-cons x xs) (All-append P (reverse xs) (x ∷ []) (All-reverse xs h.1) (h.0, tt))

    pub All-everywhere : (xs : List A) → ((x : A) → P x) → All P xs
    All-everywhere [] h = tt
    All-everywhere (x ∷ xs) h = (h x, All-everywhere xs h)

module _ {ℓ} {A : Type ℓ} where
  pub filter-passes : (p : A → Bool) (xs : List A) → All (λ x. p x ≡ true) (filter p xs)
  filter-passes p [] = tt
  filter-passes p (x ∷ xs) = elim (Bool-cases (p x)) [
    | inl h ↦ rw h (h, filter-passes p xs)
    | inr h ↦ rw h (filter-passes p xs)
  ]

module _ {ℓ κ} {A : Type ℓ} (R : A → A → Type κ) where
  pub IsSorted-append :
      (xs ys : List A)
      → IsSorted R xs
      → IsSorted R ys
      → All (λ x. All (R x) ys) xs
      → IsSorted R (xs ++ ys)
  IsSorted-append [] ys s t h = t
  IsSorted-append (x ∷ xs) ys s t h =
      (All-append (R x) xs ys s.0 h.0, IsSorted-append xs ys s.1 t h.1)

module _ {ℓ κ} {A : Type ℓ} (R : A → A → Type κ) where
  abbrev pub Flipped : A → A → Type κ
  Flipped a b = R b a

  to_last : (x : A) (xs : List A) → All (R x) xs → All (λ y. All (Flipped y) (x ∷ [])) xs
  to_last x [] h = tt
  to_last x (y ∷ ys) h = ((h.0, tt), to_last x ys h.1)

  pub IsSorted-reverse : (xs : List A) → IsSorted R xs → IsSorted Flipped (reverse xs)
  IsSorted-reverse [] s = tt
  IsSorted-reverse (x ∷ xs) s = rw (reverse-cons x xs) (
      IsSorted-append Flipped (reverse xs) (x ∷ []) (IsSorted-reverse xs s.1) (tt, tt)
        (All-reverse _ xs (to_last x xs s.0)))

module _ {ℓ κ μ ν} {A : Type ℓ} (R : A → A → Type κ) (S : A → A → Type μ) (P : A → Type ν)
    (weaken : (a b : A) → P a → P b → R a b → S a b) where
  weaken-All : (x : A) (xs : List A) → P x → All P xs → All (R x) xs → All (S x) xs
  weaken-All x [] px ps h = tt
  weaken-All x (y ∷ ys) px ps h = (weaken x y px ps.0 h.0, weaken-All x ys px ps.1 h.1)

  pub IsSorted-weaken : (xs : List A) → All P xs → IsSorted R xs → IsSorted S xs
  IsSorted-weaken [] ps s = tt
  IsSorted-weaken (x ∷ xs) ps s = (weaken-All x xs ps.0 ps.1 s.0, IsSorted-weaken xs ps.1 s.1)

module _ {ℓ κ μ ν} {A : Type ℓ} (S : A → A → Type κ) (P : A → Type μ) (Q : A → Type ν)
    (across : (a b : A) → P a → Q b → S a b) where
  across-All : (a : A) (ys : List A) → P a → All Q ys → All (S a) ys
  across-All a [] pa qs = tt
  across-All a (y ∷ ys) pa qs = (across a y pa qs.0, across-All a ys pa qs.1)

  pub All-across : (xs ys : List A) → All P xs → All Q ys → All (λ a. All (S a) ys) xs
  All-across [] ys ps qs = tt
  All-across (x ∷ xs) ys ps qs = (across-All x ys ps.0 qs, All-across xs ys ps.1 qs)
