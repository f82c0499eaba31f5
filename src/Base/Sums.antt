-- ===== src/Base/Sums.antt =====
-- Sums of integers over a list.
use job_mon.Base.{sym, arith, length, All, List, Perm, [], ap, map, refl, ◌++◌, ◌∙◌, ◌∷◌, ◌≡◌}
use job_mon.Base.Int.{pos_part, +ℤ_assoc, int_laws, pos, ℤ, ◌+ℤ◌}
use mathlib.Core.Logic.{∥∥₁_elim}
use mathlib.Core.List.{Permᴰ}
use native.Mathlib.Decide.{ℕ_discrete}
use mathlib.Core.HLevel.{hedberg}

pub ℤ_discrete : Discrete ℤ
ℤ_discrete = hlevel ℕ_discrete

module _ {ℓ} {A : Type ℓ} (weight : A → ℤ) where
  abbrev pub sum_by : List A → ℤ
  sum_by [] = pos 0
  sum_by (x ∷ xs) = weight x +ℤ sum_by xs

  pub sum_by-append : (xs ys : List A) → sum_by (xs ++ ys) ≡ sum_by xs +ℤ sum_by ys
  sum_by-append [] ys = omega int_laws
  sum_by-append (x ∷ xs) ys =
      let ih = sum_by-append xs ys in let assoc = +ℤ_assoc (weight x) (sum_by xs) (sum_by ys) in cc

  sum_by-permᴰ : {xs ys : List A} → Permᴰ xs ys → sum_by xs ≡ sum_by ys
  sum_by-permᴰ Permᴰ.nil = refl
  sum_by-permᴰ (Permᴰ.cons e p) = let ih = sum_by-permᴰ p in cc
  sum_by-permᴰ (Permᴰ.swap {a} {b} {l} e f) =
      let regroup : weight a +ℤ (weight b +ℤ sum_by l) ≡ weight b +ℤ (weight a +ℤ sum_by l) =
        omega int_laws in
      cc
  sum_by-permᴰ (Permᴰ.trans p q) = sum_by-permᴰ p ∙ sum_by-permᴰ q

  pub sum_by-perm : {xs ys : List A} → Perm xs ys → sum_by xs ≡ sum_by ys
  sum_by-perm p = ∥∥₁_elim p (hedberg ℤ_discrete _ _) sum_by-permᴰ

module _ {ℓ κ} {A : Type ℓ} {B : Type κ} where
  pub sum_by-map :
      (w : B → ℤ) (f : A → B) (xs : List A) → sum_by w (map f xs) ≡ sum_by (λ x. w (f x)) xs
  sum_by-map w f [] = refl
  sum_by-map w f (x ∷ xs) = ap (λ t. w (f x) +ℤ t) (sum_by-map w f xs)

module _ {ℓ} {A : Type ℓ} where
  pub sum_by_congr :
      (v w : A → ℤ) (xs : List A) → All (λ x. v x ≡ w x) xs → sum_by v xs ≡ sum_by w xs
  sum_by_congr v w [] h = refl
  sum_by_congr v w (x ∷ xs) h = let ih = sum_by_congr v w xs h.1 in let e = h.0 in cc

one_each : {A : Type 0} (xs : List A) → sum_by (λ x. pos 1) xs ≡ pos (length xs)
unfolding ◌+ℤ◌
one_each [] = refl
one_each (x ∷ xs) = let ih = one_each xs in rw (ih) (ground arith)

pub length-perm : {A : Type 0} {xs ys : List A} → Perm xs ys → length xs ≡ length ys
length-perm {xs} {ys} p = ap pos_part (sym (one_each xs) ∙ sum_by-perm (λ x. pos 1) p ∙ one_each ys)
