-- ===== src/Paging/Slices.antt =====
-- The pages of a list are its parts.
use native.Mathlib.Nat.{div-add-mod, mod-lt, mul-le-mul_left}
use mathlib.Core.Path.{◌≡⟨◌⟩◌, ◌∎}
use job_mon.Base.{
  length-take, ◌/◌, take-append-drop, ◌++◌, ◌≤◌, List, [], ap, arith, drop, eqb, false, length,
  length-drop, min, refl, suc, sym, take, zero, ℕ, ◌*◌, ◌+◌, ◌-◌, ◌<◌, ◌∙◌, ◌∷◌, ◌≡◌,
}
use job_mon.Base.Int.{negsuc, pos, ◌*ℤ◌, ◌+ℤ◌, ◌-ℤ◌}
use job_mon.Js.Array.{slice}
use job_mon.Paging.{ratio, ceil, divide, page_slice}

start-pos : (limit k : ℕ) → pos limit *ℤ (pos (suc k) -ℤ pos 1) ≡ pos (limit * k)
unfolding ◌*ℤ◌ ◌-ℤ◌
start-pos limit k = ground arith

end-pos : (s limit : ℕ) → pos s +ℤ pos limit ≡ pos (s + limit)
unfolding ◌+ℤ◌
end-pos s limit = ground arith

ceil_covers : (a b : ℕ) → 0 < b → a ≤ b * ((a + b - 1) / b)
ceil_covers a b h = ground (arith, div-add-mod (a + b - 1) b, mod-lt (a + b - 1) h)

ceil_tight : (a b k : ℕ) → 0 < b → k < (a + b - 1) / b → b * k < a
ceil_tight a b k h lt =
    let up = mul-le-mul_left {m = suc k} b lt in
    let parts : b * suc k ≡ b * k + b = omega arith in
    ground (arith, up, parts, div-add-mod (a + b - 1) b, mod-lt (a + b - 1) h)

start-zero : (limit : ℕ) → 0 < limit → pos limit *ℤ (pos 0 -ℤ pos 1) ≡ negsuc (limit - 1)
unfolding ◌*ℤ◌ ◌-ℤ◌
start-zero limit h = ground arith

end-zero : (limit : ℕ) → 0 < limit → negsuc (limit - 1) +ℤ pos limit ≡ pos 0
unfolding ◌+ℤ◌
end-zero limit h = ground arith

divide-ratio : (a b : ℕ) → 0 < b → divide a b ≡ ratio a b
unfolding divide
divide-ratio a b h = ground arith

module _ {ℓ} {A : Type ℓ} where
  take-nil : (a : ℕ) → take a (let xs : List A = [] in xs) ≡ []
  take-nil zero = refl
  take-nil (suc a) = refl

  drop-nil : (a : ℕ) → drop a (let xs : List A = [] in xs) ≡ []
  drop-nil zero = refl
  drop-nil (suc a) = refl

  take_congr :
      (a b : ℕ) (xs : List A) → min a (length xs) ≡ min b (length xs) → take a xs ≡ take b xs
  take_congr a b [] e = take-nil a ∙ sym (take-nil b)
  take_congr zero zero (x ∷ xs) e = refl
  take_congr zero (suc b) (x ∷ xs) e = absurd (omega arith)
  take_congr (suc a) zero (x ∷ xs) e = absurd (omega arith)
  take_congr (suc a) (suc b) (x ∷ xs) e = ap (◌∷◌ x) (take_congr a b xs (omega arith))

  drop_congr :
      (a b : ℕ) (xs : List A) → min a (length xs) ≡ min b (length xs) → drop a xs ≡ drop b xs
  drop_congr a b [] e = drop-nil a ∙ sym (drop-nil b)
  drop_congr zero zero (x ∷ xs) e = refl
  drop_congr zero (suc b) (x ∷ xs) e = absurd (omega arith)
  drop_congr (suc a) zero (x ∷ xs) e = absurd (omega arith)
  drop_congr (suc a) (suc b) (x ∷ xs) e = drop_congr a b xs (omega arith)

  drop-drop : (a b c : ℕ) (xs : List A) → b + a ≡ c → drop a (drop b xs) ≡ drop c xs
  drop-drop a zero c xs e = let same : a ≡ c = omega arith in rw same
  drop-drop a (suc b) zero xs e = absurd (omega arith)
  drop-drop a (suc b) (suc c) [] e = drop-nil a
  drop-drop a (suc b) (suc c) (x ∷ xs) e = drop-drop a b c xs (omega arith)

  slice-pos : (s m : ℕ) (xs : List A) → slice (pos s) (pos (s + m)) xs ≡ take m (drop s xs)
  unfolding slice
  slice-pos s m xs =
      let n = length xs in
      take (min (s + m) n - min s n) (drop (min s n) xs)
      ≡⟨ ap (take (min (s + m) n - min s n)) (drop_congr (min s n) s xs (omega arith)) ⟩
        take (min (s + m) n - min s n) (drop s xs)
      ≡⟨ take_congr (min (s + m) n - min s n) m (drop s xs) (omega (arith, length-drop s xs)) ⟩
        take m (drop s xs) ∎

  -- Page k + 1 is what follows the first k pages, up to the limit.
  pub page_slice-suc :
      (limit k : ℕ) (xs : List A)
      → 0 < limit
      → page_slice limit (pos (suc k)) xs ≡ take limit (drop (limit * k) xs)
  unfolding page_slice
  page_slice-suc limit k xs h =
      let limited : eqb limit 0 ≡ false = ground arith in
      rw (limited, start-pos limit k, end-pos (limit * k) limit) (slice-pos (limit * k) limit xs)

  -- The pages from k + 1 on, one after the other.
  abbrev pub pages_from : ℕ → ℕ → ℕ → List A → List A
  pages_from limit k zero xs = []
  pages_from limit k (suc m) xs = page_slice limit (pos (suc k)) xs ++ pages_from limit (suc k) m xs

  drop_all : (n : ℕ) (xs : List A) → length xs ≤ n → drop n xs ≡ []
  drop_all zero [] h = refl
  drop_all zero (x ∷ xs) h = absurd (omega arith)
  drop_all (suc n) [] h = refl
  drop_all (suc n) (x ∷ xs) h = drop_all n xs (omega arith)

  pages_from-drop :
      (limit k m : ℕ) (xs : List A)
      → 0 < limit
      → length xs ≤ limit * (k + m)
      → pages_from limit k m xs ≡ drop (limit * k) xs
  pages_from-drop limit k zero xs h e =
      sym (drop_all (limit * k) xs (let same : k + zero ≡ k = omega arith in rw same at e))
  pages_from-drop limit k (suc m) xs h e =
      let part = drop (limit * k) xs in
      let later : length xs ≤ limit * (suc k + m) =
        let same : k + suc m ≡ suc k + m = omega arith in rw same at e in
      let next = drop-drop limit (limit * k) (limit * suc k) xs (omega arith) in
      page_slice limit (pos (suc k)) xs ++ pages_from limit (suc k) m xs
      ≡⟨ (rw (page_slice-suc limit k xs h, pages_from-drop limit (suc k) m xs h later)) ⟩
        take limit part ++ drop (limit * suc k) xs
      ≡⟨ ap (λ ys. take limit part ++ ys) (sym next) ⟩ take limit part ++ drop limit part
      ≡⟨ take-append-drop limit part ⟩ part ∎

  -- With a positive limit the pages from the first to the last one make up the list: no job is
  -- lost, shown twice or moved.
  pub pages-partition :
      (limit : ℕ) (xs : List A)
      → 0 < limit
      → pages_from limit 0 (ceil (divide (length xs) limit)) xs ≡ xs
  pages-partition limit xs h =
      rw (divide-ratio (length xs) limit h)
        (whole (ceil (ratio (length xs) limit)) (ceil_covers _ limit h))
    where
      whole : (m : ℕ) → length xs ≤ limit * m → pages_from limit 0 m xs ≡ xs
      whole m e =
          let none_before : limit * 0 ≡ 0 = omega arith in
          let later : length xs ≤ limit * (0 + m) =
            let same : 0 + m ≡ m = omega arith in rw same e in
          rw none_before at (pages_from-drop limit 0 m xs h later)

  -- A valid page shows at least one element and at most as many as the limit.
  pub page_slice_bounds :
      (limit k : ℕ) (xs : List A)
      → 0 < limit
      → k < ceil (divide (length xs) limit)
      → (0 < length (page_slice limit (pos (suc k)) xs))
        × (length (page_slice limit (pos (suc k)) xs) ≤ limit)
  page_slice_bounds limit k xs h valid =
      let inside =
        ceil_tight (length xs) limit k h (rw (divide-ratio (length xs) limit h) at valid) in
      rw (page_slice-suc limit k xs h)
        (omega (arith, inside, length-take limit (drop (limit * k) xs), length-drop (limit * k) xs))

  -- Page 0, the page of an empty list, shows nothing of any list; with the limit 0 all is shown.
  pub page_slice-zero : (limit : ℕ) (xs : List A) → 0 < limit → page_slice limit (pos 0) xs ≡ []
  unfolding page_slice slice
  page_slice-zero limit xs h =
      let limited : eqb limit 0 ≡ false = ground arith in
      let nothing : min 0 (length xs) - (length xs - (limit - 1 + 1)) ≡ 0 = omega arith in
      rw (limited, start-zero limit h, end-zero limit h, nothing)
