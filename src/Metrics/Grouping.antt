-- ===== src/Metrics/Grouping.antt =====
-- The categories of the shown metrics.
use job_mon.Base.{
  any-append, Bool, Bool-cases, List, String, [], any, arith, inl, inr, refl, ◌++◌, ◌==◌, ◌||◌, ◌∙◌,
  ◌∷◌, ◌≡◌,
}
use job_mon.Job.{MetricData}
use job_mon.Js.Array.{insert, insert_all, sort}
use job_mon.Metrics.{add_all, all_categories, by_name, categories, is_in}
use text.Mathlib.TextEquality.{eq_iff}

any-insert :
    (p : String → Bool) (x : String) (xs : List String)
    → any p (insert by_name x xs) ≡ (p x || any p xs)
unfolding insert
any-insert p x [] = refl
any-insert p x (y ∷ ys) = ground (arith, any-insert p x ys)

any-insert_all :
    (p : String → Bool) (sorted_already xs : List String)
    → any p (insert_all by_name sorted_already xs) ≡ (any p xs || any p sorted_already)
unfolding insert_all
any-insert_all p sorted_already [] = refl
any-insert_all p sorted_already (x ∷ xs) =
    ground
      (arith, any-insert_all p (insert by_name x sorted_already) xs, any-insert p x sorted_already)

is_in-add_all :
    (seen cs : List String) (c : String) → is_in (add_all seen cs) c ≡ (is_in seen c || is_in cs c)
unfolding add_all
is_in-add_all seen [] c = ground arith
is_in-add_all seen (d ∷ cs) c = elim (Bool-cases (is_in seen d)) [
  | inl known ↦ rw (known) (ground (arith, is_in-add_all seen cs c, eq_iff d c))
  | inr new ↦
      rw (new) (
        ground (arith, is_in-add_all (seen ++ d ∷ []) cs c, any-append (λ n. n == c) seen (d ∷ [])))
]

module _ {F P : Type 0} where
  is_in-all_categories :
      (ms : List (MetricData F P)) (c : String)
      → is_in (all_categories ms) c ≡ any (λ m. is_in m.config.categories c) ms
  unfolding all_categories
  is_in-all_categories [] c = refl
  is_in-all_categories (m ∷ ms) c = ground (
    arith,
    any-append (λ n. n == c) m.config.categories (all_categories ms),
    is_in-all_categories ms c,
  )

  -- A category is listed exactly if some metric that is shown has it.
  pub categories-shown :
      (ms : List (MetricData F P)) (c : String)
      → is_in (categories ms) c ≡ any (λ m. is_in m.config.categories c) ms
  unfolding categories sort
  categories-shown ms c =
      any-insert_all (λ n. n == c) [] (add_all [] (all_categories ms))
      ∙ ground (arith, is_in-add_all [] (all_categories ms) c, is_in-all_categories ms c)
