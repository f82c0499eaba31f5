-- ===== src/Settings/Listing.antt =====
-- What is listed under which category, and what reaches the page without being saved.
use job_mon.Job.{MetricConfig}
use job_mon.Metrics.{is_in}
use job_mon.Settings.{
  remove_category, update, Values, add_category, has_only, is_listed, listed, read,
  without_category,
}
use job_mon.Settings.Editing.{step-Follows}
use job_mon.Settings.Refining.{elsewhere, IsSound}
use job_mon.Base.{
  get_elem?, set_at, eqb_iff, suc, zero, List, String, Bool, ℕ, [], ◌∷◌, ◌++◌, ◌≡◌, ◌∙◌, ◌&&◌, ◌==◌,
  ◌<◌, not, some, refl, ap, any, filter, if◌then◌else◌, false, eqb, arith, Bool-cases, inl, inr,
}
use job_mon.Settings.Steps.{
  step, shown, State, replay_one, category_added, category_removed, metric_deleted,
}

any-filter :
    (p q : String → Bool) (xs : List String) → any p (filter q xs) ≡ any (λ x. q x && p x) xs
any-filter p q [] = refl
any-filter p q (x ∷ xs) = ground (arith, any-filter p q xs)

any-none : (p : String → Bool) (xs : List String) → ((x : String) → p x ≡ false) → any p xs ≡ false
any-none p [] h = refl
any-none p (x ∷ xs) h = ground (arith, h x, any-none p xs h)

is_in-without : (c : String) (cs : List String) → is_in (filter (λ d. not (d == c)) cs) c ≡ false
is_in-without c cs =
    any-filter (λ d. d == c) (λ d. not (d == c)) cs
    ∙ any-none (λ d. not (d == c) && d == c) cs (λ d. ground arith)

get_elem?-set_at :
    {A : Type 0} (i : ℕ) (x y : A) (xs : List A)
    → get_elem? xs i ≡ some x
    → get_elem? (set_at i y xs) i ≡ some y
get_elem?-set_at i x y [] e = absurd (cc e)
get_elem?-set_at zero x y (z ∷ zs) e = refl
get_elem?-set_at (suc i) x y (z ∷ zs) e = get_elem?-set_at i x y zs e

added :
    (f : ℕ → List String) (p q : ℕ) (c : String)
    → update f p (f p ++ c ∷ []) q ≡ (if eqb q p then f q ++ c ∷ [] else f q)
added f p q c = elim (Bool-cases (eqb q p)) [
  | inl same ↦ let e : q ≡ p = ground (arith, eqb_iff q p) in ground (arith, same, e)
  | inr other ↦ ground (arith, other)
]

module _ {F : Type 0} where
  -- Where a category is removed in a state that is well-formed, a metric is listed afterwards just where
  -- one of the other categories is among its own.
  pub category_removed-listed :
      (c : String) (s : State F) (m : MetricConfig F)
      → IsSound s.heap s.l_config
      → is_listed (shown (step (category_removed c) s)) m
        ≡ any (λ d. not (d == c) && is_in m.categories d) (shown s).metric_categories
  category_removed-listed c s m h =
      ap (λ v. is_listed v m) (step-Follows (category_removed c) s h).1
      ∙ any-filter (λ d. is_in m.categories d) (λ d. not (d == c)) (shown s).metric_categories

  deleted :
      (i : ℕ) (c : String) (v : Values F) (m : MetricConfig F)
      → get_elem? v.metrics i ≡ some m
      → (n : MetricConfig F) × (get_elem? (replay_one (metric_deleted i c) v).metrics i ≡ some n)
        × (is_in n.categories c ≡ has_only c m)
  deleted i c v m e = elim (Bool-cases (has_only c m)) [
    | inl only ↦ (m, rw (e, only) e, ground arith)
    | inr more ↦ (
      without_category c m,
      rw (e, more) (get_elem?-set_at i m (without_category c m) v.metrics e),
      ground (arith, is_in-without c m.categories),
    )
  ]

  -- After a metric is deleted under a category there is still a metric in its place, and it is
  -- listed under the category exactly if that was its only category: the metric that is meant to
  -- be removed for good stays, and the others lose the category.
  pub metric_deleted-listed :
      (i : ℕ) (c : String) (s : State F) (m : MetricConfig F)
      → IsSound s.heap s.l_config
      → get_elem? (shown s).metrics i ≡ some m
      → (n : MetricConfig F) × (get_elem? (shown (step (metric_deleted i c) s)).metrics i ≡ some n)
        × (is_in n.categories c ≡ has_only c m)
  metric_deleted-listed i c s m h e =
      let (n, found, listed) = deleted i c (shown s) m e in
      (n, ap (λ v. get_elem? v.metrics i) (step-Follows (metric_deleted i c) s h).1 ∙ found, listed)

  -- Removing a category without saving leaves the configuration of the page as it was, if its
  -- array of categories is an allocated one. Adding one changes nothing but the categories of the
  -- page, and it appends the new one to them, unsaved as it is, exactly if the page and the view
  -- share the array.
  pub unsaved-categories :
      (c : String) (s : State F)
      → s.config.metric_categories < s.heap.next
      → (let before = read s.heap s.config in
          let after = read (step (category_added c) s).heap s.config in
          (after.metrics ≡ before.metrics)
          × (after.partitions ≡ before.partitions)
          × (after.metric_categories ≡ (
              if eqb s.config.metric_categories s.l_config.metric_categories
              then before.metric_categories ++ c ∷ []
              else before.metric_categories)))
        × (read (step (category_removed c) s).heap s.config ≡ read s.heap s.config)
  unfolding step add_category remove_category
  unsaved-categories c s h = (
    (refl, refl, added s.heap.names s.l_config.metric_categories s.config.metric_categories c),
    ap (λ cs. record (read s.heap s.config) { metric_categories = cs })
        (elsewhere s.heap.names s.heap.next s.config.metric_categories _ h),
  )
