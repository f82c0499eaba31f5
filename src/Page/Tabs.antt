-- ===== src/Page/Tabs.antt =====
-- The tabs of the page.
use job_mon.Panels.{quantile_groups}
use job_mon.Metrics.{categories, is_in, metric_groups}
use job_mon.Metrics.Grouping.{categories-shown}
use job_mon.Base.{
  All, Bool, List, Option, String, [], ◌∷◌, ◌&&◌, ◌≡◌, ◌<◌, ◌∙◌, false, true, none, some, refl, sym,
  length, map, filter, any, arith,
}
use text.Mathlib.TextPositions.{eq_refl}
use job_mon.Job.{QuantileData, JobData, MetricData}
use job_mon.Page.{
  has_quantiles, tabs, PageView, page_view, spinner, no_data, quantile_tabs, metric_tabs,
}

length-map : {A B : Type 0} (f : A → B) (xs : List A) → length (map f xs) ≡ length xs
length-map f [] = refl
length-map f (x ∷ xs) = omega (arith, length-map f xs)

any-filter_some :
    {A : Type 0} (p : A → Bool) (xs : List A) → any p xs ≡ true → 0 < length (filter p xs)
any-filter_some p [] h = absurd (cc h)
any-filter_some p (x ∷ xs) h = ground (arith, any-filter_some p xs)

-- Every element of a list of names is in each list that has all of it.
All-is_in :
    (cs names : List String)
    → ((c : String) → is_in cs c ≡ true → is_in names c ≡ true)
    → All (λ c. is_in names c ≡ true) cs
All-is_in [] names h = tt
All-is_in (c ∷ cs) names h =
    (h c (ground (arith, eq_refl c)), All-is_in cs names (λ d e. h d (ground (arith, e))))

All-map :
    {A : Type 0} (P : A → Type 0) (f : String → A) (Q : String → Type 0) (cs : List String)
    → ((c : String) → Q c → P (f c))
    → All Q cs
    → All P (map f cs)
All-map P f Q [] h a = tt
All-map P f Q (c ∷ cs) h a = (h c a.0, All-map P f Q cs h a.1)

abbrev pub IsFilled : {M : Type 0} → List M → Type 0
IsFilled g = 0 < length g

module _ {F P : Type 0} where
  groups-IsFilled : (ms : List (MetricData F P)) → All IsFilled (metric_groups ms)
  unfolding metric_groups
  groups-IsFilled ms =
      All-map IsFilled (λ c. filter (λ m. is_in m.config.categories c) ms)
        (λ c. is_in (categories ms) c ≡ true) (categories ms)
        (λ c listed.
          any-filter_some (λ m. is_in m.config.categories c) ms
            (sym (categories-shown ms c) ∙ listed))
        (All-is_in (categories ms) (categories ms) (λ c h. h))

module _ {F P Q : Type 0} where
  -- As many panels as tabs, and none of metrics without one.
  abbrev pub IsTabbed : PageView F P Q → Type 0
  IsTabbed spinner = Unit
  IsTabbed no_data = Unit
  IsTabbed (quantile_tabs cs gs) = length gs ≡ length cs
  IsTabbed (metric_tabs cs gs) = (length gs ≡ length cs) × All IsFilled gs

  tabs-IsTabbed :
      (show_quantiles : Bool) (ms : List (MetricData F P)) (qs : List (QuantileData F Q))
      → IsTabbed (tabs show_quantiles ms qs)
  unfolding quantile_groups metric_groups
  tabs-IsTabbed true ms qs =
      length-map (λ c. filter (λ m. is_in m.config.categories c) qs) (categories ms)
  tabs-IsTabbed false ms qs = (
    length-map (λ c. filter (λ m. is_in m.config.categories c) ms) (categories ms),
    groups-IsFilled ms,
  )

  -- Whatever the data of the page, it draws as many panels as tabs, and where it shows metrics no
  -- panel is without one.
  pub page_view-IsTabbed :
      (found : Option (JobData F P Q)) (contains_metric_data : Bool) (selected : List String)
      (show_quantiles : Bool)
      → IsTabbed (page_view found contains_metric_data selected show_quantiles)
  unfolding page_view
  page_view-IsTabbed none contains_metric_data selected show_quantiles = tt
  page_view-IsTabbed (some found) false selected show_quantiles = tt
  page_view-IsTabbed (some found) true selected show_quantiles =
      tabs-IsTabbed (show_quantiles && has_quantiles found.quantile_data) _ _
