-- ===== src/Settings/Loading.antt =====
-- A configuration that is received is of new objects, and stands for the values that were sent.
use job_mon.Job.{MetricConfig}
use job_mon.Settings.{Config, Heap, Values, read, stored, update}
use job_mon.Settings.Refining.{here, IsArray, IsSound, elsewhere}
use job_mon.Settings.Replay.{IsBelow, IsBelow-suc, holds}
use job_mon.Settings.Steps.{load, store_all}
use job_mon.Base.{All, List, ℕ, [], ◌∷◌, ◌<◌, ◌≤◌, ◌≡◌, ◌∙◌, arith, false, refl, ap, map, suc, sym}
use mathlib.Core.Path.{subst}

abbrev IsAbove : ℕ → List ℕ → Type 0
IsAbove n ps = All (λ b. n ≤ b) ps

holds-IsAbove : (n : ℕ) (ps : List ℕ) → IsAbove (suc n) ps → holds n ps ≡ false
holds-IsAbove n [] h = refl
holds-IsAbove n (p ∷ ps) h = ground (arith, holds-IsAbove n ps h.1, h.0)

IsAbove-suc : (n : ℕ) (ps : List ℕ) → IsAbove (suc n) ps → IsAbove n ps
IsAbove-suc n [] h = tt
IsAbove-suc n (p ∷ ps) h = (omega (arith, h.0), IsAbove-suc n ps h.1)

pub map-below :
    {A : Type 0} (f g : ℕ → A) (n : ℕ) (ps : List ℕ)
    → ((a : ℕ) → a < n → f a ≡ g a)
    → IsBelow n ps
    → map f ps ≡ map g ps
map-below f g n [] e b = refl
map-below f g n (p ∷ ps) e b = cc (e p b.0, map-below f g n ps e b.1)

pub IsBelow-le : (m n : ℕ) (ps : List ℕ) → m ≤ n → IsBelow m ps → IsBelow n ps
IsBelow-le m n [] l b = tt
IsBelow-le m n (p ∷ ps) l b = (omega (arith, b.0), IsBelow-le m n ps l b.1)

module _ {F : Type 0} where
  pub store_all-next : (ms : List (MetricConfig F)) (h : Heap F) → h.next ≤ (store_all ms h).0.next
  unfolding store_all
  store_all-next [] h = omega arith
  store_all-next (m ∷ ms) h = omega (arith, store_all-next ms (stored m h))

  pub store_all-places :
      (ms : List (MetricConfig F)) (h : Heap F) → (store_all ms h).0.places ≡ h.places
  unfolding store_all
  store_all-places [] h = refl
  store_all-places (m ∷ ms) h = store_all-places ms (stored m h)

  pub store_all-names :
      (ms : List (MetricConfig F)) (h : Heap F) → (store_all ms h).0.names ≡ h.names
  unfolding store_all
  store_all-names [] h = refl
  store_all-names (m ∷ ms) h = store_all-names ms (stored m h)

  pub store_all-metric :
      (ms : List (MetricConfig F)) (h : Heap F) (a : ℕ)
      → a < h.next
      → (store_all ms h).0.metric a ≡ h.metric a
  unfolding store_all
  store_all-metric [] h a l = refl
  store_all-metric (m ∷ ms) h a l =
      store_all-metric ms (stored m h) a (omega arith) ∙ elsewhere h.metric h.next a m l

  store_all-IsAbove : (ms : List (MetricConfig F)) (h : Heap F) → IsAbove h.next (store_all ms h).1
  unfolding store_all
  store_all-IsAbove [] h = tt
  store_all-IsAbove (m ∷ ms) h =
      (omega arith, IsAbove-suc h.next _ (store_all-IsAbove ms (stored m h)))

  store_all-IsArray :
      (ms : List (MetricConfig F)) (h : Heap F) → IsArray (store_all ms h).0.next (store_all ms h).1
  unfolding store_all
  store_all-IsArray [] h = (tt, tt)
  store_all-IsArray (m ∷ ms) h =
      let (below, distinct) = store_all-IsArray ms (stored m h) in
      (
        (omega (arith, store_all-next ms (stored m h)), below),
        (holds-IsAbove h.next _ (store_all-IsAbove ms (stored m h)), distinct),
      )

  store_all-reads :
      (ms : List (MetricConfig F)) (h : Heap F)
      → map (store_all ms h).0.metric (store_all ms h).1 ≡ ms
  unfolding store_all
  store_all-reads [] h = refl
  store_all-reads (m ∷ ms) h =
      let first = store_all-metric ms (stored m h) h.next (omega arith) ∙ here h.metric h.next m in
      cc (first, store_all-reads ms (stored m h))

  pub load-IsSound : (v : Values F) (h : Heap F) → IsSound (load v h).0 (load v h).1
  unfolding load
  load-IsSound v h =
      let (k, ps) = store_all v.metrics h in
      let (below, distinct) = store_all-IsArray v.metrics h in
      (
        subst (IsArray (suc k.next)) (sym (here k.places k.next ps))
            (IsBelow-suc k.next ps below, distinct),
        omega arith,
        omega arith,
      )

  pub read-load : (v : Values F) (h : Heap F) → read (load v h).0 (load v h).1 ≡ v
  unfolding load
  read-load v h =
      let (k, ps) = store_all v.metrics h in
      let places = here k.places k.next ps in
      let names = here k.names k.next v.metric_categories in
      ap
        (λ qs. record v {
          metrics = map k.metric qs;
          metric_categories = update k.names k.next v.metric_categories k.next;
        })
        places
      ∙ ap (λ cs. record v { metrics = map k.metric ps; metric_categories = cs }) names
      ∙ ap (λ ms. record v { metrics = ms }) (store_all-reads v.metrics h)

  -- What other configurations stand for is kept, and so is their soundness.
  pub load-keeps :
      (v : Values F) (h : Heap F) (l : Config)
      → IsSound h l
      → IsSound (load v h).0 l × (read (load v h).0 l ≡ read h l)
  unfolding load
  load-keeps v h l (array, below, named) =
      let (k, ps) = store_all v.metrics h in
      let grown = store_all-next v.metrics h in
      let places : update k.places k.next ps l.metrics ≡ h.places l.metrics =
        elsewhere k.places k.next l.metrics ps (omega arith)
        ∙ ap (λ f. f l.metrics) (store_all-places v.metrics h) in
      let names : update k.names k.next v.metric_categories l.metric_categories
          ≡ h.names l.metric_categories =
        elsewhere k.names k.next l.metric_categories v.metric_categories (omega arith)
        ∙ ap (λ f. f l.metric_categories) (store_all-names v.metrics h) in
      (
        (
          subst (IsArray (suc k.next)) (sym places)
              (IsBelow-le h.next (suc k.next) (h.places l.metrics) (omega arith) array.0, array.1),
          omega arith,
          omega arith,
        ),
        ap
              (λ qs. record {
                metrics = map k.metric qs;
                metric_categories = update k.names k.next v.metric_categories l.metric_categories;
                partitions = l.partitions;
              })
              places
            ∙ ap
                (λ cs. record {
                  metrics = map k.metric (h.places l.metrics);
                  metric_categories = cs;
                  partitions = l.partitions;
                })
                names
            ∙ ap
                (λ ms. record {
                  metrics = ms;
                  metric_categories = h.names l.metric_categories;
                  partitions = l.partitions;
                })
                (map-below k.metric h.metric h.next (h.places l.metrics)
                  (store_all-metric v.metrics h) array.0),
      )
