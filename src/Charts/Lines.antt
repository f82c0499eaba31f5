-- ===== src/Charts/Lines.antt =====
-- The lines of a chart of threads.
use job_mon.Base.{
  map-append, Bool-cases, List, Option, String, [], ap, if◌then◌else◌, inl, inr, map, none, refl,
  some, sym, ℕ, ◌++◌, ◌∙◌, ◌∷◌, ◌≡◌,
}
use job_mon.Charts.{
  MetricPoint, agg_points, cpu_points, found_at, h_thread, is_upper, number_of, paired, points_at,
  points_of,
}
use job_mon.Job.{AggFn}
use job_mon.Js.Number.{Number}
use job_mon.Js.Object.{Object}

-- The keys before the first one of the upper half.
unfoldable pub lower_keys : ℕ → List String → List String
unfolding number_of
lower_keys count [] = []
lower_keys count (node ∷ nodes) =
    let rest = lower_keys count nodes in if is_upper count (number_of node) then [] else node ∷ rest

module _ (n : Number) where
  -- What a point has besides its value.
  abbrev pub stamp : MetricPoint n.Carrier → String × String × String
  stamp p = (p.time, p.hostname, p.type_id)

  agg_points-stamp :
      (f : AggFn) (ps hs : List (MetricPoint n.Carrier))
      → map stamp (agg_points n f ps hs) ≡ map stamp ps
  unfolding agg_points
  agg_points-stamp f [] hs = refl
  agg_points-stamp f (p ∷ ps) [] = ap (λ t. stamp p ∷ t) (agg_points-stamp f ps [])
  agg_points-stamp f (p ∷ ps) (h ∷ hs) = ap (λ t. stamp p ∷ t) (agg_points-stamp f ps hs)

  paired-stamp :
      (f : AggFn) (ps : List (MetricPoint n.Carrier)) (o : Option (List (MetricPoint n.Carrier)))
      → map stamp (paired n f ps o) ≡ map stamp ps
  paired-stamp f ps none = refl
  paired-stamp f ps (some hs) = agg_points-stamp f ps hs

  -- A chart of threads shows the points of the threads of the lower half of the keys, up to the
  -- first one of the upper half, each once and in their order: whatever is added to them, only
  -- their values change.
  pub cpu_points-stamp :
      (f : AggFn) (o : Object (List (MetricPoint n.Carrier))) (count : ℕ) (nodes : List String)
      → map stamp (cpu_points n f o count nodes) ≡ map stamp (points_of o (lower_keys count nodes))
  unfolding cpu_points points_of lower_keys
  cpu_points-stamp f o count [] = refl
  cpu_points-stamp f o count (node ∷ nodes) = elim (Bool-cases (is_upper count (number_of node))) [
    | inl above ↦ rw (above) refl
    | inr below ↦
        let other = found_at n o (h_thread count (number_of node)) in
        let mine = paired n f (points_at node o) other in
        let later = cpu_points n f o count nodes in
        rw (below) (
          map-append stamp mine later
          ∙ (ap (λ t. t ++ map stamp later) (paired-stamp f (points_at node o) other)
              ∙ (ap (λ t. map stamp (points_at node o) ++ t) (cpu_points-stamp f o count nodes)
                  ∙ sym (
                      map-append stamp (points_at node o) (points_of o (lower_keys count nodes))))))
  ]
