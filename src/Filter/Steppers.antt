-- ===== src/Filter/Steppers.antt =====
-- The sliders and their refs.
use job_mon.Base.{eqb_iff, refl, List, false, some, true, ℕ, ◌≡◌}
use job_mon.Filter.{
  Filter, JobSearchParams, edit, is_at, lower, nodes_slide, set_lower_gpus, set_lower_nodes,
  set_upper_nodes, upper,
}
use job_mon.Job.{JobTag}

-- If the left ref does not hold a value yet, setting it for the nodes and then for the GPUs does
-- nothing for the GPUs, because both steppers share the ref.
pub gpus-after_nodes :
    (before shown : JobSearchParams) (val : ℕ) (s : Filter)
    → is_at s.left_thumb val ≡ false
    → set_lower_gpus shown val (set_lower_nodes before val s) ≡ set_lower_nodes before val s
unfolding set_lower_gpus set_lower_nodes
gpus-after_nodes before shown val s other = rw (other, (eqb_iff val val).1 refl) refl

-- A slide whose two values are both new to the refs loses its lower value: only the upper limit
-- of the nodes is set.
pub slide-first :
    (params : JobSearchParams) (tags : List JobTag) (from to : ℕ) (s : Filter)
    → is_at s.left_thumb from ≡ false
    → is_at s.right_thumb to ≡ false
    → (edit params tags (nodes_slide from to) s).filter_params
      ≡ record s.filter_params { num_nodes = some (lower s.filter_params.num_nodes, some to) }
unfolding edit set_lower_nodes set_upper_nodes
slide-first params tags from to s h k = rw (h, k) refl

-- A slide of the node range that moves the lower thumb, while the upper ref holds the upper
-- value, sets the lower limit and changes nothing else of the parameters.
pub slide-lower :
    (params : JobSearchParams) (tags : List JobTag) (from to : ℕ) (s : Filter)
    → is_at s.left_thumb from ≡ false
    → is_at s.right_thumb to ≡ true
    → (edit params tags (nodes_slide from to) s).filter_params
      ≡ record s.filter_params { num_nodes = some (some from, upper s.filter_params.num_nodes) }
unfolding edit set_lower_nodes set_upper_nodes
slide-lower params tags from to s h k = rw (h, k) refl
