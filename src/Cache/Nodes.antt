-- ===== src/Cache/Nodes.antt =====
-- The data of single nodes.
use job_mon.Aggregates.{or_empty}
use job_mon.Base.{
  String, [], ap, arith, eqb, eqb_iff, if◌then◌else◌, refl, some, ℕ, ◌&&◌, ◌==◌, ◌∙◌, ◌≡◌,
}
use job_mon.Cache.{
  Args, State, cached_node, node_effect, node_for, node_from, receive_node, showing, truthy,
  truthy_text,
}
use job_mon.Job.{JobData}
use job_mon.Js.Object.{Object, get, put}
use job_mon.Js.Object.Laws.{get-put}
use job_mon.Js.Text.Decimal.{same_numeral, numeral}
use text.Mathlib.TextPositions.{eq_refl}

module _ {F P Q : Type 0} where
  or_empty-get :
      (k j : String) (o : Object (Object (JobData F P Q))) (v : Object (JobData F P Q))
      → or_empty (get j (put k v o)) ≡ (if k == j then v else or_empty (get j o))
  or_empty-get k j o v = ground (arith, get-put k j v o)

  -- An answer for a node and an interval is what the cache has for these two, and every other
  -- entry of the cache stays.
  pub cached_node-receive :
      (i j : ℕ) (n k : String) (found : JobData F P Q) (s : State F P Q)
      → cached_node j k (receive_node i n found s)
        ≡ (if eqb i j && n == k then some found else cached_node j k s)
  unfolding cached_node receive_node
  cached_node-receive i j n k found s =
      let cache = or_empty s.node_cache in
      let before = or_empty (get (numeral i) cache) in
      ground (
        arith,
        or_empty-get (numeral i) (numeral j) cache (put n found before),
        get-put n k found before,
        same_numeral i j,
        eqb_iff i j,
      )

  -- After an answer for the selected node and the current interval the effect shows this answer
  -- and sends no request.
  pub node_effect-hit :
      (args : Args) (interval : ℕ) (node : String) (found : JobData F P Q) (s : State F P Q)
      → truthy_text args.node ≡ some node
      → truthy args.sample_interval ≡ some interval
      → node_effect args (receive_node interval node found s)
        ≡ (showing found (receive_node interval node found s), [])
  unfolding node_effect
  node_effect-hit args interval node found s p q =
      let t = receive_node interval node found s in
      let hit : cached_node interval node t ≡ some found =
        cached_node-receive interval interval node node found s
        ∙ rw ((eqb_iff interval interval).1 refl, eq_refl node) refl in
      ap (λ x. node_for args.id x (truthy args.sample_interval) t) p
      ∙ ap (λ x. node_for args.id (some node) x t) q
      ∙ ap (λ x. node_from args.id interval node t x) hit
