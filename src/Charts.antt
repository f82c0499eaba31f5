-- ===== src/Charts.antt =====
-- `prepareMetricData` of frontend/components/jobview/MetricDataCharts.tsx: the points of a line chart,
-- what tells its lines apart, and the titles of its points. Floating point, the printing of a number
-- and the maximum of the library d3 are parameters.
pub mod Lines
pub mod Hosts
mod Tests
use job_mon.Base.{
  Bool, List, Option, String, [], eqb, false, filter, if◌then◌else◌, leb, length, ltb, map, none,
  not, some, ℕ, ◌%◌, ◌&&◌, ◌*◌, ◌++◌, ◌+◌, ◌/◌, ◌==◌, ◌||◌, ◌∷◌,
}
use job_mon.Groups.{or_nil}
use job_mon.Job.{AggFn, MetricConfig, MetricData, agg_name}
use job_mon.Js.Number.{Number}
use job_mon.Js.Object.{Object, codes, decimal, get, keys}
use job_mon.Js.Text.Decimal.{numeral}
use job_mon.Metrics.{is_in}
use job_mon.Units.{best_prefix, new_unit, or_else, to_string}
use Prim.Native.String
use mathlib.Core.Option

pub record MetricPoint (C : Type 0) : Type 0 where
  pub field : String
  pub measurement : String
  pub start : String
  pub stop : String
  pub time : String
  pub value : C
  pub cluster : String
  pub hostname : String
  pub result : String
  pub table : ℕ
  pub type : String
  pub type_id : String
  pub device : String

-- `+node`, for digits; other texts are not a number.
unfoldable pub number_of : String → Option ℕ
unfolding decimal
number_of node = decimal 0 (codes node)

-- `+node >= count / 2`
abbrev pub is_upper : ℕ → Option ℕ → Bool
is_upper count none = false
is_upper count (some k) = leb count (2 * k)

-- `(+node + count / 2).toString()`; half of an odd number makes no key.
abbrev pub h_thread : ℕ → Option ℕ → Option String
h_thread count none = some "NaN"
h_thread count (some k) = if eqb (count % 2) 0 then some (numeral (k + count / 2)) else none

abbrev pub points_at : {A : Type 0} → String → Object (List A) → List A
points_at k o = or_nil (get k o)

-- `concat` of the points of some keys.
unfoldable pub points_of : {A : Type 0} → Object (List A) → List String → List A
unfolding get
points_of o [] = []
points_of o (k ∷ ks) = points_at k o ++ points_of o ks

-- `str.endsWith(part)`
unfoldable pub ends_with : String → String → Bool
ends_with String.[] part = part == ""
ends_with (String.◌∷◌ c s) part = String.◌∷◌ c s == part || ends_with s part

module _ (n : Number) where
  -- `_value += h ?? 0`, halved for the mean.
  unfoldable pub agg_value : AggFn → n.Carrier → Option n.Carrier → n.Carrier
  agg_value f v h =
      let both = n.add v (elim h [ none ↦ n.of_ℕ 0 | some w ↦ w ]) in
      elim f [ AggFn.mean ↦ n.div both (n.of_ℕ 2) | _ ↦ both ]

  -- `pThreadData.map(...)`: each point with the one of the other thread at the same place.
  unfoldable pub agg_points :
      AggFn
      → List (MetricPoint n.Carrier)
      → List (MetricPoint n.Carrier)
      → List (MetricPoint n.Carrier)
  unfolding agg_value
  agg_points f [] hs = []
  agg_points f (p ∷ ps) [] = record p { value = agg_value f p.value none } ∷ agg_points f ps []
  agg_points f (p ∷ ps) (h ∷ hs) =
      record p { value = agg_value f p.value (some h.value) } ∷ agg_points f ps hs

  abbrev pub paired :
      AggFn
      → List (MetricPoint n.Carrier)
      → Option (List (MetricPoint n.Carrier))
      → List (MetricPoint n.Carrier)
  paired f ps none = ps
  paired f ps (some hs) = agg_points f ps hs

  abbrev pub found_at :
      Object (List (MetricPoint n.Carrier)) → Option String → Option (List (MetricPoint n.Carrier))
  found_at o none = none
  found_at o (some k) = get k o

  -- The loop over the keys for the type "cpu".
  unfoldable pub cpu_points :
      AggFn → Object (List (MetricPoint n.Carrier)) → ℕ → List String → List (MetricPoint n.Carrier)
  unfolding agg_points number_of get numeral
  cpu_points f o count [] = []
  cpu_points f o count (node ∷ nodes) =
      let rest = cpu_points f o count nodes in
      let number = number_of node in
      if is_upper count number
      then []
      else paired f (points_at node o) (found_at o (h_thread count number)) ++ rest

  -- `d[key]` as a text, and `missing` if a point has no property of this name.
  unfoldable pub field_text :
      (n.Carrier → String) → String → String → MetricPoint n.Carrier → String
  unfolding numeral
  field_text print missing key d =
      if key == "_field"
      then d.field
      else if key == "_measurement"
      then d.measurement
      else if key == "_start"
      then d.start
      else if key == "_stop"
      then d.stop
      else if key == "_time"
      then d.time
      else if key == "_value"
      then print d.value
      else if key == "cluster"
      then d.cluster
      else if key == "hostname"
      then d.hostname
      else if key == "result"
      then d.result
      else if key == "table"
      then numeral d.table
      else if key == "type"
      then d.type
      else if key == "type-id"
      then d.type_id
      else if key == "device"
      then d.device
      else missing

  -- `z` tells the lines apart; a title is `none` where `toString` of the unit throws.
  pub record Prepared : Type 0 where
    pub metric_data : List (MetricPoint n.Carrier)
    pub z : Option (MetricPoint n.Carrier → String)
    pub title : Option (MetricPoint n.Carrier → Option String)

  module _ (print : n.Carrier → String) (d3_max : List n.Carrier → Option n.Carrier) where
    -- The title: the name of the point's line and its value, with the prefix that suits the maximum.
    unfoldable pub title_of :
        (MetricPoint n.Carrier → String)
        → String
        → List (MetricPoint n.Carrier)
        → MetricPoint n.Carrier
        → Option String
    unfolding new_unit best_prefix to_string
    title_of name unit points d =
        let most = or_else (d3_max (map (λ p. p.value) points)) (n.of_ℕ 0) in
        let max_prefix = best_prefix n (new_unit n most unit) in
        Option.map (λ t. String.◌++◌ (name d) (String.◌++◌ ": " t))
          (to_string n (new_unit n d.value unit) max_prefix)

    abbrev prepared :
        (MetricPoint n.Carrier → String)
        → (MetricPoint n.Carrier → String)
        → String
        → List (MetricPoint n.Carrier)
        → Prepared
    prepared line name unit points = record {
      metric_data = points;
      z = some line;
      title = some (title_of name unit points);
    }

    abbrev thread_points :
        MetricData n.Carrier (MetricPoint n.Carrier) → List (MetricPoint n.Carrier)
    thread_points metric =
        let nodes = keys metric.points in
        if metric.config.type == "cpu"
        then cpu_points metric.config.p_thread_agg_fn metric.points (length nodes) nodes
        else points_of metric.points nodes

    abbrev separation : MetricConfig n.Carrier → List String → String
    separation config selection =
        if ends_with config.measurement (agg_name config.agg_fn) || ltb 1 (length selection)
        then "hostname"
        else config.separation_key

    unfoldable pub prepare_metric_data :
        MetricData n.Carrier (MetricPoint n.Carrier) → List String → Prepared
    unfolding cpu_points points_of keys field_text title_of ends_with
    prepare_metric_data metric selection =
        let config = metric.config in
        let key = separation config selection in
        if eqb (length selection) 1 && not (config.type == "node")
        then prepared (λ d. d.type_id) (λ d. d.type_id) config.unit (thread_points metric)
        else if ltb 0 (length selection)
        then prepared (field_text print "" key) (field_text print "undefined" key) config.unit (
            points_of metric.points
              (filter (λ k. not (key == "hostname") || is_in selection k) (keys metric.points)))
        else record { metric_data = []; z = none; title = none }
