-- ===== src/Live.antt =====
-- Live jobs in frontend/pages/job/[id].tsx: the effect that merges a message of the websocket into the
-- data that is shown, and the effects that ask for earlier data. The arrays are changed in place; what
-- is modelled is the data that is shown afterwards.
pub mod Merging
pub mod Window
pub mod Sockets
mod Tests
use job_mon.Storage.{start}
use job_mon.Cache.{truthy}
use job_mon.Job.{MetricData}
use job_mon.Js.Object.{Object, entries, get, put}
use job_mon.Base.{
  Bool, List, Option, [], false, if◌then◌else◌, ltb, none, some, true, ℕ, ◌++◌, ◌+◌, ◌/◌, ◌==◌, ◌∷◌,
  ◌>>=◌,
}
use mathlib.Core.Option

-- `Type` of a message; before the first message it is `undefined`.
pub data WsMsgType : Type 0 where
  load_metrics load_metrics_response latest_metrics undefined_type : WsMsgType

-- What the message brings for one key is put behind the points that are shown, or, if earlier data was
-- asked for, before them. `none` is the exception of `push` on `undefined`, but `concat` takes
-- `undefined` for an element.
module _ {P : Type 0} (undefined_point : P) where
  abbrev pub merge_key : Bool → List P → Option (List P) → Option (List P)
  merge_key true new none = none
  merge_key true new (some shown) = some (shown ++ new)
  merge_key false new none = some (new ++ undefined_point ∷ [])
  merge_key false new (some shown) = some (new ++ shown)

  -- The loop over the keys of one metric; `latest` says that its type is `LatestMetrics`.
  unfoldable pub merge_points : Bool → Object (List P) → Object (List P) → Option (Object (List P))
  unfolding get put
  merge_points latest [] shown = some shown
  merge_points latest ((k, new) ∷ news) shown = do
    merged ← merge_key latest new (get k shown)
    merge_points latest news (put k merged shown)

abbrev with_points : {F P : Type 0} → MetricData F P → Object (List P) → MetricData F P
with_points m points = record { config = m.config; points = points; raw_data = m.raw_data }

module _ {F P : Type 0} (undefined_point : P) where
  -- One round of the loop over the metrics: the first metric with the same measurement is changed, if
  -- there is one.
  unfoldable pub merge_metric :
      Bool → MetricData F P → List (MetricData F P) → Option (List (MetricData F P))
  unfolding merge_points entries
  merge_metric latest metric [] = some []
  merge_metric latest metric (m ∷ ms) =
      let rest = merge_metric latest metric ms in
      if m.config.measurement == metric.config.measurement
      then Option.map (λ points. with_points m points ∷ ms)
          (merge_points undefined_point latest (entries metric.points) m.points)
      else Option.map (λ others. m ∷ others) rest

  unfoldable pub merge_metrics :
      Bool → List (MetricData F P) → List (MetricData F P) → Option (List (MetricData F P))
  unfolding merge_metric
  merge_metrics latest [] ms = some ms
  merge_metrics latest (metric ∷ metrics) ms = do
    merged ← merge_metric latest metric ms
    merge_metrics latest metrics merged

  -- The effect on a new message, for data that is shown; `MetricData` is there if
  -- `containsMetricData` is.
  unfoldable pub merge_message :
      WsMsgType → List (MetricData F P) → List (MetricData F P) → Option (List (MetricData F P))
  unfolding merge_metrics
  merge_message latest_metrics metrics ms = merge_metrics true metrics ms
  merge_message load_metrics_response metrics ms = merge_metrics false metrics ms
  merge_message _ metrics ms = some ms

-- `curLiveWindowStart`, a time in milliseconds; `none` is `Infinity`.
unfoldable pub start_window : Option ℕ → Option ℕ → Option ℕ
start_window time_start none = truthy time_start
start_window time_start (some start) = some start

-- `Math.round(time / 1000)`
abbrev pub seconds : ℕ → ℕ
seconds time = (time + 500) / 1000

pub record LoadMetrics : Type 0 where
  pub start_time : ℕ
  pub stop_time : ℕ

abbrev load_from : Bool → ℕ → ℕ → Option ℕ × List LoadMetrics
load_from earlier time start =
    if earlier
    then (some time, record { start_time = seconds time; stop_time = seconds start } ∷ [])
    else (some start, [])

abbrev pub load_for : Option ℕ → ℕ → Option ℕ × List LoadMetrics
load_for none start = (some start, [])
load_for (some time) start = load_from (ltb time start) time start

-- The effect that asks for the data between the time that is to be shown and the window's start, once
-- the window has a start.
unfoldable pub load_earlier : Bool → Option ℕ → ℕ → Option ℕ × List LoadMetrics
load_earlier is_open time_start start =
    if is_open then load_for (truthy time_start) start else (some start, [])
