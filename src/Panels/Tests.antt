-- ===== src/Panels/Tests.antt =====
-- Runs of the charts of a page.
use job_mon.Js.Array.{insert, insert_all, sort}
use job_mon.Js.Object.{Object}
use job_mon.Panels.{
  Source, charts_of, metric_charts, quantile_chart, quantile_charts, quantile_domain, sorted_charts,
}
use job_mon.Panels.Listing.{dates_with, metric_charts-titles}
use job_mon.Js.Number.Naturals.{naturals}
use job_mon.Base.{
  List, Option, Perm, String, ℕ, [], ◌∷◌, ◌≡◌, eqb, false, true, map, none, refl, some,
}
use job_mon.Job.{AggFn, JobMetadataData, MetricConfig}

abbrev config : String → MetricConfig ℕ
config name = record {
  guid = name;
  type = "node";
  categories = "Main" ∷ [];
  measurement = name;
  agg_fn = AggFn.mean;
  available_agg_fns = [];
  sample_interval = "30s";
  unit = "";
  display_name = name;
  separation_key = "hostname";
  max_per_node = 100;
  max_per_type = 50;
  p_thread_agg_fn = AggFn.empty;
  filter_func = "";
  post_query_op = "";
}

abbrev source : {P : Type 0} → String → Option (Object (List P)) → Source ℕ P
source name points = record { config = config name; points = points }

abbrev metrics : {P : Type 0} → List (Source ℕ P)
metrics = source "mem" (some []) ∷ source "flops" none ∷ source "ipc" (some []) ∷ []

no_max : List ℕ → Option ℕ
no_max vs = none

metric_charts-titles_example :
    Perm
      (map
        (λ c. c.chart_title)
        (metric_charts naturals (eqb 0) (λ _. "") no_max true false [] [] metrics))
      ("mem" ∷ "ipc" ∷ [])
metric_charts-titles_example =
    metric_charts-titles naturals (eqb 0) (λ _. "") no_max true false [] [] metrics

scaled :
    map (λ c. c.y_domain) (quantile_charts naturals (eqb 0) (λ _. "") no_max true false [] metrics)
    ≡ some (0, 100) ∷ some (0, 100) ∷ []
unfolding quantile_charts sorted_charts charts_of quantile_chart quantile_domain sort insert_all
    insert
scaled = refl

summary : String → Option (List String) → JobMetadataData ℕ
summary name points = record { config = config name; mean = 0; max = 0; change_points = points }

abbrev summaries : List (JobMetadataData ℕ)
summaries =
    summary "ipc" (some ("t1" ∷ []))
    ∷ summary "mem" none
    ∷ summary "ipc" (some ("t2" ∷ "t3" ∷ []))
    ∷ []

three_dates : dates_with (λ _. 7) "ipc" summaries ≡ 7 ∷ 7 ∷ 7 ∷ []
unfolding summary
three_dates = refl
