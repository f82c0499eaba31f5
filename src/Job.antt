-- ===== src/Job.antt =====
-- frontend/types/job.ts and frontend/types/config.ts: what the backend sends. `F` is the type of the
-- floating-point fields; ids, counts and Unix times are whole numbers. A list that the code tests
-- for `null` is an `Option`.
pub mod Sample
use job_mon.Js.Object.{Object}
use job_mon.Base.{Bool, List, Option, String, ℕ}

pub data AggFn : Type 0 where
  mean sum min max empty : AggFn

pub record MetricConfig (F : Type 0) : Type 0 where
  pub guid : String
  pub type : String
  pub categories : List String
  pub measurement : String
  pub agg_fn : AggFn
  pub available_agg_fns : List String
  pub sample_interval : String
  pub unit : String
  pub display_name : String
  pub separation_key : String
  pub max_per_node : F
  pub max_per_type : F
  pub p_thread_agg_fn : AggFn
  pub filter_func : String
  pub post_query_op : String

pub record JobTag : Type 0 where
  pub id : ℕ
  pub name : String
  pub type : String
  pub created_by : String

pub record JobMetadataData (F : Type 0) : Type 0 where
  pub config : MetricConfig F
  pub mean : F
  pub max : F
  pub change_points : Option (List String)

pub record JobMetadata (F : Type 0) : Type 0 where
  pub id : ℕ
  pub user_id : ℕ
  pub user_name : String
  pub group_id : ℕ
  pub group_name : String
  pub cluster_id : String
  pub num_nodes : ℕ
  pub num_tasks : ℕ
  pub tasks_per_node : ℕ
  pub gpus_per_node : ℕ
  pub node_list : String
  pub start_time : ℕ
  pub stop_time : ℕ
  pub is_running : Bool
  pub job_name : String
  pub account : String
  pub partition : String
  pub job_script : String
  pub tags : Option (List JobTag)
  pub metrics : Option (List (JobMetadataData F))

-- The text of an enumeration's value, as it is used for a key.
abbrev pub agg_name : AggFn → String
agg_name mean = "mean"
agg_name sum = "sum"
agg_name min = "min"
agg_name max = "max"
agg_name empty = ""

-- `P` is the type of a point, `Q` that of a point of a quantile.
pub record MetricData (F P : Type 0) : Type 0 where
  pub config : MetricConfig F
  pub points : Object (List P)
  pub raw_data : String

pub record QuantileData (F Q : Type 0) : Type 0 where
  pub config : MetricConfig F
  pub quantiles : List String
  pub points : Object (List Q)
  pub raw_data : String

pub record JobData (F P Q : Type 0) : Type 0 where
  pub metadata : JobMetadata F
  pub metric_data : Option (List (MetricData F P))
  pub quantile_data : Option (List (QuantileData F Q))
  pub sample_interval : ℕ
  pub sample_intervals : List ℕ
