-- ===== src/Statistics/Charts.antt =====
-- The charts of frontend/components/statistics/StatItem.tsx: `useRenderPanel`, which chooses the chart of
-- a panel, with the texts around it. The state `groupKey` is an argument.
pub mod Totals
use job_mon.Base.{Bool, List, Option, String, [], false, if◌then◌else◌, none, some, true, ◌∷◌}
use job_mon.Base.Int.{ℤ}
use job_mon.Job.{JobMetadata}
use job_mon.Js.Text.Decimal.{numeral}
use job_mon.Statistics.{
  Panel, compute_time, computed_attribute, group_name, job_length, num_nodes, partition,
  simple_attribute, username,
}
use mathlib.Core.Option
use Prim.Native.String

-- The attributes of a job that charts group by.
pub data Attribute : Type 0 where
  of_id of_group_name of_user_name of_partition of_num_nodes : Attribute

abbrev pub attribute_name : Attribute → String
attribute_name of_id = "Id"
attribute_name of_group_name = "GroupName"
attribute_name of_user_name = "UserName"
attribute_name of_partition = "Partition"
attribute_name of_num_nodes = "NumNodes"

-- The options of the select box "Group by".
abbrev pub group_keys : List (Attribute × String)
group_keys =
    (of_id, "Job Id")
    ∷ (of_group_name, "Group Name")
    ∷ (of_user_name, "User Name")
    ∷ (of_partition, "Partition")
    ∷ []

-- `OPanel[panel]`
abbrev pub panel_title : Panel → String
panel_title partition = "Partition"
panel_title username = "Username"
panel_title num_nodes = "Number of Nodes"
panel_title group_name = "Groupname"
panel_title job_length = "Job Length"
panel_title compute_time = "Compute Time"

-- The key `panel` itself, which labels the axis.
abbrev pub panel_name : Panel → String
panel_name partition = "Partition"
panel_name username = "Username"
panel_name num_nodes = "NumNodes"
panel_name group_name = "GroupName"
panel_name job_length = "JobLength"
panel_name compute_time = "ComputeTime"

-- A panel as it is drawn; a horizontal chart of counts has no label for its values.
pub record StatChart : Type 0 where
  pub title : String
  pub tooltip : String
  pub horizontal : Bool
  pub value_label : Option String
  pub column_label : String
  pub tuples : List (String × ℤ)

abbrev pub simple_chart : Attribute → Bool → Bool → String → String → List (String × ℤ) → StatChart
simple_chart attribute sort_by_value horizontal tooltip title tuples = record {
  title = title;
  tooltip = tooltip;
  horizontal = horizontal;
  value_label = if horizontal then none else some "Occurences";
  column_label = attribute_name attribute;
  tuples = tuples;
}

abbrev pub computed_chart : Panel → Attribute → String → String → List (String × ℤ) → StatChart
computed_chart panel group_key tooltip title tuples = record {
  title = title;
  tooltip = tooltip;
  horizontal = true;
  value_label = some (panel_name panel);
  column_label = attribute_name group_key;
  tuples = tuples;
}

module _ {F : Type 0} where
  -- `obj[attribute].toString()`
  abbrev pub attribute_text : Attribute → JobMetadata F → String
  attribute_text of_id job = numeral job.id
  attribute_text of_group_name job = job.group_name
  attribute_text of_user_name job = job.user_name
  attribute_text of_partition job = job.partition
  attribute_text of_num_nodes job = numeral job.num_nodes

  -- `renderSimpleAttribute`
  unfoldable pub render_simple_attribute :
      List (JobMetadata F) → Attribute → Bool → Bool → String → String → Option StatChart
  unfolding simple_attribute
  render_simple_attribute jobs attribute sort_by_value horizontal tooltip title =
      Option.map (simple_chart attribute sort_by_value horizontal tooltip title)
        (simple_attribute (attribute_text attribute) sort_by_value horizontal jobs)

  -- `renderComputedAttribute`
  unfoldable pub render_computed_attribute :
      List (JobMetadata F) → Panel → Attribute → String → String → Option StatChart
  unfolding computed_attribute
  render_computed_attribute jobs panel group_key tooltip title =
      Option.map (computed_chart panel group_key tooltip title)
        (computed_attribute panel (attribute_text group_key) jobs)

  -- `useRenderPanel`; `none` means that the rendering throws.
  unfoldable pub render_panel : Panel → Attribute → List (JobMetadata F) → Option StatChart
  unfolding render_simple_attribute render_computed_attribute
  render_panel partition group_key jobs =
      render_simple_attribute jobs of_partition true true "Number of jobs per partition"
        (panel_title partition)
  render_panel group_name group_key jobs =
      render_simple_attribute jobs of_group_name true true "Number of jobs per group"
        (panel_title group_name)
  render_panel num_nodes group_key jobs =
      render_simple_attribute jobs of_num_nodes false false
        "Number of jobs which used a specific number of nodes" (panel_title num_nodes)
  render_panel username group_key jobs =
      render_simple_attribute jobs of_user_name true true "Number of jobs per user"
        (panel_title username)
  render_panel compute_time group_key jobs =
      render_computed_attribute jobs compute_time group_key
        (String.◌++◌ "Compute time grouped by " (
          String.◌++◌ (attribute_name group_key)
            ". Compute time is calculated as number of nodes * job length"))
        (panel_title compute_time)
  render_panel job_length group_key jobs =
      render_computed_attribute jobs job_length group_key
        (String.◌++◌ "Job length grouped by " (attribute_name group_key)) (panel_title job_length)
