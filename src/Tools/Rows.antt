-- ===== src/Tools/Rows.antt =====
-- What the read tools of internal/mcp show: the outputs and summaries of cluster.go, service.go and the
-- job list of job.go.
use Prim.Native.String.{◌++◌}
use ray_mcp.Prelude.{
  ℕ, ◌-◌, ◌+◌, String, Bool, Option, List, [], ◌∷◌, map, length, ◌==◌, leb, nat_eq, if◌then◌else◌,
}
use ray_mcp.Prelude.Int.{ℤ, pos, negsuc}
use ray_mcp.Prelude.Text.{quote, show_nat}
use ray_mcp.Json.{Fields}
use ray_mcp.Types.{ClusterSummary, JobSummary, ServiceSummary, Event}
use ray_mcp.Reads.{ListResult, ClusterGetResult, ServiceGetResult, EventsResult}
use ray_mcp.Tools.Jobs.{whole_seconds, raw_if}

pub record EventRow : Type 0 where
  pub type : String
  pub reason : String
  pub message : String
  pub count : ℤ
  pub age_seconds : ℤ

pub record ClusterEventsOutput : Type 0 where
  pub events : List EventRow
  pub count : ℕ
  pub warnings : ℕ

-- `now` is the instant of `time.Since`.
unfoldable pub event_age_seconds : ℕ → ℕ → ℤ
event_age_seconds now last_seen =
    if nat_eq last_seen 0
    then pos 0
    else whole_seconds
        (if leb last_seen now then pos (now - last_seen) else negsuc (last_seen - now - 1))

unfoldable pub event_row : ℕ → Event → EventRow
unfolding event_age_seconds
event_row now e = record {
  type = e.type;
  reason = e.reason;
  message = e.message;
  count = e.count;
  age_seconds = event_age_seconds now e.last_seen;
}

unfoldable pub warnings : List Event → ℕ
warnings [] = 0
warnings (e ∷ es) = if e.type == "Warning" then 1 + warnings es else warnings es

unfoldable pub to_cluster_events_output : ℕ → EventsResult → ClusterEventsOutput
unfolding event_row warnings
to_cluster_events_output now res = record {
  events = map (event_row now) res.events;
  count = length (map (event_row now) res.events);
  warnings = warnings res.events;
}

unfoldable pub cluster_events_summary : EventsResult → ClusterEventsOutput → String
unfolding quote show_nat
cluster_events_summary res out =
    if nat_eq out.count 0
    then "no recent events for "
      ++ quote res.name
      ++ " in namespace "
      ++ quote res.namespace
      ++ " (Kubernetes expires events after ~1h, so this is not a clean bill of health)"
    else show_nat out.count
      ++ " recent events for "
      ++ quote res.name
      ++ " in namespace "
      ++ quote res.namespace
      ++ " ("
      ++ show_nat out.warnings
      ++ " warnings)"

pub record ClusterRow : Type 0 where
  pub name : String
  pub namespace : String
  pub phase : String
  pub ready : ℤ
  pub desired : ℤ
  pub age_seconds : ℤ
  pub health : String

-- ClusterListOutput, ServiceListOutput and JobListOutput.
pub record ListOutput (Row : Type 0) : Type 0 where
  pub rows : List Row
  pub count : ℕ
  pub more_available : Bool
  pub continue : String

unfoldable pub to_list_output : {A Row : Type 0} → (A → Row) → ListResult A → ListOutput Row
to_list_output row res = record {
  rows = map row res.items;
  count = length (map row res.items);
  more_available = res.more_available;
  continue = res.continue;
}

unfoldable pub cluster_row : ClusterSummary → ClusterRow
cluster_row c = record {
  name = c.name;
  namespace = c.namespace;
  phase = c.phase;
  ready = c.ready_replicas;
  desired = c.desired_replicas;
  age_seconds = whole_seconds c.age;
  health = c.health;
}

unfoldable pub to_cluster_list_output : ListResult ClusterSummary → ListOutput ClusterRow
unfolding to_list_output cluster_row
to_cluster_list_output = to_list_output cluster_row

pub record ClusterGetOutput : Type 0 where
  pub row : ClusterRow
  pub head_service_name : String
  pub dashboard_url : String
  pub raw : Option Fields

unfoldable pub to_cluster_get_output : ClusterGetResult → ClusterGetOutput
unfolding cluster_row
to_cluster_get_output res = record {
  row = cluster_row res.detail.summary;
  head_service_name = res.detail.head_service_name;
  dashboard_url = res.detail.dashboard_url;
  raw = raw_if res.verbose res.detail.raw;
}

pub record ListInput : Type 0 where
  pub namespace : String
  pub all_namespaces : Bool

abbrev pub list_scope : ListInput → String
list_scope input =
    if input.all_namespaces
    then "all namespaces"
    else if input.namespace == ""
    then "the default namespace"
    else "namespace " ++ quote input.namespace

-- `clusterListSummary`, `serviceListSummary` and `jobListSummary`, by the name of their kind.
unfoldable pub list_summary : {A : Type 0} → String → ListInput → ListResult A → String
unfolding quote show_nat
list_summary kinds input res =
    let n = show_nat (length res.items) in
    let start = n ++ " " ++ kinds ++ " in " ++ list_scope input in
    if res.more_available
    then start
      ++ " (showing "
      ++ n
      ++ "; more available — pass continue="
      ++ quote res.continue
      ++ " for the next page)"
    else start ++ " (showing all " ++ n ++ ")"

unfoldable pub cluster_get_summary : ClusterGetOutput → String
unfolding quote
cluster_get_summary out =
    "RayCluster "
    ++ quote out.row.name
    ++ " in namespace "
    ++ quote out.row.namespace
    ++ ": "
    ++ out.row.health

pub record ServiceRow : Type 0 where
  pub name : String
  pub namespace : String
  pub service_status : String
  pub healthy_replicas : ℤ
  pub age_seconds : ℤ
  pub health : String

unfoldable pub service_row : ServiceSummary → ServiceRow
service_row s = record {
  name = s.name;
  namespace = s.namespace;
  service_status = s.service_status;
  healthy_replicas = s.healthy_replicas;
  age_seconds = whole_seconds s.age;
  health = s.health;
}

unfoldable pub to_service_list_output : ListResult ServiceSummary → ListOutput ServiceRow
unfolding to_list_output service_row
to_service_list_output = to_list_output service_row

pub record ServiceGetOutput : Type 0 where
  pub row : ServiceRow
  pub rollout_phase : String
  pub raw : Option Fields

unfoldable pub to_service_get_output : ServiceGetResult → ServiceGetOutput
unfolding service_row
to_service_get_output res = record {
  row = service_row res.detail.summary;
  rollout_phase = res.detail.rollout_phase;
  raw = raw_if res.verbose res.detail.raw;
}

unfoldable pub service_get_summary : ServiceGetOutput → String
unfolding quote
service_get_summary out =
    "RayService "
    ++ quote out.row.name
    ++ " in namespace "
    ++ quote out.row.namespace
    ++ ": "
    ++ out.row.health

pub record JobRow : Type 0 where
  pub name : String
  pub namespace : String
  pub deployment_status : String
  pub job_status : String
  pub age_seconds : ℤ
  pub health : String

unfoldable pub job_row : JobSummary → JobRow
job_row j = record {
  name = j.name;
  namespace = j.namespace;
  deployment_status = j.job_deployment_status;
  job_status = j.job_status;
  age_seconds = whole_seconds j.age;
  health = j.health;
}

unfoldable pub to_job_list_output : ListResult JobSummary → ListOutput JobRow
unfolding to_list_output job_row
to_job_list_output = to_list_output job_row
