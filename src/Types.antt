-- ===== src/Types.antt =====
-- internal/domain/types.go. A Go int, int32, int64 or Duration is a ℤ, a time a number of
-- nanoseconds, a `MergedSpec` that may be nil an optional map.
use ray_mcp.Prelude.{ℕ, String, Bool, List, Option}
use ray_mcp.Prelude.Int.{ℤ}
use ray_mcp.Json.{Fields}

pub record ClusterSummary : Type 0 where
  pub name : String
  pub namespace : String
  pub phase : String
  pub ready_replicas : ℤ
  pub desired_replicas : ℤ
  pub age : ℤ
  pub health : String

pub record ClusterDetail : Type 0 where
  pub summary : ClusterSummary
  pub head_service_name : String
  pub dashboard_url : String
  pub raw : Option Fields

pub record JobSummary : Type 0 where
  pub name : String
  pub namespace : String
  pub job_status : String
  pub job_deployment_status : String
  pub age : ℤ
  pub health : String

pub record JobDetail : Type 0 where
  pub summary : JobSummary
  pub open summary use *
  pub job_id : String
  pub dashboard_url : String
  pub ray_cluster_name : String
  pub raw : Option Fields

pub record ServiceSummary : Type 0 where
  pub name : String
  pub namespace : String
  pub service_status : String
  pub healthy_replicas : ℤ
  pub age : ℤ
  pub health : String

pub record ServiceDetail : Type 0 where
  pub summary : ServiceSummary
  pub rollout_phase : String
  pub raw : Option Fields

pub record RayJobStatus : Type 0 where
  pub job_id : String
  pub status : String
  pub message : String
  pub started_at : ℕ
  pub ended_at : ℕ

pub record LogOptions : Type 0 where
  pub tail_lines : ℤ
  pub max_bytes : ℤ

pub record RayJobLogs : Type 0 where
  pub text : String
  pub truncated : Bool
  pub bytes_omitted : ℤ

pub record Event : Type 0 where
  pub type : String
  pub reason : String
  pub message : String
  pub count : ℤ
  pub last_seen : ℕ

pub record ListOptions : Type 0 where
  pub limit : ℤ
  pub continue : String
  pub all_namespaces : Bool

-- ClusterList, JobList and ServiceList: a page and the token of the next.
pub record Page (A : Type 0) : Type 0 where
  pub items : List A
  pub continue : String

pub record Endpoint : Type 0 where
  pub base_url : String
