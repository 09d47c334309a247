-- ===== src/Tests.antt =====
-- A small cluster and the objects in it, for the examples in the modules below.
mod Merging
mod Writing
mod Clusters
mod Scaling
mod Jobs
mod Services
mod Reaching
mod Serving
mod Building
use ray_mcp.Prelude.{
  ℕ, zero, suc, ◌+◌, ◌*◌, ◌%◌, ◌≡◌, ◌≢◌, String, Bool, true, false, Option, none, some, List, [],
  ◌∷◌, arith, ◌==◌, eq_iff, if◌then◌else◌,
}
use ray_mcp.Prelude.Int.{ℤ, pos, negsuc}
use ray_mcp.Prelude.Text.{show_nat}
use ray_mcp.Json.{Value, null, int, str, arr, obj, nil, cons, Fields, end, field, get, IsWfFields}
use ray_mcp.Errors.{Error, ray_cluster, conflict, not_found, unreachable, Result, ok, err}
use ray_mcp.Types.{
  ClusterSummary, ClusterDetail, JobSummary, JobDetail, ServiceSummary, ServiceDetail, RayJobStatus,
  RayJobLogs, Page, Endpoint,
}
use ray_mcp.Ports.{Call, got, slept, Trace, World}
use ray_mcp.Merge.{Identity}

pub ne_of : (s t : String) → (s == t) ≡ false → s ≢ t
ne_of s t h = ground (arith, h, eq_iff s t)

abbrev pub one : String → Value → Fields
one k v = field k v end

abbrev pub demo : Identity
demo = record { namespace = "team"; name = "demo" }

abbrev pub meta : Fields
meta =
    field "name" (str "demo")
      (field "namespace" (str "team") (field "uid" (str "u1") (one "resourceVersion" (str "7"))))

abbrev pub group_small : Fields
group_small = field "groupName" (str "small") (
    field "replicas" (int (pos 1))
      (field "minReplicas" (int (pos 0)) (one "maxReplicas" (int (pos 3)))))

abbrev pub group_large : Fields
group_large = field "groupName" (str "large") (one "replicas" (int (pos 2)))

abbrev pub cluster_spec : Fields
cluster_spec =
    field "rayVersion" (str "2.9.0")
      (one "workerGroupSpecs" (arr (cons (obj group_small) (cons (obj group_large) nil))))

abbrev pub live_cluster : Fields
live_cluster = field "metadata" (obj meta) (one "spec" (obj cluster_spec))

abbrev pub live_service : Fields
live_service =
    field "metadata" (obj meta) (
      one "spec"
        (obj (field "serveConfigV2" (str "a") (one "rayClusterConfig" (obj cluster_spec)))))

abbrev pub live_job : Fields
live_job = field "metadata" (obj meta) (one "spec" (obj (one "rayClusterSpec" (obj cluster_spec))))

abbrev pub cluster_summary : ClusterSummary
cluster_summary = record {
  name = "demo";
  namespace = "team";
  phase = "ready";
  ready_replicas = pos 3;
  desired_replicas = pos 3;
  age = pos 60;
  health = "ready";
}

abbrev pub cluster_detail : ClusterDetail
cluster_detail = record {
  summary = cluster_summary;
  head_service_name = "demo-head-svc";
  dashboard_url = "demo:8265";
  raw = some live_cluster;
}

abbrev pub job_detail : JobDetail
job_detail = record {
  summary = record {
    name = "demo";
    namespace = "team";
    job_status = "PENDING";
    job_deployment_status = "Running";
    age = pos 60;
    health = "Running";
  };
  job_id = "j1";
  dashboard_url = "demo:8265";
  ray_cluster_name = "demo";
  raw = some live_job;
}

abbrev pub service_detail : ServiceDetail
service_detail = record {
  summary = record {
    name = "demo";
    namespace = "team";
    service_status = "Running";
    healthy_replicas = pos 1;
    age = pos 60;
    health = "Running";
  };
  rollout_phase = "";
  raw = some live_service;
}

abbrev pub live_status : String → RayJobStatus
live_status s = record { job_id = "j1"; status = s; message = ""; started_at = 0; ended_at = 0 }

-- A second for each call but a pause, which takes its time.
abbrev ticks : Call → ℕ
ticks (slept d) = d
ticks _ = 1000000000

abbrev pub elapsed : Trace → ℕ
elapsed [] = 0
elapsed (c ∷ t) = ticks c + elapsed t

-- The API server's answer: the first apply after a first read is a conflict.
abbrev pub apply_answer : Trace → Fields → Result Fields
apply_answer (got k ns name ∷ []) spec = err (conflict ray_cluster "team" "demo" "owned by another")
apply_answer _ spec = ok spec

abbrev checksum : List ℕ → ℕ
checksum [] = 1
checksum (b ∷ bs) = (b + 31 * checksum bs) % 1000003

-- A cluster that has the objects above; its dashboard says that the job runs, and gives no logs.
abbrev pub toy : World
toy = record {
  on_get_cluster = λ t ns name. ok cluster_detail;
  on_get_job = λ t ns name. ok job_detail;
  on_get_service = λ t ns name. ok service_detail;
  on_list_clusters = λ t ns opts. ok (record { items = []; continue = "" });
  on_list_jobs = λ t ns opts. ok (record { items = []; continue = "" });
  on_list_services = λ t ns opts. ok (record { items = []; continue = "" });
  on_events = λ t k ns name limit. ok [];
  on_apply = λ t k ns name spec opts. apply_answer t spec;
  on_delete = λ t k ns name dry. none;
  on_endpoint = λ t ns name port. ok (record { base_url = "demo:8265" });
  on_job_status = λ t e id. ok (live_status "RUNNING");
  on_job_logs = λ t e id opts. err (unreachable "demo:8265" "refused");
  now = elapsed;
  on_sleep = λ t d. none;
  digest = λ bytes. show_nat (checksum bytes);
  context_caller = none;
}

pub live_cluster-IsWf : IsWfFields live_cluster
unfolding get
live_cluster-IsWf = ground arith

pub live_service-IsWf : IsWfFields live_service
unfolding get
live_service-IsWf = ground arith

pub cluster_spec-IsWf : IsWfFields cluster_spec
unfolding get
cluster_spec-IsWf = ground arith
