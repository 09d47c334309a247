-- ===== src/Kube/Clusters.antt =====
-- internal/adapters/kuberay/cluster.go: the RayCluster reads and the distilled status. The names that
-- KubeRay gives to conditions and states are a parameter.
use Prim.Native.String.{◌++◌}
use ray_mcp.Prelude.{
  ℕ, String, not, ◌&&◌, ◌||◌, Option, none, some, List, [], ◌∷◌, ◌==◌, is_some, if◌then◌else◌,
}
use ray_mcp.Prelude.Int.{ℤ}
use ray_mcp.Prelude.Text.{show_int}
use ray_mcp.Errors.{ray_cluster, Error, Result}
use ray_mcp.Types.{ClusterSummary, ClusterDetail, Page, ListOptions}
use ray_mcp.Reads.{health_line, condition_reason}
use ray_mcp.Kube.{
  Reply, ListRequest, list_page, get_object, Converted, with_raw, age_of, Condition, find_condition,
  is_true,
}

pub record RayCluster : Type 0 where
  pub name : String
  pub namespace : String
  pub created : ℕ
  pub conditions : List Condition
  pub state : String
  pub reason : String
  pub head_service : String
  pub ready_workers : ℤ
  pub desired_workers : ℤ

-- The names of the conditions and of the deprecated state in KubeRay's API.
pub record Api : Type 0 where
  pub suspended : String
  pub suspending : String
  pub replica_failure : String
  pub head_pod_ready : String
  pub provisioned : String
  pub suspended_state : String

module _ (api : Api) where
  unfoldable pub cluster_phase : RayCluster → String
  unfolding is_true find_condition
  cluster_phase rc =
      if is_true api.suspended rc.conditions || rc.state == api.suspended_state
      then "Suspended"
      else if is_true api.suspending rc.conditions
      then "Suspending"
      else if is_true api.replica_failure rc.conditions
      then "Failed"
      else if is_true api.head_pod_ready rc.conditions && is_true api.provisioned rc.conditions
      then "Ready"
      else if is_some (find_condition api.provisioned rc.conditions)
      then "Provisioning"
      else if not (rc.state == "")
      then rc.state
      else "Unknown"

  abbrev pub cond_reason : Condition → String
  cond_reason c = condition_reason c.reason c.message

  abbrev pub provisioned_detail : String → Option Condition → String
  provisioned_detail reason none = reason
  provisioned_detail reason (some c) = if not (c.status == "True") then cond_reason c else reason

  abbrev pub failure_detail : String → Option Condition → String
  failure_detail otherwise none = otherwise
  failure_detail otherwise (some c) = if c.status == "True" then cond_reason c else otherwise

  unfoldable pub health_detail : RayCluster → String
  unfolding find_condition condition_reason
  health_detail rc =
      failure_detail (provisioned_detail rc.reason (find_condition api.provisioned rc.conditions))
        (find_condition api.replica_failure rc.conditions)

  unfoldable pub cluster_health : RayCluster → String
  unfolding cluster_phase health_detail health_line show_int
  cluster_health rc = health_line (
      cluster_phase rc
      ∷ (show_int rc.ready_workers ++ "/" ++ show_int rc.desired_workers ++ " workers ready")
      ∷ health_detail rc
      ∷ [])

  unfoldable pub to_cluster_summary : ℕ → RayCluster → ClusterSummary
  unfolding cluster_phase cluster_health age_of
  to_cluster_summary now rc = record {
    name = rc.name;
    namespace = rc.namespace;
    phase = cluster_phase rc;
    ready_replicas = rc.ready_workers;
    desired_replicas = rc.desired_workers;
    age = age_of now rc.created;
    health = cluster_health rc;
  }

  unfoldable pub dashboard_url : RayCluster → String
  dashboard_url rc =
      if rc.head_service == ""
      then ""
      else "http://" ++ rc.head_service ++ "." ++ rc.namespace ++ ".svc:8265"

  unfoldable pub to_cluster_detail :
      ℕ → (RayCluster → Converted) → RayCluster → Result ClusterDetail
  unfolding to_cluster_summary dashboard_url
  to_cluster_detail now convert rc =
      with_raw ray_cluster rc.name
        (λ raw. record {
          summary = to_cluster_summary now rc;
          head_service_name = rc.head_service;
          dashboard_url = dashboard_url rc;
          raw = raw;
        })
        (convert rc)

  unfoldable pub list_clusters :
      ℕ
      → Option Error
      → (ListRequest → Reply (Page RayCluster))
      → String
      → ListOptions
      → Result (Page ClusterSummary)
  unfolding list_page to_cluster_summary
  list_clusters now connect ask = list_page connect ask ray_cluster (to_cluster_summary now)

  unfoldable pub get_cluster :
      ℕ
      → Option Error
      → (RayCluster → Converted)
      → (String → String → Reply RayCluster)
      → String
      → String
      → Result ClusterDetail
  unfolding get_object to_cluster_detail
  get_cluster now connect convert ask =
      get_object connect ask ray_cluster (to_cluster_detail now convert)
