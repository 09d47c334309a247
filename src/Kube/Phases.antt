-- ===== src/Kube/Phases.antt =====
-- What the phases say: `clusterPhase` and `serviceRolloutPhase` of internal/adapters/kuberay.
use ray_mcp.Prelude.{
  ◌≡◌, ◌≢◌, ◌⊎◌, refl, String, true, false, none, [], arith, eq_iff, Option-cases,
}
use ray_mcp.Kube.{find_condition, is_true}
use ray_mcp.Kube.Clusters
use ray_mcp.Kube.Clusters.{RayCluster, cluster_phase}
use ray_mcp.Kube.Services
use ray_mcp.Kube.Services.{RayService, service_rollout_phase, phase_by_ready, no_conditions}

-- A cluster is called ready when its head and its workers are up and nothing suspends or fails it, or
-- when an operator without that condition says so.
pub cluster_phase-ready :
    (api : Clusters.Api) (rc : RayCluster)
    → cluster_phase api rc ≡ "Ready"
    → (is_true api.suspended rc.conditions ≡ false)
      × (is_true api.suspending rc.conditions ≡ false)
      × (is_true api.replica_failure rc.conditions ≡ false)
      × (((is_true api.head_pod_ready rc.conditions ≡ true)
            × (is_true api.provisioned rc.conditions ≡ true))
          ⊎ ((find_condition api.provisioned rc.conditions ≡ none) × (rc.state ≡ "Ready")))
unfolding cluster_phase
cluster_phase-ready api rc h = ground (
  arith,
  Option-cases (find_condition api.provisioned rc.conditions),
  eq_iff "Suspended" "Ready",
  eq_iff "Suspending" "Ready",
  eq_iff "Failed" "Ready",
  eq_iff "Provisioning" "Ready",
  eq_iff "Unknown" "Ready",
)

no_true : (type : String) → is_true type [] ≡ false
unfolding is_true find_condition
no_true type = refl

-- A service of which nothing is reported is "Unknown", not "Initializing".
pub service_rollout_phase-unreported :
    (api : Services.Api) (rs : RayService)
    → rs.conditions ≡ []
    → rs.service_status ≢ api.running
    → service_rollout_phase api rs ≡ "Unknown"
unfolding service_rollout_phase is_true find_condition
service_rollout_phase-unreported api rs h n =
    rw h (ground (arith, eq_iff rs.service_status api.running))
