-- ===== src/Kube/Services.antt =====
-- internal/adapters/kuberay/service.go: the RayService reads and the distilled status. The map of the
-- Serve applications is an association list of their names and states. The names that KubeRay gives
-- to conditions and states are a parameter.
use Prim.Native.String.{◌++◌}
use ray_mcp.Prelude.{
  ℕ, String, Bool, true, false, not, ◌&&◌, ◌||◌, Option, none, some, List, [], ◌∷◌, ◌==◌,
  if◌then◌else◌,
}
use ray_mcp.Prelude.Int.{ℤ}
use ray_mcp.Prelude.Text.{show_int, join}
use ray_mcp.Errors.{ray_service, Error, Result}
use ray_mcp.Diff.{sort_by}
use ray_mcp.Types.{ServiceSummary, ServiceDetail, Page, ListOptions}
use ray_mcp.Reads.{health_line, condition_reason}
use ray_mcp.Kube.{
  Reply, ListRequest, list_page, get_object, Converted, with_raw, age_of, Condition, find_condition,
  is_true,
}

pub record RayService : Type 0 where
  pub name : String
  pub namespace : String
  pub created : ℕ
  pub conditions : List Condition
  pub service_status : String
  pub num_serve_endpoints : ℤ
  pub active_applications : List (String × String)
  pub pending_applications : List (String × String)

-- The names of KubeRay's API: conditions, reasons, the deprecated status and the states of Serve.
pub record Api : Type 0 where
  pub ready : String
  pub upgrade_in_progress : String
  pub rollback_in_progress : String
  pub initializing : String
  pub initializing_timeout : String
  pub running : String
  pub unhealthy : String
  pub deploy_failed : String

module _ (api : Api) where
  abbrev pub deprecated_serve_status : String → String
  deprecated_serve_status status = if status == api.running then "Running" else "Unknown"

  abbrev pub serve_status_by : String → Option Condition → String
  serve_status_by status none = deprecated_serve_status status
  serve_status_by status (some c) =
      if c.status == "True"
      then "Running"
      else if not (c.reason == "")
      then c.reason
      else deprecated_serve_status status

  unfoldable pub service_serve_status : RayService → String
  unfolding find_condition
  service_serve_status rs =
      serve_status_by rs.service_status (find_condition api.ready rs.conditions)

  abbrev pub no_conditions : List Condition → Bool
  no_conditions [] = true
  no_conditions (c ∷ cs) = false

  abbrev pub phase_by_ready : RayService → Option Condition → String
  phase_by_ready rs (some c) =
      if c.reason == api.initializing || c.reason == api.initializing_timeout
      then "Initializing"
      else "Unknown"
  phase_by_ready rs none =
      if no_conditions rs.conditions && rs.service_status == api.running
      then "Running"
      else "Unknown"

  unfoldable pub service_rollout_phase : RayService → String
  unfolding is_true find_condition
  service_rollout_phase rs =
      if is_true api.rollback_in_progress rs.conditions
      then "RollingBack"
      else if is_true api.upgrade_in_progress rs.conditions
      then "RollingOut"
      else if is_true api.ready rs.conditions
      then "Running"
      else phase_by_ready rs (find_condition api.ready rs.conditions)

  unfoldable pub named_unhealthy : List (String × String) → List String
  named_unhealthy [] = []
  named_unhealthy ((name, status) ∷ apps) =
      let rest = named_unhealthy apps in
      if status == api.unhealthy || status == api.deploy_failed then name ∷ rest else rest

  unfoldable pub unhealthy_apps : List (String × String) → List String
  unfolding named_unhealthy sort_by
  unhealthy_apps apps = sort_by (λ (s : String). s) (named_unhealthy apps)

  abbrev pub not_ready_detail : Option Condition → String
  not_ready_detail none = ""
  not_ready_detail (some c) =
      if not (c.status == "True") then condition_reason c.reason c.message else ""

  abbrev pub apps_or : String → String → List String → String
  apps_or prefix otherwise [] = otherwise
  apps_or prefix otherwise (app ∷ apps) = prefix ++ join ", " (app ∷ apps)

  unfoldable pub service_health_detail : RayService → String
  unfolding is_true find_condition unhealthy_apps condition_reason join
  service_health_detail rs =
      let ready = not_ready_detail (find_condition api.ready rs.conditions) in
      if is_true api.upgrade_in_progress rs.conditions
        || is_true api.rollback_in_progress rs.conditions
      then apps_or "new serve UNHEALTHY: " ready (unhealthy_apps rs.pending_applications)
      else apps_or "serve UNHEALTHY: " ready (unhealthy_apps rs.active_applications)

  unfoldable pub service_health : RayService → String
  unfolding service_rollout_phase service_health_detail health_line show_int
  service_health rs = health_line (
      service_rollout_phase rs
      ∷ (show_int rs.num_serve_endpoints ++ " serve endpoints")
      ∷ service_health_detail rs
      ∷ [])

  unfoldable pub to_service_summary : ℕ → RayService → ServiceSummary
  unfolding service_serve_status service_health age_of
  to_service_summary now rs = record {
    name = rs.name;
    namespace = rs.namespace;
    service_status = service_serve_status rs;
    healthy_replicas = rs.num_serve_endpoints;
    age = age_of now rs.created;
    health = service_health rs;
  }

  unfoldable pub to_service_detail :
      ℕ → (RayService → Converted) → RayService → Result ServiceDetail
  unfolding to_service_summary service_rollout_phase
  to_service_detail now convert rs =
      with_raw ray_service rs.name
        (λ raw. record {
          summary = to_service_summary now rs;
          rollout_phase = service_rollout_phase rs;
          raw = raw;
        })
        (convert rs)

  unfoldable pub list_services :
      ℕ
      → Option Error
      → (ListRequest → Reply (Page RayService))
      → String
      → ListOptions
      → Result (Page ServiceSummary)
  unfolding list_page to_service_summary
  list_services now connect ask = list_page connect ask ray_service (to_service_summary now)

  unfoldable pub get_service :
      ℕ
      → Option Error
      → (RayService → Converted)
      → (String → String → Reply RayService)
      → String
      → String
      → Result ServiceDetail
  unfolding get_object to_service_detail
  get_service now connect convert ask =
      get_object connect ask ray_service (to_service_detail now convert)
