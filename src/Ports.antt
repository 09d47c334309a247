-- ===== src/Ports.antt =====
-- The ports of internal/domain/ports.go and the audit record of apply.go, as the domain sees them.
--
-- What the cluster, the Ray dashboard, the clock and the hash answer is a parameter, `World`: each
-- answer may depend on everything that was asked before. A `Trace` lists the calls made, the latest
-- first; an action takes the trace to its result and the longer trace. So a theorem about every
-- `World` holds whatever other writers, failures and delays do between two calls.
use ray_mcp.Prelude.{ℕ, String, Bool, List, ◌∷◌, Option, none, some, ◌==◌, if◌then◌else◌}
use ray_mcp.Prelude.Int.{ℤ}
use ray_mcp.Json.{Fields}
use ray_mcp.Errors.{Kind, ray_cluster, ray_job, ray_service, Error, Result, ok, err}
use ray_mcp.Types.{
  ClusterSummary, ClusterDetail, JobSummary, JobDetail, ServiceSummary, ServiceDetail, RayJobStatus,
  LogOptions, RayJobLogs, Event, ListOptions, Page, Endpoint,
}

pub record ApplyOptions : Type 0 where
  pub dry_run : Bool
  pub force : Bool

pub data Outcome : Type 0 where
  success failure : Outcome

-- `error` is "" on success.
pub record AuditRecord : Type 0 where
  pub caller : String
  pub tool : String
  pub kind : Kind
  pub namespace : String
  pub name : String
  pub args_summary : String
  pub dry_run : Bool
  pub outcome : Outcome
  pub error : String

pub data Call : Type 0 where
  got : Kind → String → String → Call
  listed : Kind → String → ListOptions → Call
  asked_events : Kind → String → String → ℤ → Call
  applied : Kind → String → String → Fields → ApplyOptions → Call
  deleted : Kind → String → String → Bool → Call
  recorded : AuditRecord → Call
  resolved : String → String → ℕ → Call
  asked_status : Endpoint → String → Call
  asked_logs : Endpoint → String → LogOptions → Call
  slept : ℕ → Call

abbrev pub Trace : Type 0
Trace = List Call

pub record World : Type 0 where
  pub on_get_cluster : Trace → String → String → Result ClusterDetail
  pub on_get_job : Trace → String → String → Result JobDetail
  pub on_get_service : Trace → String → String → Result ServiceDetail
  pub on_list_clusters : Trace → String → ListOptions → Result (Page ClusterSummary)
  pub on_list_jobs : Trace → String → ListOptions → Result (Page JobSummary)
  pub on_list_services : Trace → String → ListOptions → Result (Page ServiceSummary)
  pub on_events : Trace → Kind → String → String → ℤ → Result (List Event)
  pub on_apply : Trace → Kind → String → String → Fields → ApplyOptions → Result Fields
  pub on_delete : Trace → Kind → String → String → Bool → Option Error
  pub on_endpoint : Trace → String → String → ℕ → Result Endpoint
  pub on_job_status : Trace → Endpoint → String → Result RayJobStatus
  pub on_job_logs : Trace → Endpoint → String → LogOptions → Result RayJobLogs
  pub now : Trace → ℕ
  pub on_sleep : Trace → ℕ → Option Error
  pub digest : List ℕ → String
  pub context_caller : Option String

abbrev pub M : Type 0 → Type 0
M A = Trace → Result A × Trace

abbrev pub pure : {A : Type 0} → A → M A
pure a t = (ok a, t)

abbrev pub fail : {A : Type 0} → Error → M A
fail e t = (err e, t)

abbrev pub continue_from : {A B : Type 0} → Result A → Trace → (A → M B) → Result B × Trace
continue_from (ok a) t f = f a t
continue_from (err e) t f = (err e, t)

abbrev pub continue_with : {A B : Type 0} → Result A × Trace → (A → M B) → Result B × Trace
continue_with p f = continue_from p.0 p.1 f

infixl 5 ◌>>=◌ ◌>>◌
abbrev pub ◌>>=◌ : {A B : Type 0} → M A → (A → M B) → M B
◌>>=◌ m f t = continue_with (m t) f

-- A step that may fail, run for its error.
abbrev pub result_of : Option Error → Result (Unit {0})
result_of none = ok tt
result_of (some e) = err e

abbrev pub check : Option Error → M (Unit {0})
check o t = (result_of o, t)

abbrev pub ◌>>◌ : {B : Type 0} → M (Unit {0}) → M B → M B
m >> k = m >>= λ _. k

-- A pure function that returns an error.
abbrev pub lift : {A : Type 0} → Result A → M A
lift r t = (r, t)

module _ (w : World) where
  abbrev pub get_cluster : String → String → M ClusterDetail
  get_cluster ns name t = (w.on_get_cluster t ns name, got ray_cluster ns name ∷ t)

  abbrev pub get_job : String → String → M JobDetail
  get_job ns name t = (w.on_get_job t ns name, got ray_job ns name ∷ t)

  abbrev pub get_service : String → String → M ServiceDetail
  get_service ns name t = (w.on_get_service t ns name, got ray_service ns name ∷ t)

  abbrev pub kube_apply : Kind → String → String → Fields → ApplyOptions → M Fields
  kube_apply k ns name spec opts t =
      (w.on_apply t k ns name spec opts, applied k ns name spec opts ∷ t)

  abbrev pub kube_delete : Kind → String → String → Bool → Trace → Option Error × Trace
  kube_delete k ns name dry t = (w.on_delete t k ns name dry, deleted k ns name dry ∷ t)

  abbrev pub endpoint : String → String → ℕ → M Endpoint
  endpoint ns cluster port t = (w.on_endpoint t ns cluster port, resolved ns cluster port ∷ t)

  abbrev pub job_status : Endpoint → String → M RayJobStatus
  job_status e id t = (w.on_job_status t e id, asked_status e id ∷ t)

  abbrev pub job_logs : Endpoint → String → LogOptions → M RayJobLogs
  job_logs e id opts t = (w.on_job_logs t e id opts, asked_logs e id opts ∷ t)

  abbrev pub sleep : ℕ → Trace → Option Error × Trace
  sleep d t = (w.on_sleep t d, slept d ∷ t)

-- `resolveNamespace`, which every service of the domain has.
unfoldable pub resolve_namespace : String → String → String
resolve_namespace default ns = if ns == "" then default else ns
