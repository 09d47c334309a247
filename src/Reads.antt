-- ===== src/Reads.antt =====
-- The read services of internal/domain/cluster.go, job.go and service.go that need one call, and
-- internal/domain/distill.go.
pub mod Laws
use Prim.Native.String.{◌++◌}
use ray_mcp.Prelude.{
  ℕ, zero, suc, String, Bool, true, false, not, Option, none, some, List, [], ◌∷◌, ◌==◌,
  if◌then◌else◌,
}
use ray_mcp.Prelude.Int.{ℤ, pos, negsuc}
use ray_mcp.Prelude.Text.{join}
use ray_mcp.Errors.{Kind, ray_cluster, ray_job, ray_service, Result, ok, err}
use ray_mcp.Types.{
  ClusterSummary, ClusterDetail, JobSummary, ServiceSummary, ServiceDetail, Event, ListOptions,
  Page,
}
use ray_mcp.Ports.{
  listed, asked_events, Trace, World, M, pure, ◌>>=◌, get_cluster, get_service, resolve_namespace,
}
use ray_mcp.Cluster.{not_empty}

pub record ListRequest : Type 0 where
  pub namespace : String
  pub limit : ℤ
  pub continue : String
  pub all_namespaces : Bool

pub record ListResult (A : Type 0) : Type 0 where
  pub items : List A
  pub continue : String
  pub more_available : Bool

abbrev pub list_options : ListRequest → ListOptions
list_options req = record {
  limit = req.limit;
  continue = req.continue;
  all_namespaces = req.all_namespaces;
}

abbrev pub list_result : {A : Type 0} → Page A → ListResult A
list_result page = record {
  items = page.items;
  continue = page.continue;
  more_available = not_empty page.continue;
}

module _ (w : World) (default_namespace : String) where
  unfoldable pub cluster_list : ListRequest → M (ListResult ClusterSummary)
  cluster_list req t =
      let ns = resolve_namespace default_namespace req.namespace in
      ((λ t'. (w.on_list_clusters t ns (list_options req), t')) >>= λ page. pure (list_result page))
        (listed ray_cluster ns (list_options req) ∷ t)

  unfoldable pub job_list : ListRequest → M (ListResult JobSummary)
  job_list req t =
      let ns = resolve_namespace default_namespace req.namespace in
      ((λ t'. (w.on_list_jobs t ns (list_options req), t')) >>= λ page. pure (list_result page))
        (listed ray_job ns (list_options req) ∷ t)

  unfoldable pub service_list : ListRequest → M (ListResult ServiceSummary)
  service_list req t =
      let ns = resolve_namespace default_namespace req.namespace in
      ((λ t'. (w.on_list_services t ns (list_options req), t')) >>= λ page. pure (list_result page))
        (listed ray_service ns (list_options req) ∷ t)

pub record GetRequest : Type 0 where
  pub namespace : String
  pub name : String
  pub verbose : Bool

pub record ClusterGetResult : Type 0 where
  pub detail : ClusterDetail
  pub verbose : Bool

pub record ServiceGetResult : Type 0 where
  pub detail : ServiceDetail
  pub verbose : Bool

pub record EventsRequest : Type 0 where
  pub namespace : String
  pub name : String
  pub limit : ℤ

pub record EventsResult : Type 0 where
  pub namespace : String
  pub name : String
  pub events : List Event

abbrev pub default_event_limit : ℤ
default_event_limit = pos 25

abbrev pub event_limit : ℤ → ℤ
event_limit (pos (suc n)) = pos (suc n)
event_limit _ = default_event_limit

module _ (w : World) (default_namespace : String) where
  -- The object is shown only on request.
  unfoldable pub cluster_get : GetRequest → M ClusterGetResult
  cluster_get req = do
    detail ← get_cluster w (resolve_namespace default_namespace req.namespace) req.name
    pure (record {
      detail = if not req.verbose then record detail { raw = none } else detail;
      verbose = req.verbose;
    })

  unfoldable pub service_get : GetRequest → M ServiceGetResult
  service_get req = do
    detail ← get_service w (resolve_namespace default_namespace req.namespace) req.name
    pure (record {
      detail = if not req.verbose then record detail { raw = none } else detail;
      verbose = req.verbose;
    })

  unfoldable pub cluster_events : EventsRequest → M EventsResult
  cluster_events req t =
      let ns = resolve_namespace default_namespace req.namespace in
      let limit = event_limit req.limit in
      ((λ t'. (w.on_events t ray_cluster ns req.name limit, t')) >>= λ events.
      pure (record { namespace = ns; name = req.name; events = events }))
        (asked_events ray_cluster ns req.name limit ∷ t)

abbrev pub non_empty : List String → List String
non_empty [] = []
non_empty (s ∷ ss) = let rest = non_empty ss in if not (s == "") then s ∷ rest else rest

unfoldable pub health_line : List String → String
health_line segments = join "; " (non_empty segments)

unfoldable pub condition_reason : String → String → String
condition_reason reason message =
    if not_empty reason
    then if not_empty message then reason ++ ": " ++ message else reason
    else if not_empty message
    then message
    else reason
