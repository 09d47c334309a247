-- ===== src/Dash/Wired.antt =====
-- The job read of internal/domain/job.go over the adapters of internal/adapters/reachability and
-- internal/adapters/rayapi.
use ray_mcp.Prelude.{ℕ, ◌≡◌, ◌⊎◌, ◌∙◌, sym, inl, inr, refl, String, true, none, some, ◌∷◌, arith}
use ray_mcp.Prelude.Int.{pos}
use ray_mcp.Errors.{Error, not_found, Result, ok, err, Result-cases}
use ray_mcp.Types.{JobDetail, Endpoint, RayJobStatus}
use ray_mcp.Ports.{Trace, World, resolved}
use ray_mcp.Reach.Pool.{Pool}
use ray_mcp.Reach.Resolver.{Resolving, resolve}
use ray_mcp.Reach.Unreachable.{OrUnreachable, reached, DialerIsTyped, resolve-OrUnreachable}
use ray_mcp.Dash.{Packages, Client, job_status}
use ray_mcp.Dash.Failures.{Ends, answered, too_late, unknown_job, job_status-Ends}
use ray_mcp.Job.{
  JobService, JobGetRequest, is_scheduled, degrade_reason, dial_status, dashboard_port, get,
}
use ray_mcp.Job.Dial.{get_scope, after_read, get_fails_only}

-- The endpoints are the resolver's, the live statuses the client's; what the resolver, its pool and
-- the network are at an instant depends on the calls so far.
pub record Wired (w : World) : Type 0 where
  pub resolver : Trace → Resolving
  pub pool : Trace → Pool
  pub network : Trace → Packages
  pub client : Client
  pub typed : (t : Trace) → DialerIsTyped (resolver t).dial
  pub endpoints :
      (t : Trace) (ns cluster : String) (port : ℕ)
      → w.on_endpoint t ns cluster port
        ≡ (resolve
            (resolver t)
            (record { namespace = ns; cluster = cluster })
            (pos port)
            (pool t)).0
  pub statuses :
      (t : Trace) (e : Endpoint) (id : String)
      → w.on_job_status t e id ≡ job_status (network t) client e id

status_failure :
    (job_id op : String) (r : Result RayJobStatus) (e : Error)
    → Ends job_id op r
    → r ≡ err e
    → degrade_reason e ≡ none
    → e ≡ not_found none "" job_id
unfolding degrade_reason
status_failure job_id op _ e (answered a) h d = ground arith
status_failure job_id op _ e (Ends.out_of_reach place reason) h d = ground arith
status_failure job_id op _ e too_late h d = ground arith
status_failure job_id op _ e unknown_job h d = ground arith

endpoint_failure :
    (r : Result Endpoint) (e : Error)
    → OrUnreachable r
    → r ≡ err e
    → (reason : String) × (degrade_reason e ≡ some reason)
unfolding degrade_reason
endpoint_failure _ e (reached a) h = absurd (ground arith)
endpoint_failure _ e (OrUnreachable.out_of_reach place reason) h = (reason, ground arith)

module _ (w : World) (ns : String) (detail : JobDetail) (t : Trace) where
  abbrev at_endpoint : Result Endpoint
  at_endpoint = w.on_endpoint t ns detail.ray_cluster_name dashboard_port

  dial_refused : (x : Error) → at_endpoint ≡ err x → (dial_status w ns detail t).0 ≡ err x
  unfolding dial_status
  dial_refused x p = rw p refl

  dial_made :
      (end : Endpoint)
      → at_endpoint ≡ ok end
      → (dial_status w ns detail t).0
        ≡ w.on_job_status (resolved ns detail.ray_cluster_name dashboard_port ∷ t) end detail.job_id
  unfolding dial_status
  dial_made end p = rw p refl

degrades_or_not :
    (x e : Error) (reason : String)
    → degrade_reason x ≡ some reason
    → degrade_reason e ≡ none
    → ◌≡◌ {A = Result RayJobStatus} (err x) (err e)
    → ⊥
degrades_or_not x e reason p d h = ground arith

module _ (w : World) (wired : Wired w) where
  dial_fails :
      (ns : String) (detail : JobDetail) (t : Trace) (e : Error)
      → (dial_status w ns detail t).0 ≡ err e
      → degrade_reason e ≡ none
      → e ≡ not_found none "" detail.job_id
  dial_fails ns detail t e h d =
      let typed =
        resolve-OrUnreachable (wired.resolver t)
          (record { namespace = ns; cluster = detail.ray_cluster_name }) (pos dashboard_port)
          (wired.pool t) (wired.typed t) in
      let t' = resolved ns detail.ray_cluster_name dashboard_port ∷ t in
      let at = wired.endpoints t ns detail.ray_cluster_name dashboard_port in
      elim (Result-cases (w.on_endpoint t ns detail.ray_cluster_name dashboard_port)) [
        | inl (end, p) ↦
            status_failure detail.job_id "JobStatus" _ e
              (job_status-Ends (wired.network t') wired.client end detail.job_id)
              (sym (wired.statuses t' end detail.job_id) ∙ sym (dial_made w ns detail t end p) ∙ h)
              d
        | inr (x, p) ↦
            let (reason, some_reason) = endpoint_failure _ x typed (sym at ∙ p) in
            absurd
              (degrades_or_not x e reason some_reason d (sym (dial_refused w ns detail t x p) ∙ h))
      ]

  -- In a world whose endpoints are the resolver's, with a dialer that fails as unreachable only, and
  -- whose live statuses are the dashboard client's, a job's read fails only with the error of the
  -- RayJob's own read, or, for a scheduled job, because the dashboard does not know the job's id;
  -- every other failure of the tunnel, the network or the answer is no error of the read.
  pub wired_get_fails_only :
      (s : JobService) (req : JobGetRequest) (t : Trace) (e : Error)
      → (get w s req t).0 ≡ err e
      → (w.on_get_job t (get_scope w s req t) req.name ≡ err e)
        ⊎ ((detail : JobDetail) × (w.on_get_job t (get_scope w s req t) req.name ≡ ok detail)
            × (is_scheduled detail ≡ true)
            × (e ≡ not_found none "" detail.job_id))
  wired_get_fails_only s req t e h = elim (get_fails_only w s req t e h) [
    | inl same ↦ inl same
    | inr (detail, read, ready, dial, d) ↦ inr (
      detail,
      read,
      ready,
      dial_fails (get_scope w s req t) detail (after_read w s req t) e dial d,
    )
  ]
