-- ===== src/Job.antt =====
-- internal/domain/job.go: the RayJob read service, `JobService`. A read has two phases: the RayJob of
-- Kubernetes, and, once the job is scheduled, the Ray dashboard of its cluster.
pub mod Dial
pub mod Wait
pub mod Submit
pub mod Deletion
use ray_mcp.Prelude.{
  ℕ, String, Bool, true, false, not, ◌&&◌, Option, none, some, ◌==◌, if◌then◌else◌,
}
use ray_mcp.Prelude.Int.{ℤ}
use ray_mcp.Errors.{Error, unreachable, timeout, error_text, Result, ok, err}
use ray_mcp.Types.{JobDetail, RayJobStatus, RayJobLogs, LogOptions, Endpoint}
use ray_mcp.Ports.{
  Trace, World, M, pure, continue_with, ◌>>=◌, get_job, endpoint, job_status, job_logs,
  resolve_namespace,
}
use ray_mcp.Cluster.{not_empty}

abbrev pub dashboard_port : ℕ
dashboard_port = 8265

pub record JobService : Type 0 where
  pub default_namespace : String

pub record JobGetRequest : Type 0 where
  pub namespace : String
  pub name : String
  pub verbose : Bool

pub record JobGetResult : Type 0 where
  pub detail : JobDetail
  pub scheduled : Bool
  pub live : Option RayJobStatus
  pub degraded : Bool
  pub degrade_reason : String
  pub verbose : Bool

pub record JobLogsRequest : Type 0 where
  pub namespace : String
  pub name : String
  pub tail_lines : ℤ
  pub max_bytes : ℤ

pub record JobLogsResult : Type 0 where
  pub detail : JobDetail
  pub scheduled : Bool
  pub logs : Option RayJobLogs
  pub degraded : Bool
  pub degrade_reason : String

-- The dial gate: the job has an id and its cluster a dashboard.
unfoldable pub is_scheduled : JobDetail → Bool
is_scheduled detail = not_empty detail.job_id && not_empty detail.dashboard_url

-- The reason to show for a failure of availability; no other error is hidden.
unfoldable pub degrade_reason : Error → Option String
unfolding error_text
degrade_reason (unreachable e reason) = some reason
degrade_reason (timeout op) = some (error_text (timeout op))
degrade_reason _ = none

unfoldable pub gate_raw : JobDetail → Bool → JobDetail
gate_raw detail verbose = if verbose then detail else record detail { raw = none }

-- The second phase: the endpoint of the job's cluster, and a request to it. Both calls hand their
-- error to the same `degradeReason`, so they are one action here.
unfoldable pub dial_status : World → String → JobDetail → M RayJobStatus
dial_status w ns detail = do
  e ← endpoint w ns detail.ray_cluster_name dashboard_port
  job_status w e detail.job_id

unfoldable pub dial_logs : World → String → JobDetail → LogOptions → M RayJobLogs
dial_logs w ns detail opts = do
  e ← endpoint w ns detail.ray_cluster_name dashboard_port
  job_logs w e detail.job_id opts

-- What becomes of the second phase's error.
unfoldable pub or_degraded : {A : Type 0} → (String → A) → Error → Result A
unfolding degrade_reason
or_degraded degraded e = elim (degrade_reason e) [
  | some reason ↦ ok (degraded reason)
  | none ↦ err e
]

unfoldable pub dialed : {A B : Type 0} → (A → B) → (String → B) → Result A → Result B
unfolding or_degraded
dialed f degraded (ok a) = ok (f a)
dialed f degraded (err e) = or_degraded degraded e

unfoldable pub get : World → JobService → JobGetRequest → M JobGetResult
unfolding is_scheduled gate_raw dial_status dialed
get w s req =
    let ns = resolve_namespace s.default_namespace req.namespace in
    get_job w ns req.name >>= λ detail t.
    let shown = gate_raw detail req.verbose in
    if not (is_scheduled detail)
    then (
      ok (record {
        detail = shown;
        scheduled = false;
        live = none;
        degraded = false;
        degrade_reason = "";
        verbose = req.verbose;
      }),
      t,
    )
    else (let (r, t') = dial_status w ns detail t in
        (
          dialed
              (λ live. record {
                detail = shown;
                scheduled = true;
                live = some live;
                degraded = false;
                degrade_reason = "";
                verbose = req.verbose;
              })
              (λ reason. record {
                detail = shown;
                scheduled = true;
                live = none;
                degraded = true;
                degrade_reason = reason;
                verbose = req.verbose;
              })
              r,
          t',
        ))

unfoldable pub logs : World → JobService → JobLogsRequest → M JobLogsResult
unfolding is_scheduled dial_logs dialed
logs w s req =
    let ns = resolve_namespace s.default_namespace req.namespace in
    get_job w ns req.name >>= λ detail t.
    if not (is_scheduled detail)
    then (
      ok (record {
        detail = detail;
        scheduled = false;
        logs = none;
        degraded = false;
        degrade_reason = "";
      }),
      t,
    )
    else (let (r, t') =
          dial_logs w ns detail (record { tail_lines = req.tail_lines; max_bytes = req.max_bytes })
            t in
        (
          dialed
              (λ logs. record {
                detail = detail;
                scheduled = true;
                logs = some logs;
                degraded = false;
                degrade_reason = "";
              })
              (λ reason. record {
                detail = detail;
                scheduled = true;
                logs = none;
                degraded = true;
                degrade_reason = reason;
              })
              r,
          t',
        ))
