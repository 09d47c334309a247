-- ===== src/Tools/Jobs.antt =====
-- What internal/mcp/job.go shows of a job: the outputs and summaries of ray_job_get, ray_job_logs and
-- ray_job_wait. A time is a number of nanoseconds since the zero time.
use Prim.Native.String.{◌++◌}
use ray_mcp.Prelude.{
  ℕ, suc, ◌-◌, ◌/◌, String, Bool, false, not, ◌&&◌, Option, none, some, ◌==◌, leb, nat_eq,
  if◌then◌else◌,
}
use ray_mcp.Prelude.Int.{ℤ, pos, negsuc}
use ray_mcp.Prelude.Text.{quote, show_int}
use ray_mcp.Json.{Fields}
use ray_mcp.Types.{RayJobStatus, RayJobLogs}
use ray_mcp.Job.{JobGetResult, JobLogsResult}
use ray_mcp.Job.Wait.{JobWaitResult}

-- `int64(d.Seconds())`
abbrev pub whole_seconds : ℤ → ℤ
whole_seconds (pos n) = pos (n / 1000000000)
whole_seconds (negsuc n) =
    let s = suc n / 1000000000 in if nat_eq s 0 then pos 0 else negsuc (s - 1)

abbrev pub epoch_seconds : ℕ
epoch_seconds = 62135596800

-- `t.Unix()`
abbrev pub unix : ℕ → ℤ
unix t =
    let s = t / 1000000000 in
    if leb epoch_seconds s then pos (s - epoch_seconds) else negsuc (epoch_seconds - s - 1)

abbrev pub unix_or_zero : ℕ → ℤ
unix_or_zero t = if not (nat_eq t 0) then unix t else pos 0

pub record JobGetOutput : Type 0 where
  pub name : String
  pub namespace : String
  pub scheduled : Bool
  pub degraded : Bool
  pub degrade_reason : String
  pub job_id : String
  pub ray_cluster_name : String
  pub deployment_status : String
  pub job_status : String
  pub message : String
  pub health : String
  pub age_seconds : ℤ
  pub dashboard_url : String
  pub started_at_unix : ℤ
  pub ended_at_unix : ℤ
  pub raw : Option Fields

abbrev pub raw_if : Bool → Option Fields → Option Fields
raw_if verbose raw = if verbose then raw else none

unfoldable pub crd_output : JobGetResult → JobGetOutput
crd_output res = record {
  name = res.detail.name;
  namespace = res.detail.namespace;
  scheduled = res.scheduled;
  degraded = res.degraded;
  degrade_reason = res.degrade_reason;
  job_id = res.detail.job_id;
  ray_cluster_name = res.detail.ray_cluster_name;
  deployment_status = res.detail.job_deployment_status;
  job_status = res.detail.job_status;
  message = "";
  health = res.detail.health;
  age_seconds = whole_seconds res.detail.age;
  dashboard_url = res.detail.dashboard_url;
  started_at_unix = pos 0;
  ended_at_unix = pos 0;
  raw = raw_if res.verbose res.detail.raw;
}

unfoldable pub with_live : Bool → Option RayJobStatus → JobGetOutput → JobGetOutput
with_live scheduled none out = out
with_live scheduled (some live) out =
    if scheduled
    then record out {
      job_status = live.status;
      message = live.message;
      started_at_unix = unix_or_zero live.started_at;
      ended_at_unix = unix_or_zero live.ended_at;
    }
    else out

unfoldable pub to_job_get_output : JobGetResult → JobGetOutput
unfolding crd_output with_live
to_job_get_output res = with_live res.scheduled res.live (crd_output res)

pub record JobLogsOutput : Type 0 where
  pub name : String
  pub namespace : String
  pub scheduled : Bool
  pub degraded : Bool
  pub degrade_reason : String
  pub logs : String
  pub truncated : Bool
  pub bytes_omitted : ℤ

abbrev pub with_logs : Option RayJobLogs → JobLogsOutput → JobLogsOutput
with_logs none out = out
with_logs (some l) out = record out {
  logs = l.text;
  truncated = l.truncated;
  bytes_omitted = l.bytes_omitted;
}

unfoldable pub to_job_logs_output : JobLogsResult → JobLogsOutput
to_job_logs_output res = with_logs res.logs (record {
  name = res.detail.name;
  namespace = res.detail.namespace;
  scheduled = res.scheduled;
  degraded = res.degraded;
  degrade_reason = res.degrade_reason;
  logs = "";
  truncated = false;
  bytes_omitted = pos 0;
})

pub record JobWaitOutput : Type 0 where
  pub name : String
  pub namespace : String
  pub until : String
  pub reached : Bool
  pub scheduled : Bool
  pub degraded : Bool
  pub degrade_reason : String
  pub job_id : String
  pub ray_cluster_name : String
  pub deployment_status : String
  pub job_status : String
  pub message : String
  pub health : String

abbrev pub waited_live : Option RayJobStatus → JobWaitOutput → JobWaitOutput
waited_live none out = out
waited_live (some live) out = record out { job_status = live.status; message = live.message }

unfoldable pub to_job_wait_output : JobWaitResult → JobWaitOutput
to_job_wait_output res = waited_live res.live (record {
  name = res.detail.name;
  namespace = res.detail.namespace;
  until = res.until;
  reached = res.reached;
  scheduled = res.scheduled;
  degraded = res.degraded;
  degrade_reason = res.degrade_reason;
  job_id = res.detail.job_id;
  ray_cluster_name = res.detail.ray_cluster_name;
  deployment_status = res.detail.job_deployment_status;
  job_status = res.detail.job_status;
  message = "";
  health = res.detail.health;
})

abbrev pub deployment_or_unknown : String → String
deployment_or_unknown s = if s == "" then "Unknown" else s

abbrev pub job_in : String → String → String
job_in name namespace = "RayJob " ++ quote name ++ " in namespace " ++ quote namespace

unfoldable pub job_get_summary : JobGetOutput → String
unfolding quote
job_get_summary out =
    if not out.scheduled
    then job_in out.name out.namespace
      ++ ": not yet scheduled ("
      ++ deployment_or_unknown out.deployment_status
      ++ ")"
    else if out.degraded
    then job_in out.name out.namespace
      ++ ": "
      ++ deployment_or_unknown out.deployment_status
      ++ "; live Ray detail unavailable: "
      ++ out.degrade_reason
    else job_in out.name out.namespace ++ ": " ++ out.health

unfoldable pub job_logs_summary : JobLogsOutput → String
unfolding quote show_int
job_logs_summary out =
    if not out.scheduled
    then job_in out.name out.namespace ++ " has no logs yet (not scheduled)"
    else if out.degraded
    then job_in out.name out.namespace
      ++ ": logs unavailable — live Ray detail unavailable: "
      ++ out.degrade_reason
    else if out.truncated
    then "RayJob "
      ++ quote out.name
      ++ " logs (tail; ~"
      ++ show_int out.bytes_omitted
      ++ " earlier bytes omitted)"
    else "RayJob " ++ quote out.name ++ " logs (full buffer)"

abbrev pub waited : JobWaitOutput → String
waited out =
    job_in out.name out.namespace
    ++ ": "
    ++ (if not out.reached then "not yet reached" else "reached")
    ++ " (until="
    ++ out.until
    ++ ")"

unfoldable pub job_wait_summary : JobWaitOutput → String
unfolding quote
job_wait_summary out =
    if out.degraded
    then waited out
      ++ "; "
      ++ deployment_or_unknown out.deployment_status
      ++ "; live Ray detail unavailable: "
      ++ out.degrade_reason
    else if not out.scheduled && not out.reached
    then waited out
      ++ " — not yet scheduled ("
      ++ deployment_or_unknown out.deployment_status
      ++ ")"
    else waited out
      ++ "; "
      ++ (if out.health == "" then deployment_or_unknown out.deployment_status else out.health)
