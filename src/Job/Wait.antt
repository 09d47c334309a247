-- ===== src/Job/Wait.antt =====
-- The bounded wait of internal/domain/job.go: `pollOnce` and the loop of `Wait`. Times are in
-- nanoseconds.
pub mod Poll
pub mod Bound
use ray_mcp.Prelude.{
  ℕ, zero, suc, ◌+◌, ◌*◌, String, Bool, true, false, not, ◌||◌, Option, none, some, ◌==◌, ltb,
  if◌then◌else◌,
}
use ray_mcp.Prelude.Int.{ℤ, pos, negsuc}
use ray_mcp.Errors.{Error, Result, ok, err}
use ray_mcp.Types.{JobDetail, RayJobStatus}
use ray_mcp.Ports.{Trace, World, M, sleep, ◌>>=◌, get_job, resolve_namespace}
use ray_mcp.Job.{JobService, is_scheduled, dial_status, dialed}

abbrev pub until_running : String
until_running = "running"

abbrev pub until_terminal : String
until_terminal = "terminal"

abbrev pub max_wait_seconds : ℕ
max_wait_seconds = 30

abbrev pub second : ℕ
second = 1000000000

abbrev pub poll_interval : ℕ
poll_interval = 2 * second

pub record JobWaitRequest : Type 0 where
  pub namespace : String
  pub name : String
  pub until : String
  pub wait_seconds : ℤ

pub record JobWaitResult : Type 0 where
  pub detail : JobDetail
  pub until : String
  pub reached : Bool
  pub scheduled : Bool
  pub live : Option RayJobStatus
  pub degraded : Bool
  pub degrade_reason : String

unfoldable pub clamp_wait : ℤ → ℕ
clamp_wait (negsuc n) = 0
clamp_wait (pos n) = (if ltb max_wait_seconds n then max_wait_seconds else n) * second

unfoldable pub live_terminal : String → Bool
live_terminal status = status == "SUCCEEDED" || status == "FAILED" || status == "STOPPED"

unfoldable pub reached_live : String → String → Bool
reached_live until status =
    if until == until_terminal
    then live_terminal status
    else not (status == "" || status == "PENDING")

unfoldable pub crd_terminal : String → Bool
crd_terminal status = status == "Complete" || status == "Failed" || status == "ValidationFailed"

-- `Until` is left empty here: the loop writes it.
unfoldable pub poll_once : World → String → String → String → M JobWaitResult
unfolding is_scheduled dial_status dialed reached_live crd_terminal
poll_once w ns name until = get_job w ns name >>= λ detail t.
    if crd_terminal detail.summary.job_deployment_status
    then (
      ok (record {
        detail = detail;
        until = "";
        reached = true;
        scheduled = is_scheduled detail;
        live = none;
        degraded = false;
        degrade_reason = "";
      }),
      t,
    )
    else if not (is_scheduled detail)
    then (
      ok (record {
        detail = detail;
        until = "";
        reached = false;
        scheduled = false;
        live = none;
        degraded = false;
        degrade_reason = "";
      }),
      t,
    )
    else (let (r, t') = dial_status w ns detail t in
        (
          dialed
              (λ live. record {
                detail = detail;
                until = "";
                reached = reached_live until live.status;
                scheduled = true;
                live = some live;
                degraded = false;
                degrade_reason = "";
              })
              (λ reason. record {
                detail = detail;
                until = "";
                reached = false;
                scheduled = true;
                live = none;
                degraded = true;
                degrade_reason = reason;
              })
              r,
          t',
        ))

abbrev pub Run : Type 0
Run = Option (Result JobWaitResult × Trace)

abbrev pub after_sleep : Option Error → Trace → (Trace → Run) → Run
after_sleep (some e) t k = some (err e, t)
after_sleep none t k = k t

-- The rest of a round after its poll; `k` is the next round.
abbrev pub after_poll : World → String → ℕ → Result JobWaitResult → Trace → (Trace → Run) → Run
after_poll w until deadline (err e) t k = some (err e, t)
after_poll w until deadline (ok res) t k =
    if res.reached || not (ltb (w.now t) deadline)
    then some (ok (record res { until = until }), t)
    else after_sleep (sleep w poll_interval t).0 (sleep w poll_interval t).1 k

-- The `for` loop on fuel; `none` is out of fuel.
unfoldable pub wait_loop : World → String → String → String → ℕ → ℕ → Trace → Run
unfolding poll_once
wait_loop w ns name until deadline zero t = none
wait_loop w ns name until deadline (suc fuel) t =
    after_poll w until deadline (poll_once w ns name until t).0 (poll_once w ns name until t).1
      (wait_loop w ns name until deadline fuel)

-- A poll at the start and one after each of the 15 pauses of 2 s in 30 s.
abbrev pub enough_polls : ℕ
enough_polls = 16

unfoldable pub wait : World → JobService → JobWaitRequest → Trace → Run
unfolding wait_loop clamp_wait
wait w s req t =
    let ns = resolve_namespace s.default_namespace req.namespace in
    let until = if req.until == "" then until_running else req.until in
    let deadline = w.now t + clamp_wait req.wait_seconds in
    wait_loop w ns req.name until deadline enough_polls t
