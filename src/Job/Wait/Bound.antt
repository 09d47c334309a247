-- ===== src/Job/Wait/Bound.antt =====
-- `Wait` of internal/domain/job.go: its bound, its fuel and what its result says.
use ray_mcp.Prelude.{
  ℕ, zero, suc, ◌+◌, ◌*◌, ◌≤◌, ◌≡◌, ◌⊎◌, refl, String, true, not, ◌||◌, none, some, ◌∷◌, arith, ltb,
  ◌==◌, if◌then◌else◌, Bool-cases, Option-cases, inl, inr,
}
use ray_mcp.Prelude.Int.{ℤ, pos, negsuc}
use ray_mcp.Errors.{ray_job, Result, ok, err, Result-cases}
use ray_mcp.Types.{JobDetail}
use ray_mcp.Ports.{Call, got, resolved, asked_status, slept, Trace, World, resolve_namespace}
use ray_mcp.Job.{JobService, dashboard_port, dial_status}
use ray_mcp.Job.Wait.{
  JobWaitRequest, JobWaitResult, poll_interval, second, max_wait_seconds, clamp_wait, poll_once,
  Run, after_poll, wait_loop, enough_polls, until_running, wait,
}

-- A monotonic clock, and a sleep that takes its time unless it fails: `time.Now` and `sleepCtx`.
pub record IsClock (w : World) : Type 0 where
  pub monotonic : (c : Call) (t : Trace) → w.now t ≤ w.now (c ∷ t)
  pub sleeps : (d : ℕ) (t : Trace) → w.on_sleep t d ≡ none → w.now t + d ≤ w.now (slept d ∷ t)

-- The requested wait is clamped to at most 30 s, and a request of 0 to 30 s is kept.
pub clamp_wait-bounds :
    (n : ℕ)
    → (clamp_wait (negsuc n) ≡ 0)
      × (clamp_wait (pos n) ≤ max_wait_seconds * second)
      × (n ≤ max_wait_seconds → clamp_wait (pos n) ≡ n * second)
unfolding clamp_wait
clamp_wait-bounds n = ground arith

clamp_wait_le : (z : ℤ) → clamp_wait z ≤ 15 * poll_interval
unfolding clamp_wait
clamp_wait_le z = ground arith

module _ (w : World) (clock : IsClock w) where
  read-now :
      (ns name until : String) (t : Trace) (detail : JobDetail)
      → w.on_get_job t ns name ≡ ok detail
      → w.now t ≤ w.now (poll_once w ns name until t).1
  unfolding poll_once dial_status
  read-now ns name until t detail h =
      let t1 : Trace = got ray_job ns name ∷ t in
      let t2 : Trace = resolved ns detail.ray_cluster_name dashboard_port ∷ t1 in
      elim (Result-cases (w.on_endpoint t1 ns detail.ray_cluster_name dashboard_port)) [
        | inr (e, g) ↦ ground (
          arith,
          h,
          g,
          clock.monotonic (got ray_job ns name) t,
          clock.monotonic (resolved ns detail.ray_cluster_name dashboard_port) t1,
        )
        | inl (e, g) ↦ ground (
          arith,
          h,
          g,
          clock.monotonic (got ray_job ns name) t,
          clock.monotonic (resolved ns detail.ray_cluster_name dashboard_port) t1,
          clock.monotonic (asked_status e detail.job_id) t2,
        )
      ]

  poll-now : (ns name until : String) (t : Trace) → w.now t ≤ w.now (poll_once w ns name until t).1
  unfolding poll_once
  poll-now ns name until t = elim (Result-cases (w.on_get_job t ns name)) [
    | inl (detail, h) ↦ read-now ns name until t detail h
    | inr (e, h) ↦ ground (arith, h, clock.monotonic (got ray_job ns name) t)
  ]

  abbrev Returns : Run → Type 0
  Returns run = (r : Result JobWaitResult × Trace) × (run ≡ some r)

  -- A round returns, if the next one does when the time is not up and the pause was made.
  after_poll-Returns :
      (until : String) (deadline : ℕ) (r : Result JobWaitResult) (t : Trace) (k : Trace → Run)
      → (suc (w.now t) ≤ deadline
          → w.on_sleep t poll_interval ≡ none
          → Returns (k (slept poll_interval ∷ t)))
      → Returns (after_poll w until deadline r t k)
  after_poll-Returns until deadline (err e) t k next = ((err e, t), refl)
  after_poll-Returns until deadline (ok res) t k next =
      elim (Bool-cases (res.reached || not (ltb (w.now t) deadline))) [
        | inl stop ↦ ((ok (record res { until = until }), t), rw stop)
        | inr early ↦ elim (Option-cases (w.on_sleep t poll_interval)) [
          | inr (e, h) ↦ ((err e, slept poll_interval ∷ t), rw (early, h))
          | inl h ↦ let (r, p) = next (ground (arith, early)) h in (r, rw (early, h, p))
        ]
      ]

  -- A loop with fuel for the pauses that are left returns.
  loop-Returns :
      (ns name until : String) (deadline fuel : ℕ) (t : Trace)
      → deadline ≤ w.now t + fuel * poll_interval
      → Returns (wait_loop w ns name until deadline (suc fuel) t)
  unfolding wait_loop
  loop-Returns ns name until deadline zero t h =
      let (r, t') = poll_once w ns name until t in
      after_poll-Returns until deadline r t' (wait_loop w ns name until deadline zero)
        (λ early slept. absurd (omega (arith, h, early, poll-now ns name until t)))
  loop-Returns ns name until deadline (suc fuel) t h =
      let (r, t') = poll_once w ns name until t in
      after_poll-Returns until deadline r t' (wait_loop w ns name until deadline (suc fuel))
        (λ early paused.
          loop-Returns ns name until deadline fuel (slept poll_interval ∷ t')
            (omega (arith, h, poll-now ns name until t, clock.sleeps poll_interval t' paused)))

  -- With a monotonic clock, and pauses that last as long as asked unless they fail, the wait
  -- returns: 16 polls are enough fuel for every request, whatever the cluster and the dashboard
  -- answer.
  pub wait_returns :
      (s : JobService) (req : JobWaitRequest) (t : Trace)
      → (r : Result JobWaitResult × Trace) × (wait w s req t ≡ some r)
  unfolding wait
  wait_returns s req t =
      let ns = resolve_namespace s.default_namespace req.namespace in
      let until = if req.until == "" then until_running else req.until in
      let bound : clamp_wait req.wait_seconds ≤ 15 * poll_interval =
        clamp_wait_le req.wait_seconds in
      loop-Returns ns req.name until (w.now t + clamp_wait req.wait_seconds) 15 t
        (omega (arith, bound))

module _ (w : World) (ns name until : String) (deadline : ℕ) where
  -- What a round says it has seen, or that the time is up.
  abbrev Honest : Run → Type 0
  Honest run =
      (res : JobWaitResult) (t : Trace)
      → run ≡ some (ok res, t)
      → (res.until ≡ until) × ((res.reached ≡ true) ⊎ (deadline ≤ w.now t))

  after_poll-Honest :
      (r : Result JobWaitResult) (t : Trace) (k : Trace → Run)
      → Honest (k (slept poll_interval ∷ t))
      → Honest (after_poll w until deadline r t k)
  after_poll-Honest (err e) t k rest res t' h = absurd (ground (arith, h))
  after_poll-Honest (ok seen) t k rest res t' h = elim (Bool-cases seen.reached) [
    | inl reached ↦ ground (arith, h, reached)
    | inr pending ↦ elim (Bool-cases (ltb (w.now t) deadline)) [
      | inr late ↦ ground (arith, h, pending, late)
      | inl early ↦ elim (Option-cases (w.on_sleep t poll_interval)) [
        | inr (e, failed) ↦ absurd (ground (arith, h, pending, early, failed))
        | inl paused ↦ rest res t' (ground (arith, h, pending, early, paused))
      ]
    ]
  ]

  loop-Honest : (fuel : ℕ) (t : Trace) → Honest (wait_loop w ns name until deadline fuel t)
  unfolding wait_loop
  loop-Honest zero t res t' h = absurd (ground (arith, h))
  loop-Honest (suc fuel) t res t' h =
      let (r, t1) = poll_once w ns name until t in
      after_poll-Honest r t1 (wait_loop w ns name until deadline fuel)
        (loop-Honest fuel (slept poll_interval ∷ t1)) res t' h

-- A wait that returns a result names the condition that was asked for, "running" where none was; and
-- if the result is not reached, the requested wait, clamped, is over.
pub wait_honest :
    (w : World) (s : JobService) (req : JobWaitRequest) (t t' : Trace) (res : JobWaitResult)
    → wait w s req t ≡ some (ok res, t')
    → (res.until ≡ (if req.until == "" then until_running else req.until))
      × ((res.reached ≡ true) ⊎ (w.now t + clamp_wait req.wait_seconds ≤ w.now t'))
unfolding wait
wait_honest w s req t t' res h =
    loop-Honest w (resolve_namespace s.default_namespace req.namespace) req.name
      (if req.until == "" then until_running else req.until) (w.now t + clamp_wait req.wait_seconds)
      enough_polls t res t' h
