-- ===== src/Job/Wait/Poll.antt =====
-- `pollOnce` of internal/domain/job.go: what one poll observes, and the calls of a wait.
use ray_mcp.Prelude.{
  ℕ, zero, suc, ◌+◌, ltb, ◌∙◌, ◌≡◌, ◌⊎◌, String, true, false, not, ◌||◌, some, ◌∷◌, arith, ◌==◌,
  eq_iff, if◌then◌else◌, Bool-cases, Option-cases, inl, inr,
}
use ray_mcp.Errors.{ray_job, Result, ok, err, Result-cases}
use ray_mcp.Types.{JobDetail, RayJobStatus}
use ray_mcp.Ports.{got, slept, Trace, World, resolve_namespace}
use ray_mcp.Apply.Laws.{writes, audits}
use ray_mcp.Job.{JobService, is_scheduled, dial_status, degrade_reason}
use ray_mcp.Job.Wait.{
  JobWaitRequest, JobWaitResult, Run, poll_interval, enough_polls, clamp_wait, after_poll,
  wait_loop, wait, until_running, until_terminal, live_terminal, reached_live, crd_terminal,
  poll_once,
}

-- A job that is over has also started: a dashboard status that satisfies "terminal" satisfies
-- "running".
pub terminal_has_started :
    (status : String)
    → reached_live until_terminal status ≡ true
    → reached_live until_running status ≡ true
unfolding reached_live live_terminal
terminal_has_started status h = elim (Bool-cases (status == "SUCCEEDED")) [
  | inl e ↦ rw ((eq_iff status "SUCCEEDED").0 e)
  | inr s ↦ elim (Bool-cases (status == "FAILED")) [
    | inl e ↦ rw ((eq_iff status "FAILED").0 e)
    | inr f ↦ elim (Bool-cases (status == "STOPPED")) [
      | inl e ↦ rw ((eq_iff status "STOPPED").0 e)
      | inr o ↦ let over : reached_live until_terminal status ≡ false = rw (s, f, o) in cc
    ]
  ]
]

module _ (w : World) (ns name until : String) (t : Trace) where
  -- What satisfied the condition: the RayJob itself is over, or the dashboard answered with a status
  -- that satisfies it.
  abbrev pub Evidence : JobWaitResult → Type 0
  Evidence res =
      (crd_terminal res.detail.summary.job_deployment_status ≡ true)
      ⊎ ((live : RayJobStatus) × (res.live ≡ some live)
          × (res.degraded ≡ false)
          × (reached_live until live.status ≡ true))

  dialed-Evidence :
      (detail : JobDetail) (res : JobWaitResult)
      → w.on_get_job t ns name ≡ ok detail
      → (poll_once w ns name until t).0 ≡ ok res
      → res.reached ≡ true
      → crd_terminal detail.summary.job_deployment_status ≡ false
      → is_scheduled detail ≡ true
      → Evidence res
  unfolding poll_once
  dialed-Evidence detail res h p r over ready =
      elim (Result-cases (dial_status w ns detail (got ray_job ns name ∷ t)).0) [
        | inl (live, d) ↦
            let found : (res.live ≡ some live)
                × (res.degraded ≡ false)
                × (reached_live until live.status ≡ true) =
              ground (arith, h, p, r, over, ready, d) in
            inr (live, found.0, found.1, found.2)
        | inr (e, d) ↦ elim (Option-cases (degrade_reason e)) [
          | inl n ↦ absurd (ground (arith, h, p, r, over, ready, d, n))
          | inr (reason, n) ↦ absurd (ground (arith, h, p, r, over, ready, d, n))
        ]
      ]

  -- A poll reports the condition as reached only on evidence: the RayJob that it read is over, or
  -- the dashboard answered, without degrading, with a status that satisfies the condition.
  pub poll-Evidence :
      (res : JobWaitResult)
      → (poll_once w ns name until t).0 ≡ ok res
      → res.reached ≡ true
      → Evidence res
  unfolding poll_once
  poll-Evidence res p r = elim (Result-cases (w.on_get_job t ns name)) [
    | inr (e, h) ↦ absurd (ground (arith, h, p))
    | inl (detail, h) ↦ elim (Bool-cases (crd_terminal detail.summary.job_deployment_status)) [
      | inl over ↦ inl (ground (arith, h, p, over))
      | inr going ↦ elim (Bool-cases (is_scheduled detail)) [
        | inr early ↦ absurd (ground (arith, h, p, r, going, early))
        | inl ready ↦ dialed-Evidence detail res h p r going ready
      ]
    ]
  ]

  poll-writes : writes (poll_once w ns name until t).1 ≡ writes t
  unfolding poll_once dial_status
  poll-writes = ground arith

  poll-audits : audits (poll_once w ns name until t).1 ≡ audits t
  unfolding poll_once dial_status
  poll-audits = ground arith

module _ (w : World) (ns name until : String) (deadline : ℕ) where
  -- What a run may not have done since `t`.
  abbrev Quiet : Trace → Run → Type 0
  Quiet t run =
      (r : Result JobWaitResult) (t' : Trace)
      → run ≡ some (r, t')
      → (writes t' ≡ writes t) × (audits t' ≡ audits t)

  after_poll-Quiet :
      (r : Result JobWaitResult) (t : Trace) (k : Trace → Run)
      → Quiet (slept poll_interval ∷ t) (k (slept poll_interval ∷ t))
      → Quiet t (after_poll w until deadline r t k)
  after_poll-Quiet (err e) t k rest r' t' h = ground (arith, h)
  after_poll-Quiet (ok seen) t k rest r' t' h =
      elim (Bool-cases (seen.reached || not (ltb (w.now t) deadline))) [
        | inl stop ↦ ground (arith, h, stop)
        | inr early ↦ elim (Option-cases (w.on_sleep t poll_interval)) [
          | inr (e, failed) ↦ ground (arith, h, early, failed)
          | inl paused ↦ ground (arith, rest r' t' (ground (arith, h, early, paused)))
        ]
      ]

  loop-Quiet : (fuel : ℕ) (t : Trace) → Quiet t (wait_loop w ns name until deadline fuel t)
  unfolding wait_loop
  loop-Quiet zero t r t' h = absurd (ground (arith, h))
  loop-Quiet (suc fuel) t r t' h =
      let (seen, t1) = poll_once w ns name until t in
      let (no_write, no_audit) =
        after_poll-Quiet seen t1 (wait_loop w ns name until deadline fuel)
          (loop-Quiet fuel (slept poll_interval ∷ t1)) r t' h in
      (no_write ∙ poll-writes w ns name until t, no_audit ∙ poll-audits w ns name until t)

-- A wait that returns, however it ends, has added no apply or delete that changes the cluster, and
-- no audit record.
pub wait_reads_only :
    (w : World) (s : JobService) (req : JobWaitRequest) (t t' : Trace) (r : Result JobWaitResult)
    → wait w s req t ≡ some (r, t')
    → (writes t' ≡ writes t) × (audits t' ≡ audits t)
unfolding wait
wait_reads_only w s req t t' r h =
    loop-Quiet w (resolve_namespace s.default_namespace req.namespace) req.name
      (if req.until == "" then until_running else req.until) (w.now t + clamp_wait req.wait_seconds)
      enough_polls t r t' h
