-- ===== src/Tools/Live.antt =====
-- Where the live part of a job's output comes from: `toJobGetOutput` of internal/mcp/job.go on what
-- `Get` of internal/domain/job.go answers.
use ray_mcp.Prelude.{◌≡◌, ◌⊎◌, true, false, none, some, Bool-cases, Option-cases, arith, inl, inr}
use ray_mcp.Errors.{ok}
use ray_mcp.Types.{RayJobStatus}
use ray_mcp.Ports.{Trace, World}
use ray_mcp.Job.{JobService, JobGetRequest, JobGetResult, get}
use ray_mcp.Job.Dial.{IsCoherent, get-IsCoherent}
use ray_mcp.Tools.Jobs.{JobGetOutput, crd_output, with_live, to_job_get_output}

-- What an output shows: the live status, or the cached one with no message.
abbrev pub Shows : JobGetResult → JobGetOutput → Type 0
Shows res out =
    ((live : RayJobStatus) × (res.live ≡ some live)
      × (out.scheduled ≡ true)
      × (out.degraded ≡ false)
      × (out.job_status ≡ live.status)
      × (out.message ≡ live.message))
    ⊎ ((res.live ≡ none)
        × ((out.scheduled ≡ false) ⊎ (out.degraded ≡ true))
        × (out.job_status ≡ res.detail.job_status)
        × (out.message ≡ ""))

IsCoherent-Shows :
    (req : JobGetRequest) (res : JobGetResult)
    → IsCoherent req res
    → Shows res (to_job_get_output res)
unfolding to_job_get_output crd_output with_live
IsCoherent-Shows req res c = elim (Option-cases res.live) [
  | inl n ↦ elim (Bool-cases res.scheduled) [
    | inl s ↦ inr (
      n,
      inr (ground (arith, n, s, c.live_or_degraded s n)),
      ground (arith, n),
      ground (arith, n),
    )
    | inr s ↦ inr (n, inl (ground (arith, n, s)), ground (arith, n), ground (arith, n))
  ]
  | inr (live, h) ↦ elim (Bool-cases res.scheduled) [
    | inr s ↦ absurd (ground (arith, h, c.undialed s))
    | inl s ↦ elim (Bool-cases res.degraded) [
      | inl d ↦ absurd (ground (arith, h, c.degraded_has_none d))
      | inr d ↦ inl (
        live,
        h,
        ground (arith, h, s),
        ground (arith, h, s, d),
        ground (arith, h, s),
        ground (arith, h, s),
      )
    ]
  ]
]

raw_gated :
    (req : JobGetRequest) (res : JobGetResult)
    → IsCoherent req res
    → (req.verbose ≡ true) ⊎ ((to_job_get_output res).raw ≡ none)
unfolding to_job_get_output crd_output with_live
raw_gated req res c = elim (Bool-cases req.verbose) [
  | inl v ↦ inl v
  | inr v ↦ inr (ground (arith, c.gated v, Option-cases res.live))
]

-- The output of ray_job_get for each answer of the job's read shows the live status and message, and
-- then the job is scheduled and not degraded, or the cached status without a message, and then it is
-- not scheduled or is degraded; the whole object is shown only on request.
pub get_output-Shows :
    (w : World) (s : JobService) (req : JobGetRequest) (t : Trace) (res : JobGetResult)
    → (get w s req t).0 ≡ ok res
    → Shows res (to_job_get_output res)
      × ((req.verbose ≡ true) ⊎ ((to_job_get_output res).raw ≡ none))
get_output-Shows w s req t res h =
    let c = get-IsCoherent w s req t res h in (IsCoherent-Shows req res c, raw_gated req res c)
