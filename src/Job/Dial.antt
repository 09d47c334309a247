-- ===== src/Job/Dial.antt =====
-- The two phases of `Get` (internal/domain/job.go).
use ray_mcp.Prelude.{
  ◌≡◌, ◌⊎◌, sym, ap, ◌∙◌, String, true, false, none, ◌∷◌, arith, Bool-cases, Option-cases, inl, inr,
}
use ray_mcp.Errors.{Error, ray_job, ok, err, Result-cases}
use ray_mcp.Types.{JobDetail}
use ray_mcp.Ports.{got, Trace, World, resolve_namespace}
use ray_mcp.Job.{
  JobService, JobGetRequest, JobGetResult, is_scheduled, degrade_reason, gate_raw, dial_status,
  or_degraded, get,
}

-- What the three flags of an answer say of each other, and the gate on the whole object.
pub record IsCoherent (req : JobGetRequest) (res : JobGetResult) : Type 0 where
  pub undialed : res.scheduled ≡ false → (res.live ≡ none) × (res.degraded ≡ false)
  pub degraded_has_none : res.degraded ≡ true → res.live ≡ none
  pub live_or_degraded : res.scheduled ≡ true → res.live ≡ none → res.degraded ≡ true
  pub gated : req.verbose ≡ false → res.detail.raw ≡ none

module _ (w : World) (s : JobService) (req : JobGetRequest) (t : Trace) where
  abbrev pub get_scope : String
  get_scope = resolve_namespace s.default_namespace req.namespace

  -- The trace after the first phase.
  abbrev pub after_read : Trace
  after_read = got ray_job get_scope req.name ∷ t

  dialed-IsCoherent :
      (detail : JobDetail) (res : JobGetResult)
      → w.on_get_job t get_scope req.name ≡ ok detail
      → is_scheduled detail ≡ true
      → (get w s req t).0 ≡ ok res
      → IsCoherent req res
  unfolding get gate_raw or_degraded
  dialed-IsCoherent detail res h ready p =
      elim (Result-cases (dial_status w get_scope detail after_read).0) [
        | inl (live, d) ↦ record {
          undialed = λ u. ground (arith, h, p, ready, d, u);
          degraded_has_none = λ u. ground (arith, h, p, ready, d, u);
          live_or_degraded = λ u v. ground (arith, h, p, ready, d, u, v);
          gated = λ u. ground (arith, h, p, ready, d, u);
        }
        | inr (e, d) ↦ elim (Option-cases (degrade_reason e)) [
          | inl n ↦ absurd (ground (arith, h, p, ready, d, n))
          | inr (reason, n) ↦ record {
            undialed = λ u. ground (arith, h, p, ready, d, n, u);
            degraded_has_none = λ u. ground (arith, h, p, ready, d, n, u);
            live_or_degraded = λ u v. ground (arith, h, p, ready, d, n, u, v);
            gated = λ u. ground (arith, h, p, ready, d, n, u);
          }
        ]
      ]

  -- Every answer of a job's read is coherent: without a dial there is neither a live status nor a
  -- degraded one, after a dial there is exactly one of the two, and the whole object is shown only
  -- on request.
  pub get-IsCoherent : (res : JobGetResult) → (get w s req t).0 ≡ ok res → IsCoherent req res
  unfolding get gate_raw
  get-IsCoherent res p = elim (Result-cases (w.on_get_job t get_scope req.name)) [
    | inr (e, h) ↦ absurd (ground (arith, h, p))
    | inl (detail, h) ↦ elim (Bool-cases (is_scheduled detail)) [
      | inl ready ↦ dialed-IsCoherent detail res h ready p
      | inr early ↦ record {
        undialed = λ u. ground (arith, h, p, early, u);
        degraded_has_none = λ u. ground (arith, h, p, early, u);
        live_or_degraded = λ u v. ground (arith, h, p, early, u, v);
        gated = λ u. ground (arith, h, p, early, u);
      }
    ]
  ]

  -- A job's read fails only with the error of the RayJob's own read, or, for a scheduled job, with
  -- an error of the dial that is no failure of availability.
  pub get_fails_only :
      (e : Error)
      → (get w s req t).0 ≡ err e
      → (w.on_get_job t get_scope req.name ≡ err e)
        ⊎ ((detail : JobDetail) × (w.on_get_job t get_scope req.name ≡ ok detail)
            × (is_scheduled detail ≡ true)
            × ((dial_status w get_scope detail after_read).0 ≡ err e)
            × (degrade_reason e ≡ none))
  unfolding get or_degraded
  get_fails_only e p = elim (Result-cases (w.on_get_job t get_scope req.name)) [
    | inr (e', h) ↦ inl (ground (arith, h, p))
    | inl (detail, h) ↦ elim (Bool-cases (is_scheduled detail)) [
      | inr early ↦ absurd (ground (arith, h, p, early))
      | inl ready ↦ elim (Result-cases (dial_status w get_scope detail after_read).0) [
        | inl (live, d) ↦ absurd (ground (arith, h, p, ready, d))
        | inr (e', d) ↦ elim (Option-cases (degrade_reason e')) [
          | inr (reason, n) ↦ absurd (ground (arith, h, p, ready, d, n))
          | inl n ↦
              let same : e' ≡ e = ground (arith, h, p, ready, d, n) in
              inr (detail, h, ready, d ∙ ap err same, sym (ap degrade_reason same) ∙ n)
        ]
      ]
    ]
  ]
