-- ===== src/Apply/Laws.antt =====
-- Laws of `Apply` (internal/domain/apply.go), counted over the trace of calls.
use ray_mcp.Prelude.{
  ℕ, suc, ◌+◌, ◌≡◌, ◌⊎◌, true, false, Option, none, some, [], ◌∷◌, arith, if◌then◌else◌,
}
use ray_mcp.Json.{Fields}
use ray_mcp.Errors.{Error, Result, ok, err}
use ray_mcp.Ports.{Outcome, Call, applied, deleted, recorded, Trace, World}
use ray_mcp.Apply.{ApplyRequest, ApplyResult, outcome_of, emit, commit, apply}

-- The audit records of a trace.
abbrev pub audit_of : Call → ℕ
audit_of (recorded r) = 1
audit_of _ = 0

abbrev pub audits : Trace → ℕ
audits [] = 0
audits (c ∷ t) = audit_of c + audits t

-- The calls that change the cluster: applies and deletions that are no dry runs.
abbrev pub write_of : Call → ℕ
write_of (applied k ns name spec opts) = if opts.dry_run then 0 else 1
write_of (deleted k ns name dry_run) = if dry_run then 0 else 1
write_of _ = 0

abbrev pub writes : Trace → ℕ
writes [] = 0
writes (c ∷ t) = write_of c + writes t

-- What the API server answers to the dry run of a request.
abbrev pub validated : World → ApplyRequest → Trace → Result Fields
validated w req t =
    w.on_apply t req.kind req.namespace req.name req.spec
      (record { dry_run = true; force = req.force })

-- On every path an apply adds exactly one audit record.
pub audits-apply :
    (w : World) (req : ApplyRequest) (t : Trace) → audits (apply w req t).1 ≡ suc (audits t)
unfolding apply commit emit
audits-apply w req t = ground arith

-- In every world an apply changes the cluster at most once, and only for a request that is no dry
-- run and that the server had accepted as a dry run just before.
pub writes-apply :
    (w : World) (req : ApplyRequest) (t : Trace)
    → (writes (apply w req t).1 ≡ writes t)
      ⊎ ((writes (apply w req t).1 ≡ suc (writes t))
          × (req.dry_run ≡ false)
          × ((object : Fields) × (validated w req t ≡ ok object)))
unfolding apply commit emit
writes-apply w req t = ground arith

-- An apply that succeeds says whether it was a dry run as it was asked, and has changed the cluster
-- once if it was none and not at all if it was one.
pub apply-ok :
    (w : World) (req : ApplyRequest) (t : Trace) (res : ApplyResult)
    → (apply w req t).0 ≡ ok res
    → (res.dry_run ≡ req.dry_run)
      × (writes (apply w req t).1 ≡ (if req.dry_run then writes t else suc (writes t)))
unfolding apply commit emit
apply-ok w req t res h = ground arith

-- The last audit record of a trace.
abbrev pub latest_outcome : Trace → Option Outcome
latest_outcome (recorded r ∷ t) = some r.outcome
latest_outcome _ = none

abbrev pub error_of {ℓ} : {A : Type ℓ} → Result A → Option Error
error_of (ok a) = none
error_of (err e) = some e

-- On every path the last call of an apply is its audit record, and the outcome recorded is success
-- exactly when the apply returned no error.
pub latest_outcome-apply :
    (w : World) (req : ApplyRequest) (t : Trace)
    → latest_outcome (apply w req t).1 ≡ some (outcome_of (error_of (apply w req t).0))
unfolding apply commit emit
latest_outcome-apply w req t = ground arith
