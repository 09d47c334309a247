-- ===== src/Cluster/Retry.antt =====
-- `applyWithConflictRetry` of internal/domain/cluster_update.go.
pub mod Laws
use ray_mcp.Prelude.{Bool, true, false, not, ◌&&◌, if◌then◌else◌}
use ray_mcp.Errors.{Error, conflict, Result, ok, err}
use ray_mcp.Ports.{Trace, World, M, continue_with}
use ray_mcp.Apply.{ApplyRequest, ApplyResult, apply}

-- errors.As(err, &conflict)
abbrev pub is_conflict : Error → Bool
is_conflict (conflict k ns name detail) = true
is_conflict _ = false

-- The second attempt, from a fresh read, with force.
unfoldable pub forced_retry : World → M ApplyRequest → M ApplyResult
forced_retry w build t = continue_with (build t) (λ retry. apply w (record retry { force = true }))

abbrev pub after_apply : World → M ApplyRequest → ApplyRequest → Result ApplyResult → M ApplyResult
after_apply w build req (ok res) t = (ok res, t)
after_apply w build req (err e) t =
    if not req.dry_run && is_conflict e then forced_retry w build t else (err e, t)

unfoldable pub apply_with_conflict_retry : World → M ApplyRequest → M ApplyResult
apply_with_conflict_retry w build t =
    continue_with (build t) (λ req t1. let (r, t2) = apply w req t1 in after_apply w build req r t2)
