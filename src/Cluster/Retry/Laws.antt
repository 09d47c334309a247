-- ===== src/Cluster/Retry/Laws.antt =====
-- Laws of `applyWithConflictRetry` (internal/domain/cluster_update.go).
use ray_mcp.Prelude.{
  ℕ, suc, ◌+◌, ◌≤◌, ◌≡◌, ◌⊎◌, true, false, [], ◌∷◌, arith, if◌then◌else◌, inl, inr,
}
use ray_mcp.Errors.{Error, ok, err, Result-cases}
use ray_mcp.Ports.{Call, applied, Trace, World, M}
use ray_mcp.Apply.{ApplyRequest, ApplyResult, emit, commit, apply}
use ray_mcp.Apply.Laws.{audits, writes, audits-apply, writes-apply}
use ray_mcp.Cluster.Retry.{is_conflict, forced_retry, apply_with_conflict_retry}

-- The applies of a trace that take ownership by force.
abbrev pub force_of : Call → ℕ
force_of (applied k ns name spec opts) = if opts.force then 1 else 0
force_of _ = 0

abbrev pub forces : Trace → ℕ
forces [] = 0
forces (c ∷ t) = force_of c + forces t

-- A build that only reads: it adds no audit record, no write and no forced apply, and asks for none.
pub record IsRead (build : M ApplyRequest) : Type 0 where
  pub no_audits : (t : Trace) → audits (build t).1 ≡ audits t
  pub no_writes : (t : Trace) → writes (build t).1 ≡ writes t
  pub no_forces : (t : Trace) → forces (build t).1 ≡ forces t
  pub unforced : (t : Trace) (req : ApplyRequest) → (build t).0 ≡ ok req → req.force ≡ false

forces-apply :
    (w : World) (req : ApplyRequest) (t : Trace)
    → req.force ≡ false
    → forces (apply w req t).1 ≡ forces t
unfolding apply commit emit
forces-apply w req t h = ground arith

-- Why a retry was made: the first attempt was no dry run and failed with a conflict.
pub record Conflicted (w : World) (build : M ApplyRequest) (t : Trace) : Type 0 where
  pub request : ApplyRequest
  pub error : Error
  pub built : (build t).0 ≡ ok request
  pub persisting : request.dry_run ≡ false
  pub refused : (apply w request (build t).1).0 ≡ err error
  pub is_conflict : is_conflict error ≡ true

module _ (w : World) (build : M ApplyRequest) (reads : IsRead build) (t : Trace) where
  forced_after :
      (req : ApplyRequest) (e : Error)
      → (build t).0 ≡ ok req
      → (apply w req (build t).1).0 ≡ err e
      → (forces (apply_with_conflict_retry w build t).1 ≡ forces t)
        ⊎ ((req.dry_run ≡ false) × (is_conflict e ≡ true))
  unfolding apply_with_conflict_retry
  forced_after req e b a =
      ground (arith, reads.no_forces t, reads.unforced t req, forces-apply w req (build t).1)

  unforced_ok :
      (req : ApplyRequest) (res : ApplyResult)
      → (build t).0 ≡ ok req
      → (apply w req (build t).1).0 ≡ ok res
      → forces (apply_with_conflict_retry w build t).1 ≡ forces t
  unfolding apply_with_conflict_retry
  unforced_ok req res b a =
      ground (arith, reads.no_forces t, reads.unforced t req, forces-apply w req (build t).1)

  unforced_unbuilt :
      (e : Error) → (build t).0 ≡ err e → forces (apply_with_conflict_retry w build t).1 ≡ forces t
  unfolding apply_with_conflict_retry
  unforced_unbuilt e b = ground (arith, reads.no_forces t)

  -- For a build that only reads and asks for no force, a forced apply is made only in answer to a
  -- conflict: the first attempt was no dry run and failed with a conflict error.
  pub forced_only_after_conflict :
      (forces (apply_with_conflict_retry w build t).1 ≡ forces t) ⊎ Conflicted w build t
  forced_only_after_conflict = elim (Result-cases (build t).0) [
    | inr (e, b) ↦ inl (unforced_unbuilt e b)
    | inl (req, b) ↦ elim (Result-cases (apply w req (build t).1).0) [
      | inl (res, a) ↦ inl (unforced_ok req res b a)
      | inr (e, a) ↦ elim (forced_after req e b a) [
        | inl same ↦ inl same
        | inr (persisting, conflict) ↦ inr (record {
          request = req;
          error = e;
          built = b;
          persisting = persisting;
          refused = a;
          is_conflict = conflict;
        })
      ]
    ]
  ]

module _ (w : World) (build : M ApplyRequest) (reads : IsRead build) where
  forced_counts :
      (u : Trace)
      → (audits (forced_retry w build u).1 ≤ suc (audits u))
        × (writes (forced_retry w build u).1 ≤ suc (writes u))
  unfolding forced_retry
  forced_counts u = elim (Result-cases (build u).0) [
    | inr (e, b) ↦ ground (arith, reads.no_audits u, reads.no_writes u)
    | inl (req, b) ↦
        let forced : ApplyRequest = record req { force = true } in
        ground (
          arith,
          reads.no_audits u,
          reads.no_writes u,
          audits-apply w forced (build u).1,
          writes-apply w forced (build u).1,
        )
  ]

  -- For a build that only reads, an attempt and its retry add at most two audit records and change
  -- the cluster at most twice, whatever the server answers.
  pub retry_bounded :
      (t : Trace)
      → (audits (apply_with_conflict_retry w build t).1 ≤ audits t + 2)
        × (writes (apply_with_conflict_retry w build t).1 ≤ writes t + 2)
  unfolding apply_with_conflict_retry
  retry_bounded t = elim (Result-cases (build t).0) [
    | inr (e, b) ↦ ground (arith, reads.no_audits t, reads.no_writes t)
    | inl (req, b) ↦ ground (
      arith,
      reads.no_audits t,
      reads.no_writes t,
      audits-apply w req (build t).1,
      writes-apply w req (build t).1,
      forced_counts (apply w req (build t).1).1,
    )
  ]

  -- A request for a dry run changes nothing, and is tried once.
  pub retry_dry_run :
      (t : Trace)
      → ((req : ApplyRequest) → (build t).0 ≡ ok req → req.dry_run ≡ true)
      → (writes (apply_with_conflict_retry w build t).1 ≡ writes t)
        × (audits (apply_with_conflict_retry w build t).1 ≤ suc (audits t))
  unfolding apply_with_conflict_retry
  retry_dry_run t dry = elim (Result-cases (build t).0) [
    | inr (e, b) ↦ ground (arith, reads.no_audits t, reads.no_writes t)
    | inl (req, b) ↦
        let d : req.dry_run ≡ true = dry req b in
        ground (
          arith,
          d,
          reads.no_audits t,
          reads.no_writes t,
          audits-apply w req (build t).1,
          writes-apply w req (build t).1,
        )
  ]
