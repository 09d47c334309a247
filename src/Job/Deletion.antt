-- ===== src/Job/Deletion.antt =====
-- `Delete` of internal/domain/job_submit.go in its two modes.
use ray_mcp.Prelude.{
  ◌+◌, ◌≡◌, ◌≢◌, ◌⊎◌, String, true, false, none, ◌∷◌, arith, ◌==◌, eq_iff, if◌then◌else◌,
  Bool-cases, inl, inr,
}
use ray_mcp.Json.{Fields, or_end}
use ray_mcp.Errors.{Error, ray_job, op_delete, ok, err, Result-cases}
use ray_mcp.Guards.{is_protected, fingerprint}
use ray_mcp.Guards.Handshake.{require_confirm-none_iff}
use ray_mcp.Types.{JobDetail}
use ray_mcp.Ports.{got, deleted, Trace, World, result_of, resolve_namespace}
use ray_mcp.Apply.{record_destructive}
use ray_mcp.Apply.Laws.{audits}
use ray_mcp.Cluster.{delete_and_record}
use ray_mcp.Cluster.Deletion.{deletions, deleter_calls}
use ray_mcp.Job.Submit.{JobWriteService, JobDeleteParams, job_is_ephemeral, cascade_refusal, delete}

module _ (w : World) (s : JobWriteService) (p : JobDeleteParams) (t : Trace) where
  abbrev pub scope : String
  scope = resolve_namespace s.default_namespace p.namespace

  delete_read :
      (detail : JobDetail)
      → w.on_get_job t scope p.name ≡ ok detail
      → (deleter_calls (delete w s p t).1 ≡ deleter_calls t)
        ⊎ ((deleter_calls (delete w s p t).1
              ≡ deleted ray_job scope p.name p.dry_run ∷ deleter_calls t)
            × (is_protected (or_end detail.raw) ≡ false)
            × (cascade_refusal w p (or_end detail.raw) ≡ none))
  unfolding delete delete_and_record record_destructive cascade_refusal
  delete_read detail h = ground arith

  delete_unread :
      (e : Error)
      → w.on_get_job t scope p.name ≡ err e
      → deleter_calls (delete w s p t).1 ≡ deleter_calls t
  unfolding delete delete_and_record record_destructive
  delete_unread e h = ground arith

  -- What stands between a job and its delete: nothing where it owns no cluster, else the tier and the
  -- fingerprint.
  pub Cleared : Fields → Type 0
  Cleared live =
      (job_is_ephemeral live ≡ false)
      ⊎ ((p.allow_destructive ≡ true)
          × (p.confirm ≢ "")
          × (p.confirm ≡ fingerprint w.digest live op_delete))

  cascade-Cleared : (live : Fields) → cascade_refusal w p live ≡ none → Cleared live
  unfolding cascade_refusal Cleared
  cascade-Cleared live h = elim (Bool-cases (job_is_ephemeral live)) [
    | inr plain ↦ inl plain
    | inl owner ↦ elim (Bool-cases p.allow_destructive) [
      | inr low ↦ absurd (ground (arith, h, owner, low))
      | inl high ↦
          let (given, equal) =
            (require_confirm-none_iff w.digest live op_delete p.confirm).0
              (ground (arith, h, owner, high)) in
          inr (high, given, equal)
    ]
  ]

  -- In every world a job delete calls the Deleter at most once, and then for the RayJob of the
  -- namespace and name that it has read, with the dry-run choice of the call, and only if that job
  -- was read, is not protected, and is cleared: it owns no cluster, or the destructive tier is on
  -- and its delete fingerprint, not empty, was given as the confirmation.
  pub delete_job_guarded :
      (deleter_calls (delete w s p t).1 ≡ deleter_calls t)
      ⊎ ((deleter_calls (delete w s p t).1
            ≡ deleted ray_job scope p.name p.dry_run ∷ deleter_calls t)
          × ((detail : JobDetail) × (w.on_get_job t scope p.name ≡ ok detail)
              × (is_protected (or_end detail.raw) ≡ false)
              × Cleared (or_end detail.raw)))
  delete_job_guarded = elim (Result-cases (w.on_get_job t scope p.name)) [
    | inr (e, h) ↦ inl (delete_unread e h)
    | inl (detail, h) ↦ elim (delete_read detail h) [
      | inl same ↦ inl same
      | inr (once, free, cleared) ↦
          inr (once, (detail, h, free, cascade-Cleared (or_end detail.raw) cleared))
    ]
  ]

  -- Each call of the Deleter for a job has exactly one audit record, and nothing else has one.
  pub audits-delete_job :
      audits (delete w s p t).1 + deletions t ≡ audits t + deletions (delete w s p t).1
  unfolding delete delete_and_record record_destructive
  audits-delete_job = ground arith

  -- An unprotected job that owns no cluster is deleted whatever the tier and the confirmation are: the
  -- result is the Deleter's.
  pub delete_attached :
      (detail : JobDetail)
      → p.name ≢ ""
      → w.on_get_job t scope p.name ≡ ok detail
      → is_protected (or_end detail.raw) ≡ false
      → job_is_ephemeral (or_end detail.raw) ≡ false
      → (delete w s p t).0
        ≡ result_of (w.on_delete (got ray_job scope p.name ∷ t) ray_job scope p.name p.dry_run)
  unfolding delete delete_and_record cascade_refusal
  delete_attached detail named h free plain = ground (arith, eq_iff p.name "")

  -- Out of the destructive tier, a job that owns its cluster is never deleted: no confirmation helps.
  pub delete_untiered :
      (detail : JobDetail)
      → w.on_get_job t scope p.name ≡ ok detail
      → job_is_ephemeral (or_end detail.raw) ≡ true
      → p.allow_destructive ≡ false
      → (delete w s p t).1 ≡ (if p.name == "" then t else (got ray_job scope p.name ∷ t))
  unfolding delete delete_and_record cascade_refusal
  delete_untiered detail h owner low = ground arith
