-- ===== src/Cluster/Deletion.antt =====
-- `Delete` of internal/domain/cluster_write.go: what it needs and which calls it makes.
use ray_mcp.Prelude.{
  ℕ, ◌+◌, ◌≡◌, ◌≢◌, ◌⊎◌, String, true, false, none, [], ◌∷◌, arith, eq_iff, inl, inr,
}
use ray_mcp.Json.{or_end}
use ray_mcp.Errors.{Error, ray_cluster, op_delete, confirm_required, ok, err, Result-cases}
use ray_mcp.Guards.{is_protected, fingerprint, require_confirm}
use ray_mcp.Guards.Handshake.{require_confirm-none_iff, require_confirm-handshake}
use ray_mcp.Types.{ClusterDetail}
use ray_mcp.Ports.{Call, got, deleted, Trace, World, result_of, resolve_namespace}
use ray_mcp.Apply.{record_destructive}
use ray_mcp.Apply.Laws.{audits}
use ray_mcp.Cluster.{
  ClusterWriteService, ClusterDeleteParams, protected_error, delete_and_record, delete,
}

-- The calls of the Deleter in a trace, dry runs included.
abbrev pub deletion_of : Call → ℕ
deletion_of (deleted k ns name dry_run) = 1
deletion_of _ = 0

abbrev pub deletions : Trace → ℕ
deletions [] = 0
deletions (c ∷ t) = deletion_of c + deletions t

-- The calls of the Deleter themselves, with what each is to delete.
abbrev pub keep_deleted : Call → Trace → Trace
keep_deleted (deleted k ns name dry_run) t = deleted k ns name dry_run ∷ t
keep_deleted _ t = t

abbrev pub deleter_calls : Trace → Trace
deleter_calls [] = []
deleter_calls (c ∷ t) = keep_deleted c (deleter_calls t)

-- The namespace that a call works in.
abbrev pub scope : ClusterWriteService → ClusterDeleteParams → String
scope s p = resolve_namespace s.default_namespace p.namespace

module _ (w : World) (s : ClusterWriteService) (p : ClusterDeleteParams) (t : Trace) where
  delete_read :
      (detail : ClusterDetail)
      → w.on_get_cluster t (scope s p) p.name ≡ ok detail
      → (deleter_calls (delete w s p t).1 ≡ deleter_calls t)
        ⊎ ((deleter_calls (delete w s p t).1
              ≡ deleted ray_cluster (scope s p) p.name p.dry_run ∷ deleter_calls t)
            × (is_protected (or_end detail.raw) ≡ false)
            × (require_confirm w.digest (or_end detail.raw) op_delete p.confirm ≡ none))
  unfolding delete delete_and_record record_destructive
  delete_read detail h = ground arith

  delete_unread :
      (e : Error)
      → w.on_get_cluster t (scope s p) p.name ≡ err e
      → deleter_calls (delete w s p t).1 ≡ deleter_calls t
  unfolding delete delete_and_record record_destructive
  delete_unread e h = ground arith

  -- In every world a cluster delete calls the Deleter at most once, and then for the RayCluster of
  -- the namespace and name that it has read, with the dry-run choice of the call, and only if that
  -- cluster was read, is not protected, and its delete fingerprint, not empty, was given as the
  -- confirmation.
  pub delete_guarded :
      (deleter_calls (delete w s p t).1 ≡ deleter_calls t)
      ⊎ ((deleter_calls (delete w s p t).1
            ≡ deleted ray_cluster (scope s p) p.name p.dry_run ∷ deleter_calls t)
          × ((detail : ClusterDetail) × (w.on_get_cluster t (scope s p) p.name ≡ ok detail)
              × (is_protected (or_end detail.raw) ≡ false)
              × (p.confirm ≢ "")
              × (p.confirm ≡ fingerprint w.digest (or_end detail.raw) op_delete)))
  delete_guarded = elim (Result-cases (w.on_get_cluster t (scope s p) p.name)) [
    | inr (e, h) ↦ inl (delete_unread e h)
    | inl (detail, h) ↦ elim (delete_read detail h) [
      | inl same ↦ inl same
      | inr (once, free, confirmed) ↦
          let (given, equal) =
            (require_confirm-none_iff w.digest (or_end detail.raw) op_delete p.confirm).0
              confirmed in
          inr (once, (detail, h, free, given, equal))
    ]
  ]

  -- On every path a cluster delete adds as many audit records as calls of the Deleter.
  pub audits-delete :
      audits (delete w s p t).1 + deletions t ≡ audits t + deletions (delete w s p t).1
  unfolding delete delete_and_record record_destructive
  audits-delete = ground arith

  -- A protected cluster is refused with the same error for every confirmation: no fingerprint is given
  -- away, and the Deleter is not called.
  pub delete_protected :
      (detail : ClusterDetail)
      → p.name ≢ ""
      → w.on_get_cluster t (scope s p) p.name ≡ ok detail
      → is_protected (or_end detail.raw) ≡ true
      → ((delete w s p t).0 ≡ err (protected_error "RayCluster" p.name "ray_cluster_update"))
        × (deletions (delete w s p t).1 ≡ deletions t)
  unfolding delete delete_and_record record_destructive
  delete_protected detail named h protected = ground (arith, eq_iff p.name "")

  -- For a named, unprotected cluster that can be read, and a fingerprint that is not empty: without
  -- a confirmation the answer carries the fingerprint and the read is the only call, and with that
  -- fingerprint as the confirmation the Deleter's answer is the result.
  pub delete_handshake :
      (detail : ClusterDetail)
      → p.name ≢ ""
      → w.on_get_cluster t (scope s p) p.name ≡ ok detail
      → is_protected (or_end detail.raw) ≡ false
      → fingerprint w.digest (or_end detail.raw) op_delete ≢ ""
      → (delete w s (record p { confirm = "" }) t ≡ (
        err (confirm_required op_delete (fingerprint w.digest (or_end detail.raw) op_delete)),
        got ray_cluster (scope s p) p.name ∷ t,
      ))
        × ((delete w s
              (record p { confirm = fingerprint w.digest (or_end detail.raw) op_delete })
              t).0
            ≡ result_of (
                w.on_delete
                  (got ray_cluster (scope s p) p.name ∷ t)
                  ray_cluster
                  (scope s p)
                  p.name
                  p.dry_run))
  unfolding delete delete_and_record record_destructive
  delete_handshake detail named h free printed =
      let (preview, commit) =
        require_confirm-handshake w.digest (or_end detail.raw) op_delete printed in
      (ground (arith, eq_iff p.name "", preview), ground (arith, eq_iff p.name "", commit))
