-- ===== src/Service/Deletion.antt =====
-- `Delete` of internal/domain/service_write.go: what it needs and which calls it makes.
use ray_mcp.Prelude.{◌+◌, ◌≡◌, ◌≢◌, ◌⊎◌, String, true, false, none, ◌∷◌, arith, eq_iff, inl, inr}
use ray_mcp.Json.{Fields, or_end}
use ray_mcp.Errors.{Error, ray_service, op_delete, serving_refused, ok, err, Result-cases}
use ray_mcp.Guards.{is_protected, fingerprint, require_confirm}
use ray_mcp.Guards.Handshake.{require_confirm-none_iff}
use ray_mcp.Types.{ServiceDetail}
use ray_mcp.Ports.{got, deleted, Trace, World, resolve_namespace}
use ray_mcp.Apply.{record_destructive}
use ray_mcp.Apply.Laws.{audits}
use ray_mcp.Cluster.{delete_and_record}
use ray_mcp.Cluster.Deletion.{deletions, deleter_calls}
use ray_mcp.Service.Serving.{service_serving_reason}
use ray_mcp.Service.{ServiceWriteService, ServiceDeleteParams, serving_refusal, delete}

module _ (w : World) (s : ServiceWriteService) (p : ServiceDeleteParams) (t : Trace) where
  abbrev pub scope : String
  scope = resolve_namespace s.default_namespace p.namespace

  delete_read :
      (detail : ServiceDetail)
      → w.on_get_service t scope p.name ≡ ok detail
      → (deleter_calls (delete w s p t).1 ≡ deleter_calls t)
        ⊎ ((deleter_calls (delete w s p t).1
              ≡ deleted ray_service scope p.name p.dry_run ∷ deleter_calls t)
            × (is_protected (or_end detail.raw) ≡ false)
            × (serving_refusal p (or_end detail.raw) ≡ none)
            × (require_confirm w.digest (or_end detail.raw) op_delete p.confirm ≡ none))
  unfolding delete delete_and_record record_destructive
  delete_read detail h = ground arith

  delete_unread :
      (e : Error)
      → w.on_get_service t scope p.name ≡ err e
      → deleter_calls (delete w s p t).1 ≡ deleter_calls t
  unfolding delete delete_and_record record_destructive
  delete_unread e h = ground arith

  unrefused :
      (live : Fields)
      → serving_refusal p live ≡ none
      → (p.force ≡ true) ⊎ (service_serving_reason live ≡ "")
  unrefused live h = ground (arith, h, eq_iff (service_serving_reason live) "")

  -- In every world a service delete calls the Deleter at most once, and then for the RayService of
  -- the namespace and name that it has read, with the dry-run choice of the call, and only if that
  -- service was read, is not protected, shows no sign of serving or is deleted by force, and its
  -- delete fingerprint, not empty, was given as the confirmation: force does not replace the
  -- confirmation.
  pub delete_service_guarded :
      (deleter_calls (delete w s p t).1 ≡ deleter_calls t)
      ⊎ ((deleter_calls (delete w s p t).1
            ≡ deleted ray_service scope p.name p.dry_run ∷ deleter_calls t)
          × ((detail : ServiceDetail) × (w.on_get_service t scope p.name ≡ ok detail)
              × (is_protected (or_end detail.raw) ≡ false)
              × ((p.force ≡ true) ⊎ (service_serving_reason (or_end detail.raw) ≡ ""))
              × (p.confirm ≢ "")
              × (p.confirm ≡ fingerprint w.digest (or_end detail.raw) op_delete)))
  delete_service_guarded = elim (Result-cases (w.on_get_service t scope p.name)) [
    | inr (e, h) ↦ inl (delete_unread e h)
    | inl (detail, h) ↦ elim (delete_read detail h) [
      | inl same ↦ inl same
      | inr (once, free, idle, confirmed) ↦
          let (given, equal) =
            (require_confirm-none_iff w.digest (or_end detail.raw) op_delete p.confirm).0
              confirmed in
          inr (once, (detail, h, free, unrefused (or_end detail.raw) idle, given, equal))
    ]
  ]

  -- Each call of the Deleter for a service has exactly one audit record, and nothing else has one.
  pub audits-delete_service :
      audits (delete w s p t).1 + deletions t ≡ audits t + deletions (delete w s p t).1
  unfolding delete delete_and_record record_destructive
  audits-delete_service = ground arith

  -- A service that appears to serve, deleted without force, is refused with the reason for every
  -- confirmation: no fingerprint is given away, and the Deleter is not called.
  pub delete_serving :
      (detail : ServiceDetail)
      → p.name ≢ ""
      → p.force ≡ false
      → w.on_get_service t scope p.name ≡ ok detail
      → is_protected (or_end detail.raw) ≡ false
      → service_serving_reason (or_end detail.raw) ≢ ""
      → delete w s p t ≡ (
        err (serving_refused p.name (service_serving_reason (or_end detail.raw))),
        got ray_service scope p.name ∷ t,
      )
  unfolding delete delete_and_record
  delete_serving detail named unforced h free serving =
      ground (arith, eq_iff p.name "", eq_iff (service_serving_reason (or_end detail.raw)) "")
