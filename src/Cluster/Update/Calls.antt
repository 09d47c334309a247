-- ===== src/Cluster/Update/Calls.antt =====
-- The calls that `Update` (internal/domain/cluster_update.go) makes.
use ray_mcp.Prelude.{
  ◌≡◌, ◌≢◌, ◌⊎◌, String, true, false, not, ◌&&◌, [], ◌∷◌, arith, eq_iff, Bool-cases, inl, inr,
}
use ray_mcp.Json.{Fields}
use ray_mcp.Errors.{ray_cluster, ok, Result-cases}
use ray_mcp.Ports.{Call, got, applied, Trace, World, resolve_namespace}
use ray_mcp.Apply.{ApplyRequest, emit, commit, apply}
use ray_mcp.Apply.Laws.{validated}
use ray_mcp.Cluster.{ClusterWriteService, has_fields}
use ray_mcp.Cluster.Retry.{is_conflict, forced_retry, apply_with_conflict_retry}
use ray_mcp.Cluster.Update.{ClusterUpdateParams, read_for_write, build, has_change, update}

abbrev pub Called : Call → Trace → Type 0
Called c [] = ⊥
Called c (d ∷ t) = (c ≡ d) ⊎ Called c t

pub apply-Called :
    (w : World) (req : ApplyRequest) (c : Call) (t : Trace)
    → Called c t
    → Called c (apply w req t).1
unfolding apply commit emit
apply-Called w req c t h = ground (arith, h)

pub build-trace :
    (w : World) (ns : String) (p : ClusterUpdateParams) (t : Trace)
    → (build w ns p t).1 ≡ got ray_cluster ns p.name ∷ t
unfolding build read_for_write
build-trace w ns p t = ground arith

abbrev pub persisting : String → String → Fields → Call
persisting ns name spec =
    applied ray_cluster ns name spec (record { dry_run = false; force = false })

forced_retry-Called :
    (w : World) (ns : String) (p : ClusterUpdateParams) (c : Call) (t : Trace)
    → Called c t
    → Called c (forced_retry w (build w ns p) t).1
unfolding forced_retry
forced_retry-Called w ns p c t h =
    let after : Called c (build w ns p t).1 = rw (build-trace w ns p t) (inr h) in
    elim (Result-cases (build w ns p t).0) [
      | inr (e, b) ↦ rw b after
      | inl (req, b) ↦
          rw b (apply-Called w (record req { force = true }) c (build w ns p t).1 after)
    ]

pub retry-Called :
    (w : World) (ns : String) (p : ClusterUpdateParams) (t : Trace) (req : ApplyRequest) (c : Call)
    → (build w ns p t).0 ≡ ok req
    → Called c (apply w req (build w ns p t).1).1
    → Called c (apply_with_conflict_retry w (build w ns p) t).1
unfolding apply_with_conflict_retry
retry-Called w ns p t req c b h =
    let first = apply w req (build w ns p t).1 in
    rw b (elim (Result-cases first.0) [
      | inl (res, a) ↦ rw a h
      | inr (e, a) ↦ rw a (elim (Bool-cases (not req.dry_run && is_conflict e)) [
        | inl again ↦ rw again (forced_retry-Called w ns p c first.1 h)
        | inr once ↦ rw once h
      ])
    ])

has_change-raw_spec : (p : ClusterUpdateParams) → has_fields p.raw_spec ≡ true → has_change p ≡ true
unfolding has_change
has_change-raw_spec p h = ground (arith, h)

pub update-retry :
    (w : World) (s : ClusterWriteService) (p : ClusterUpdateParams) (t : Trace)
    → p.name ≢ ""
    → has_fields p.raw_spec ≡ true
    → update w s p t
      ≡ apply_with_conflict_retry w
          (build w (resolve_namespace s.default_namespace p.namespace) p)
          t
unfolding update
update-retry w s p t named some_fields =
    ground (arith, eq_iff p.name "", has_change-raw_spec p some_fields)

pub apply-persists :
    (w : World) (req : ApplyRequest) (t : Trace) (o : Fields)
    → validated w req t ≡ ok o
    → req.dry_run ≡ false
    → Called
        (applied req.kind req.namespace req.name req.spec
          (record { dry_run = false; force = req.force }))
        (apply w req t).1
unfolding apply commit emit
apply-persists w req t o h d = ground (arith, h, d)
