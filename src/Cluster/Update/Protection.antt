-- ===== src/Cluster/Update/Protection.antt =====
-- When `Update` (internal/domain/cluster_update.go) sends a request, and the annotation `ray-
-- mcp/protected` in it.
use ray_mcp.Prelude.{
  ◌≡◌, ◌≢◌, refl, ap, String, true, false, some, List, [], ◌∷◌, arith, ◌==◌, eq_iff, Bool-cases,
  inl, inr,
}
use ray_mcp.Json.{
  size, end, field, Value, null, str, obj, Fields, get, as_obj, as_str, or_empty, IsWfFields,
}
use ray_mcp.Errors.{ray_cluster, ok}
use ray_mcp.Merge.{merge_patch, nested_value, Identity, name_path, namespace_path, merge}
use ray_mcp.Merge.Rfc.{Untouched, IsLeaf, written, merge_patch-wins}
use ray_mcp.Merge.Guard.{IsNamed, merge-accepts}
use ray_mcp.Guards.{protected_annotation, protected_value, annotation, is_protected}
use ray_mcp.Types.{ClusterDetail}
use ray_mcp.Object.{strip_workers_to_delete, clean_object, with_spec, apply_meta_string_map}
use ray_mcp.Object.Meta.{
  clean_object-IsNamed, with_spec-IsNamed, labels-IsNamed, annotations-IsNamed,
}
use ray_mcp.Ports.{got, Trace, World, continue_from, resolve_namespace}
use ray_mcp.Apply.{ApplyRequest}
use ray_mcp.Cluster.{ClusterWriteService, has_fields}
use ray_mcp.Cluster.Update.{
  ClusterUpdateParams, read_for_write, update_spec, overlay, update_args_summary, build, update,
}
use ray_mcp.Cluster.Update.Calls.{
  Called, persisting, build-trace, retry-Called, apply-persists, update-retry,
}
use ray_mcp.Cluster.Update.Laws.{read_object}

overlay-IsNamed :
    (ns : String) (p : ClusterUpdateParams) (detail : ClusterDetail)
    → IsNamed (overlay p (read_object ns p.name detail)) (record { namespace = ns; name = p.name })
unfolding overlay
overlay-IsNamed ns p detail =
    let id : Identity = record { namespace = ns; name = p.name } in
    let clean : Fields = clean_object ray_cluster ns p.name detail.raw in
    let start : Fields = with_spec strip_workers_to_delete clean in
    let edited : Fields = with_spec (update_spec p) start in
    annotations-IsNamed p.annotations (apply_meta_string_map "labels" p.labels edited) id (
      labels-IsNamed p.labels edited id (
        with_spec-IsNamed (update_spec p) start id (
          with_spec-IsNamed strip_workers_to_delete clean id
            (clean_object-IsNamed ray_cluster ns p.name detail.raw))))

-- Every cluster that can be read gives an update request, if the rawSpec, with each key once,
-- reaches neither metadata.name nor metadata.namespace: the spec sent is the overlaid object with
-- the rawSpec merged over it, and it is not forced.
pub update_accepted :
    (w : World) (ns : String) (p : ClusterUpdateParams) (t : Trace) (detail : ClusterDetail)
    → IsWfFields p.raw_spec
    → Untouched p.raw_spec name_path
    → Untouched p.raw_spec namespace_path
    → w.on_get_cluster t ns p.name ≡ ok detail
    → (build w ns p t).0
      ≡ ok (record {
        kind = ray_cluster;
        namespace = ns;
        name = p.name;
        spec = merge_patch (overlay p (read_object ns p.name detail)) p.raw_spec;
        dry_run = p.dry_run;
        force = false;
        tool = "ray_cluster_update";
        args_summary = update_args_summary p;
      })
unfolding build read_for_write
update_accepted w ns p t detail wf un us read =
    let base : Fields = overlay p (read_object ns p.name detail) in
    let id : Identity = record { namespace = ns; name = p.name } in
    let accepted : merge base p.raw_spec id ≡ ok (merge_patch base p.raw_spec) =
      merge-accepts base p.raw_spec id wf (overlay-IsNamed ns p detail) un us in
    rw (read, continue_from) (rw (accepted, continue_from))

abbrev pub protected_path : List String
protected_path = "metadata" ∷ "annotations" ∷ protected_annotation ∷ []

annotation-nested :
    (m : Fields)
    → annotation m protected_annotation
      ≡ or_empty (as_str (nested_value (some (obj m)) protected_path))
unfolding annotation nested_value as_str as_obj get
annotation-nested m = ground arith

written-unprotected :
    (v : Value)
    → IsLeaf v
    → v ≢ str protected_value
    → (or_empty (as_str (written v)) == protected_value) ≡ false
unfolding as_str
written-unprotected (obj m) leaf other = absurd leaf
written-unprotected (str s) leaf other = elim (Bool-cases (s == protected_value)) [
  | inl e ↦ absurd (other (ap str ((eq_iff s protected_value).0 e)))
  | inr e ↦ e
]
written-unprotected null leaf other = refl
written-unprotected _ leaf other = refl

sent-unprotected :
    (base raw : Fields) (v : Value)
    → IsWfFields raw
    → nested_value (some (obj raw)) protected_path ≡ some v
    → IsLeaf v
    → v ≢ str protected_value
    → is_protected (merge_patch base raw) ≡ false
unfolding is_protected
sent-unprotected base raw v wf says leaf other =
    let there : nested_value (some (obj (merge_patch base raw))) protected_path ≡ written v =
      merge_patch-wins base raw "metadata" ("annotations" ∷ protected_annotation ∷ []) v wf says
        leaf in
    rw (annotation-nested (merge_patch base raw), there) (written-unprotected v leaf other)

changed :
    (raw : Fields) (v : Value)
    → nested_value (some (obj raw)) protected_path ≡ some v
    → has_fields raw ≡ true
unfolding nested_value as_obj get size
changed end v says = absurd (ground arith)
changed (field k x m) v says = ground arith

-- The namespace that an update works in.
abbrev pub scope : ClusterWriteService → ClusterUpdateParams → String
scope s p = resolve_namespace s.default_namespace p.namespace

-- A named update that is no dry run, of a cluster that can be read on a server that accepts the dry
-- run, has the server persist an object that is not protected, if its rawSpec, with each key once,
-- overwrites or deletes the annotation ray-mcp/protected with anything but "true" and reaches
-- neither metadata.name nor metadata.namespace: no confirmation stands before it, whatever the
-- cluster that was read has there.
pub update_unprotects :
    (w : World) (s : ClusterWriteService) (p : ClusterUpdateParams) (t : Trace)
    (detail : ClusterDetail) (v : Value)
    → p.name ≢ ""
    → p.dry_run ≡ false
    → IsWfFields p.raw_spec
    → Untouched p.raw_spec name_path
    → Untouched p.raw_spec namespace_path
    → nested_value (some (obj p.raw_spec)) protected_path ≡ some v
    → IsLeaf v
    → v ≢ str protected_value
    → w.on_get_cluster t (scope s p) p.name ≡ ok detail
    → ((spec : Fields)
        → (o : Fields) × (w.on_apply
              (got ray_cluster (scope s p) p.name ∷ t)
              ray_cluster
              (scope s p)
              p.name
              spec
              (record { dry_run = true; force = false })
            ≡ ok o))
    → (spec : Fields) × (is_protected spec ≡ false)
      × Called (persisting (scope s p) p.name spec) (update w s p t).1
update_unprotects w s p t detail v named wet wf un us says leaf other read accepts =
    let ns = scope s p in
    let spec = merge_patch (overlay p (read_object ns p.name detail)) p.raw_spec in
    let b = update_accepted w ns p t detail wf un us read in
    let req : ApplyRequest = record {
      kind = ray_cluster;
      namespace = ns;
      name = p.name;
      spec = spec;
      dry_run = p.dry_run;
      force = false;
      tool = "ray_cluster_update";
      args_summary = update_args_summary p;
    } in
    let (o, dry) = accepts spec in
    let sent = apply-persists w req (got ray_cluster ns p.name ∷ t) o dry wet in
    (
      spec,
      sent-unprotected (overlay p (read_object ns p.name detail)) p.raw_spec v wf says leaf other,
      rw (update-retry w s p t named (changed p.raw_spec v says)) (
          retry-Called w ns p t req (persisting ns p.name spec) b (rw (build-trace w ns p t) sent)),
    )
