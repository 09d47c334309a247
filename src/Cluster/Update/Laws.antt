-- ===== src/Cluster/Update/Laws.antt =====
-- What `Update` (internal/domain/cluster_update.go) sends to the server.
use ray_mcp.Prelude.{
  ◌≡◌, ◌∙◌, refl, sym, ap, String, Bool, false, Option, none, some, List, [], ◌∷◌, arith, ◌==◌,
  Bool-cases, Option-cases, inl, inr,
}
use ray_mcp.Json.{
  Value, bool, str, obj, Fields, get, set, as_obj, as_arr, or_end, or_nil, or_empty, IsWfFields,
}
use ray_mcp.Json.Lookup.{get-set_ne}
use ray_mcp.Errors.{ray_cluster, ok}
use ray_mcp.Merge.{merge_patch, nested_value, nested_string, name_path, namespace_path, merge}
use ray_mcp.Merge.Rfc.{Untouched, merge_patch-Untouched}
use ray_mcp.Merge.Guard.{merge-ok}
use ray_mcp.Types.{ClusterDetail}
use ray_mcp.Object.{spec_of, with_spec, strip_workers_to_delete, clean_object}
use ray_mcp.Object.Groups.{
  groups_of, column, worker_column, column-set_cluster_image, column-strip_workers_to_delete,
  spec_of-clean_object, spec_of-with_spec, spec_of-apply_meta_string_map,
}
use ray_mcp.Ports.{Trace, World}
use ray_mcp.Apply.{ApplyRequest}
use ray_mcp.Cluster.Retry.Laws.{IsRead}
use ray_mcp.Cluster.Update.{
  ClusterUpdateParams, read_for_write, set_version, set_image, set_autoscaling, update_spec,
  overlay, build,
}

-- An attempt's build only reads.
pub build-IsRead : (w : World) (ns : String) (p : ClusterUpdateParams) → IsRead (build w ns p)
unfolding build read_for_write
build-IsRead w ns p = record {
  no_audits = λ t. ground arith;
  no_writes = λ t. ground arith;
  no_forces = λ t. ground arith;
  unforced = λ t req h. ground arith;
}

-- The object that `readForWrite` makes of what was read.
abbrev pub read_object : String → String → ClusterDetail → Fields
read_object ns name detail =
    with_spec strip_workers_to_delete (clean_object ray_cluster ns name detail.raw)

pub merge-build :
    (w : World) (ns : String) (p : ClusterUpdateParams) (t : Trace) (detail : ClusterDetail)
    (req : ApplyRequest)
    → w.on_get_cluster t ns p.name ≡ ok detail
    → (build w ns p t).0 ≡ ok req
    → merge
        (overlay p (read_object ns p.name detail))
        p.raw_spec
        (record { namespace = ns; name = p.name })
      ≡ ok req.spec
unfolding build read_for_write
merge-build w ns p t detail req read built = ground arith

groups_of-set_ne :
    (k : String) (v : Value) (m : Fields)
    → (k == "workerGroupSpecs") ≡ false
    → groups_of (set k v m) ≡ groups_of m
groups_of-set_ne k v m h = ap (λ o. or_nil (as_arr o)) (get-set_ne "workerGroupSpecs" k v m h)

column-set_autoscaling :
    (k : String) (b : Option Bool) (spec : Fields)
    → column k (groups_of (set_autoscaling b spec)) ≡ column k (groups_of spec)
column-set_autoscaling k none spec = refl
column-set_autoscaling k (some b) spec =
    ap (column k) (groups_of-set_ne "enableInTreeAutoscaling" (bool b) spec refl)

column-set_image :
    (k image : String) (spec : Fields)
    → ("template" == k) ≡ false
    → column k (groups_of (set_image image spec)) ≡ column k (groups_of spec)
column-set_image k image spec h = elim (Bool-cases (image == "")) [
  | inl e ↦ rw e
  | inr e ↦ rw e (column-set_cluster_image k image spec h)
]

column-set_version :
    (k version : String) (spec : Fields)
    → column k (groups_of (set_version version spec)) ≡ column k (groups_of spec)
column-set_version k version spec = elim (Bool-cases (version == "")) [
  | inl e ↦ rw e
  | inr e ↦ rw e (ap (column k) (groups_of-set_ne "rayVersion" (str version) spec refl))
]

-- The curated deltas keep every column of the worker groups but the pod template.
column-update_spec :
    (k : String) (p : ClusterUpdateParams) (spec : Fields)
    → ("template" == k) ≡ false
    → column k (groups_of (update_spec p spec)) ≡ column k (groups_of spec)
unfolding update_spec
column-update_spec k p spec h =
    column-set_autoscaling k p.enable_autoscaling
      (set_image p.image (set_version p.ray_version spec))
    ∙ (column-set_image k p.image (set_version p.ray_version spec) h
        ∙ column-set_version k p.ray_version spec)

worker_column-overlay :
    (k ns : String) (p : ClusterUpdateParams) (detail : ClusterDetail)
    → ("template" == k) ≡ false
    → ("scaleStrategy" == k) ≡ false
    → worker_column k (overlay p (read_object ns p.name detail))
      ≡ worker_column k (or_end detail.raw)
unfolding overlay
worker_column-overlay k ns p detail ht hs =
    rw (spec_of-apply_meta_string_map "annotations" p.annotations) (
      rw (spec_of-apply_meta_string_map "labels" p.labels) (
        rw (spec_of-with_spec (update_spec p)) (
          column-update_spec k p (spec_of (read_object ns p.name detail)) ht
          ∙ rw (spec_of-with_spec strip_workers_to_delete) (
              column-strip_workers_to_delete k _ hs
              ∙ ap (λ m. column k (groups_of m))
                  (spec_of-clean_object ray_cluster ns p.name detail.raw)))))

abbrev pub groups_path : List String
groups_path = "spec" ∷ "workerGroupSpecs" ∷ []

groups-nested :
    (m : Fields) → groups_of (spec_of m) ≡ or_nil (as_arr (nested_value (some (obj m)) groups_path))
unfolding nested_value as_arr as_obj get
groups-nested m = elim (Option-cases (as_obj (get "spec" m))) [
  | inl e ↦ rw (e, nested_value)
  | inr (s, e) ↦ rw (e, nested_value)
]

-- An update that is built from a cluster that was read sends, at every key but template and
-- scaleStrategy, what each worker group held there when it was read, group by group: its replicas,
-- bounds and name. The rawSpec, with each key once, does not reach spec.workerGroupSpecs.
pub update_keeps_groups :
    (w : World) (ns k : String) (p : ClusterUpdateParams) (t : Trace) (detail : ClusterDetail)
    (req : ApplyRequest)
    → IsWfFields p.raw_spec
    → Untouched p.raw_spec groups_path
    → ("template" == k) ≡ false
    → ("scaleStrategy" == k) ≡ false
    → w.on_get_cluster t ns p.name ≡ ok detail
    → (build w ns p t).0 ≡ ok req
    → worker_column k req.spec ≡ worker_column k (or_end detail.raw)
update_keeps_groups w ns k p t detail req wf untouched ht hs read built =
    let base : Fields = overlay p (read_object ns p.name detail) in
    let merged : req.spec ≡ merge_patch base p.raw_spec =
      (merge-ok base p.raw_spec (record { namespace = ns; name = p.name })
        (merge-build w ns p t detail req read built)).0 in
    ap (worker_column k) merged
    ∙ (ap (column k) (
          groups-nested (merge_patch base p.raw_spec)
          ∙ (ap (λ o. or_nil (as_arr o))
                (merge_patch-Untouched base p.raw_spec groups_path wf untouched)
              ∙ sym (groups-nested base)))
        ∙ worker_column-overlay k ns p detail ht hs)

-- The object that an update sends, built from a cluster that was read, has the name and the
-- namespace of the call, whatever the rawSpec says.
pub update_keeps_identity :
    (w : World) (ns : String) (p : ClusterUpdateParams) (t : Trace) (detail : ClusterDetail)
    (req : ApplyRequest)
    → w.on_get_cluster t ns p.name ≡ ok detail
    → (build w ns p t).0 ≡ ok req
    → (or_empty (nested_string req.spec name_path) ≡ p.name)
      × (or_empty (nested_string req.spec namespace_path) ≡ ns)
update_keeps_identity w ns p t detail req read built =
    let (e, named, placed) =
      merge-ok (overlay p (read_object ns p.name detail)) p.raw_spec
        (record { namespace = ns; name = p.name }) (merge-build w ns p t detail req read built) in
    (named, placed)
