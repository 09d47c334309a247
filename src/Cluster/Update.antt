-- ===== src/Cluster/Update.antt =====
-- `Update` of internal/domain/cluster_update.go.
pub mod Laws
pub mod Calls
pub mod Protection
use Prim.Native.String.{◌++◌}
use ray_mcp.Prelude.{
  String, Bool, true, false, not, ◌||◌, Option, none, some, List, [], ◌∷◌, length, ◌==◌, ltb,
  is_some, if◌then◌else◌,
}
use ray_mcp.Prelude.Text.{show_bool, join}
use ray_mcp.Json.{bool, str, Fields, set}
use ray_mcp.Errors.{ray_cluster, other, Result}
use ray_mcp.Merge.{merge}
use ray_mcp.Object.{
  with_spec, strip_workers_to_delete, clean_object, set_cluster_image, apply_meta_string_map,
}
use ray_mcp.Ports.{Trace, World, M, pure, check, lift, ◌>>=◌, ◌>>◌, get_cluster, resolve_namespace}
use ray_mcp.Apply.{ApplyRequest, ApplyResult}
use ray_mcp.Diff.{◌<>◌}
use ray_mcp.Cluster.{ClusterWriteService, require_name, part_if, not_empty, has_fields}
use ray_mcp.Cluster.Retry.{apply_with_conflict_retry}

-- `*bool` is `Option Bool`.
pub record ClusterUpdateParams : Type 0 where
  pub namespace : String
  pub name : String
  pub image : String
  pub ray_version : String
  pub enable_autoscaling : Option Bool
  pub labels : List (String × String)
  pub annotations : List (String × String)
  pub raw_spec : Fields
  pub dry_run : Bool

abbrev pub has_entries : List (String × String) → Bool
has_entries [] = false
has_entries (e ∷ kv) = true

unfoldable pub has_change : ClusterUpdateParams → Bool
has_change p =
    not_empty p.image
    || not_empty p.ray_version
    || is_some p.enable_autoscaling
    || has_entries p.labels
    || has_entries p.annotations
    || has_fields p.raw_spec

abbrev pub autoscaling_text : Option Bool → List String
autoscaling_text none = []
autoscaling_text (some b) = ("autoscaling=" ++ show_bool b) ∷ []

unfoldable pub update_args_summary : ClusterUpdateParams → String
update_args_summary p = join " " (
    ("name=" ++ p.name)
    ∷ (part_if (not_empty p.image) ("image=" ++ p.image)
        <> (part_if (not_empty p.ray_version) ("rayVersion=" ++ p.ray_version)
            <> (autoscaling_text p.enable_autoscaling
                <> (part_if (has_entries p.labels) "labels"
                    <> (part_if (has_entries p.annotations) "annotations"
                        <> part_if (has_fields p.raw_spec) "rawSpec=true"))))))

-- The cluster's `readForWrite`: the object, with its spec in it.
unfoldable pub read_for_write : World → String → String → M Fields
read_for_write w ns name = do
  detail ← get_cluster w ns name
  pure (with_spec strip_workers_to_delete (clean_object ray_cluster ns name detail.raw))

-- The curated deltas on the spec, in the order of the code.
abbrev pub set_version : String → Fields → Fields
set_version version spec = if version == "" then spec else set "rayVersion" (str version) spec

abbrev pub set_image : String → Fields → Fields
set_image image spec = if image == "" then spec else set_cluster_image image spec

abbrev pub set_autoscaling : Option Bool → Fields → Fields
set_autoscaling none spec = spec
set_autoscaling (some b) spec = set "enableInTreeAutoscaling" (bool b) spec

unfoldable pub update_spec : ClusterUpdateParams → Fields → Fields
update_spec p spec =
    set_autoscaling p.enable_autoscaling (set_image p.image (set_version p.ray_version spec))

unfoldable pub overlay : ClusterUpdateParams → Fields → Fields
overlay p object =
    apply_meta_string_map "annotations" p.annotations
      (apply_meta_string_map "labels" p.labels (with_spec (update_spec p) object))

unfoldable pub build : World → String → ClusterUpdateParams → M ApplyRequest
build w ns p = do
  object ← read_for_write w ns p.name
  merged ← lift (merge (overlay p object) p.raw_spec (record { namespace = ns; name = p.name }))
  pure (record {
    kind = ray_cluster;
    namespace = ns;
    name = p.name;
    spec = merged;
    dry_run = p.dry_run;
    force = false;
    tool = "ray_cluster_update";
    args_summary = update_args_summary p;
  })

unfoldable pub update : World → ClusterWriteService → ClusterUpdateParams → M ApplyResult
update w s p =
    let ns = resolve_namespace s.default_namespace p.namespace in
    do
      check (require_name p.name)
      check (
          if has_change p
          then none
          else some (
              other
                "ray_cluster_update needs at least one field to change (image, rayVersion, enableAutoscaling, labels, annotations, or rawSpec)"))
      apply_with_conflict_retry w (build w ns p)
