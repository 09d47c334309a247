-- ===== src/Service.antt =====
-- internal/domain/service_write.go: the RayService write service. The predictor of the operator's path
-- is in Service/Classify.antt.
pub mod Classify
pub mod Serving
pub mod Deletion
use Prim.Native.String.{◌++◌}
use ray_mcp.Prelude.{
  ℕ, suc, String, Bool, true, false, ◌||◌, Option, none, some, List, [], ◌∷◌, length, ◌==◌, is_some,
  if◌then◌else◌,
}
use ray_mcp.Prelude.Int.{ℤ, pos}
use ray_mcp.Prelude.Text.{show_nat, show_bool, join}
use ray_mcp.Json.{bool, str, obj, Fields, get, set, as_obj, or_end}
use ray_mcp.Errors.{ray_service, op_delete, Error, serving_refused, other, Result, ok, err}
use ray_mcp.Merge.{clone_map, merge}
use ray_mcp.Guards.{is_protected, require_confirm}
use ray_mcp.Types.{ServiceDetail}
use ray_mcp.Object.{
  spec_of, with_spec, create_object, clean_object, set_cluster_image, apply_meta_string_map,
}
use ray_mcp.Ports.{Trace, World, M, pure, check, lift, ◌>>=◌, ◌>>◌, get_service, resolve_namespace}
use ray_mcp.Apply.{ApplyRequest, ApplyResult, apply}
use ray_mcp.Diff.{◌<>◌}
use ray_mcp.Cluster.{
  ResourceQuantities, WorkerGroupParams, require_name, part_if, not_empty, has_fields,
  protected_error, delete_and_record,
}
use ray_mcp.Cluster.Update.{has_entries, autoscaling_text, set_version, set_image, set_autoscaling}
use ray_mcp.Service.Classify.{classify_service_update}
use ray_mcp.Service.Serving.{service_serving_reason}

pub record ServiceDeployParams : Type 0 where
  pub namespace : String
  pub name : String
  pub serve_config_v2 : String
  pub ray_version : String
  pub image : String
  pub head_resources : ResourceQuantities
  pub worker_groups : List WorkerGroupParams
  pub enable_autoscaling : Bool
  pub labels : List (String × String)
  pub annotations : List (String × String)
  pub raw_spec : Fields
  pub dry_run : Bool

pub record ServiceUpdateParams : Type 0 where
  pub namespace : String
  pub name : String
  pub serve_config_v2 : Option String
  pub image : String
  pub ray_version : String
  pub enable_autoscaling : Option Bool
  pub labels : List (String × String)
  pub annotations : List (String × String)
  pub raw_spec : Fields
  pub dry_run : Bool

pub record ServiceDeleteParams : Type 0 where
  pub namespace : String
  pub name : String
  pub confirm : String
  pub force : Bool
  pub dry_run : Bool

unfoldable pub has_change : ServiceUpdateParams → Bool
has_change p =
    is_some p.serve_config_v2
    || not_empty p.image
    || not_empty p.ray_version
    || is_some p.enable_autoscaling
    || has_entries p.labels
    || has_entries p.annotations
    || has_fields p.raw_spec

pub record ServiceWriteService : Type 0 where
  pub build_service_base : ServiceDeployParams → Result Fields
  pub default_namespace : String

pub record ServiceDeployResult : Type 0 where
  pub applied : ApplyResult
  pub name : String
  pub namespace : String

pub record ServiceUpdateResult : Type 0 where
  pub applied : ApplyResult
  pub name : String
  pub namespace : String
  pub predicted_path : String

unfoldable pub deploy_args_summary : ServiceDeployParams → String
deploy_args_summary p = join " " (
    ("name=" ++ p.name)
    ∷ (part_if (not_empty p.image) ("image=" ++ p.image)
        <> (("workerGroups=" ++ show_nat (length p.worker_groups))
            ∷ (part_if p.enable_autoscaling "autoscaling=true"
                <> part_if (has_fields p.raw_spec) "rawSpec=true"))))

unfoldable pub service_update_args_summary : ServiceUpdateParams → String
service_update_args_summary p = join " " (
    ("name=" ++ p.name)
    ∷ (part_if (is_some p.serve_config_v2) "serveConfigV2"
        <> (part_if (not_empty p.image) ("image=" ++ p.image)
            <> (part_if (not_empty p.ray_version) ("rayVersion=" ++ p.ray_version)
                <> (autoscaling_text p.enable_autoscaling
                    <> (part_if (has_entries p.labels) "labels"
                        <> (part_if (has_entries p.annotations) "annotations"
                            <> part_if (has_fields p.raw_spec) "rawSpec=true")))))))

unfoldable pub service_delete_args_summary : ServiceDeleteParams → String
service_delete_args_summary p =
    "name=" ++ p.name ++ " force=" ++ show_bool p.force ++ " dryRun=" ++ show_bool p.dry_run

unfoldable pub deploy : World → ServiceWriteService → ServiceDeployParams → M ServiceDeployResult
deploy w s p =
    let ns = resolve_namespace s.default_namespace p.namespace in
    let p = record p { namespace = ns } in
    do
      check (require_name p.name)
      base ← lift (s.build_service_base p)
      merged ← lift (merge base p.raw_spec (record { namespace = ns; name = p.name }))
      res ← apply w (record {
        kind = ray_service;
        namespace = ns;
        name = p.name;
        spec = merged;
        dry_run = p.dry_run;
        force = false;
        tool = "ray_service_deploy";
        args_summary = deploy_args_summary p;
      })
      pure (record { applied = res; name = p.name; namespace = ns })

-- The service's `readForWrite`.
unfoldable pub read_for_write : World → String → String → M Fields
read_for_write w ns name = do
  detail ← get_service w ns name
  pure (clean_object ray_service ns name detail.raw)

-- The deltas on the embedded cluster config, which is created where it is missing.
unfoldable pub update_config : ServiceUpdateParams → Fields → Fields
update_config p rcc =
    set_autoscaling p.enable_autoscaling (set_image p.image (set_version p.ray_version rcc))

abbrev pub set_serve_config : Option String → Fields → Fields
set_serve_config none spec = spec
set_serve_config (some c) spec = set "serveConfigV2" (str c) spec

unfoldable pub update_spec : ServiceUpdateParams → Fields → Fields
update_spec p spec =
    set_serve_config p.serve_config_v2 (create_object "rayClusterConfig" (update_config p) spec)

unfoldable pub overlay : ServiceUpdateParams → Fields → Fields
overlay p object =
    apply_meta_string_map "annotations" p.annotations
      (apply_meta_string_map "labels" p.labels (with_spec (update_spec p) object))

unfoldable pub update : World → ServiceWriteService → ServiceUpdateParams → M ServiceUpdateResult
update w s p =
    let ns = resolve_namespace s.default_namespace p.namespace in
    let p = record p { namespace = ns } in
    do
      check (require_name p.name)
      check (
          if has_change p
          then none
          else some (
              other
                "ray_service_update needs at least one field to change (serveConfigV2, image, rayVersion, enableAutoscaling, labels, annotations, or rawSpec)"))
      object ← read_for_write w ns p.name
      merged ← lift (merge (overlay p object) p.raw_spec (record { namespace = ns; name = p.name }))
      let predicted =
          classify_service_update (some (clone_map (spec_of object))) (as_obj (get "spec" merged))
      res ← apply w (record {
        kind = ray_service;
        namespace = ns;
        name = p.name;
        spec = merged;
        dry_run = p.dry_run;
        force = false;
        tool = "ray_service_update";
        args_summary = service_update_args_summary p;
      })
      pure (record { applied = res; name = p.name; namespace = ns; predicted_path = predicted })

-- The refusal of a service that appears to serve traffic, unless forced.
abbrev pub serving_refusal : ServiceDeleteParams → Fields → Option Error
serving_refusal p live =
    if p.force
    then none
    else (let reason = service_serving_reason live in
        if reason == "" then none else some (serving_refused p.name reason))

unfoldable pub delete : World → ServiceWriteService → ServiceDeleteParams → M (Unit {0})
delete w s p =
    let ns = resolve_namespace s.default_namespace p.namespace in
    let p = record p { namespace = ns } in
    do
      check (require_name p.name)
      detail ← get_service w ns p.name
      check (
          if is_protected (or_end detail.raw)
          then some (protected_error "RayService" p.name "ray_service_update")
          else none)
      check (serving_refusal p (or_end detail.raw))
      check (require_confirm w.digest (or_end detail.raw) op_delete p.confirm)
      delete_and_record w ray_service ns p.name p.dry_run "ray_service_delete"
          (service_delete_args_summary p)
