-- ===== src/Job/Submit.antt =====
-- internal/domain/job_submit.go: the RayJob write service, its non-blocking submit and its mode-aware
-- delete.
pub mod Target
use Prim.Native.String.{◌++◌}
use ray_mcp.Prelude.{
  ℕ, zero, String, Bool, true, false, not, ◌&&◌, Option, none, some, List, [], ◌∷◌, ◌==◌, is_some,
  ltb, if◌then◌else◌,
}
use ray_mcp.Prelude.Text.{show_bool, quote, join}
use ray_mcp.Json.{Fields, get, size, as_obj, or_empty, or_end}
use ray_mcp.Errors.{ray_job, op_delete, Error, other, Result, ok, err}
use ray_mcp.Merge.{nested_string, merge}
use ray_mcp.Guards.{is_protected, require_confirm}
use ray_mcp.Types.{JobDetail}
use ray_mcp.Diff.{FieldChange, ◌<>◌}
use ray_mcp.Ports.{Trace, World, M, pure, check, lift, ◌>>=◌, ◌>>◌, get_job, resolve_namespace}
use ray_mcp.Apply.{ApplyRequest, ApplyResult, apply}
use ray_mcp.Cluster.{
  ResourceQuantities, WorkerGroupParams, require_name, part_if, not_empty, has_fields,
  protected_error, delete_and_record,
}

pub record ClusterSubmitSpec : Type 0 where
  pub ray_version : String
  pub image : String
  pub head_resources : ResourceQuantities
  pub worker_groups : List WorkerGroupParams
  pub enable_autoscaling : Bool

pub record JobSubmitParams : Type 0 where
  pub namespace : String
  pub name : String
  pub entrypoint : String
  pub existing_cluster : String
  pub cluster_spec : Option ClusterSubmitSpec
  pub runtime_env_yaml : String
  pub metadata : List (String × String)
  pub shutdown_after_job_finishes : Option Bool
  pub raw_spec : Fields
  pub dry_run : Bool

pub record JobDeleteParams : Type 0 where
  pub namespace : String
  pub name : String
  pub confirm : String
  pub allow_destructive : Bool
  pub dry_run : Bool

pub record JobWriteService : Type 0 where
  pub build_job_base : JobSubmitParams → Result Fields
  pub default_namespace : String

pub record JobSubmitResult : Type 0 where
  pub name : String
  pub namespace : String
  pub dry_run : Bool
  pub ephemeral : Bool
  pub job_id : String
  pub deployment_status : String
  pub diff : List FieldChange

abbrev both_or_neither : Bool → String
both_or_neither existing = if existing then "both" else "neither"

abbrev pub same_bool : Bool → Bool → Bool
same_bool true b = b
same_bool false b = not b

abbrev or_default_true : Option Bool → Option Bool
or_default_true none = some true
or_default_true (some b) = some b

-- `validate`, which writes the default of the shutdown into its argument: here it returns it.
unfoldable pub validate : JobSubmitParams → Result JobSubmitParams
validate p =
    let existing = not_empty p.existing_cluster in
    if p.name == ""
    then err (other "name is required")
    else if p.entrypoint == ""
    then err (other "entrypoint is required")
    else if same_bool existing (is_some p.cluster_spec)
    then err (
        other (
          "exactly one of existingCluster or clusterSpec must be set (got "
          ++ both_or_neither existing
          ++ ")"))
    else if existing
    then if is_some p.shutdown_after_job_finishes
      then err (
          other
            "shutdownAfterJobFinishes applies only to clusterSpec (ephemeral) mode; existingCluster jobs never delete the cluster they target")
      else ok p
    else ok
        (record p { shutdown_after_job_finishes = or_default_true p.shutdown_after_job_finishes })

abbrev shutdown_text : Option Bool → List String
shutdown_text none = []
shutdown_text (some b) = ("shutdownAfterJobFinishes=" ++ show_bool b) ∷ []

unfoldable pub submit_args_summary : JobSubmitParams → String
submit_args_summary p = join " " (
    ("name=" ++ p.name)
    ∷ ((if not_empty p.existing_cluster
          then ("existingCluster=" ++ p.existing_cluster) ∷ []
          else "ephemeral=true" ∷ shutdown_text p.shutdown_after_job_finishes)
        <> part_if (has_fields p.raw_spec) "rawSpec=true"))

unfoldable pub job_delete_args_summary : JobDeleteParams → String
job_delete_args_summary p = "name=" ++ p.name ++ " dryRun=" ++ show_bool p.dry_run

unfoldable pub submit : World → JobWriteService → JobSubmitParams → M JobSubmitResult
submit w s p =
    let ns = resolve_namespace s.default_namespace p.namespace in
    let p = record p { namespace = ns } in
    do
      p ← lift (validate p)
      base ← lift (s.build_job_base p)
      merged ← lift (merge base p.raw_spec (record { namespace = p.namespace; name = p.name }))
      res ← apply w (record {
        kind = ray_job;
        namespace = p.namespace;
        name = p.name;
        spec = merged;
        dry_run = p.dry_run;
        force = false;
        tool = "ray_job_submit";
        args_summary = submit_args_summary p;
      })
      pure (record {
        name = p.name;
        namespace = p.namespace;
        dry_run = res.dry_run;
        ephemeral = is_some p.cluster_spec;
        job_id = or_empty (nested_string res.object ("status" ∷ "jobId" ∷ []));
        deployment_status =
            or_empty (nested_string res.object ("status" ∷ "jobDeploymentStatus" ∷ []));
        diff = res.diff;
      })

-- `len(sel) > 0` of the cluster selector, where it is a map.
abbrev pub has_selector : Fields → Bool
has_selector spec = ltb 0 (size (or_end (as_obj (get "clusterSelector" spec))))

-- A missing `spec` is an empty one: it has no cluster spec. A map of an object is never the nil map.
unfoldable pub job_is_ephemeral : Fields → Bool
job_is_ephemeral live =
    let spec = or_end (as_obj (get "spec" live)) in
    if has_selector spec then false else is_some (as_obj (get "rayClusterSpec" spec))

abbrev tier_error : String → Error
tier_error name = other (
    "deleting RayJob "
    ++ quote name
    ++ " cascade-deletes its ephemeral RayCluster (and every actor/job on it) and requires --allow-destructive")

-- The gates of a delete that takes a cluster with it: the tier, then the confirmation.
unfoldable pub cascade_refusal : World → JobDeleteParams → Fields → Option Error
unfolding job_is_ephemeral
cascade_refusal w p live =
    if job_is_ephemeral live
    then if not p.allow_destructive
      then some (tier_error p.name)
      else require_confirm w.digest live op_delete p.confirm
    else none

unfoldable pub protected_job_error : String → Error
protected_job_error name = protected_error "RayJob" name "rawSpec/update"

unfoldable pub delete : World → JobWriteService → JobDeleteParams → M (Unit {0})
delete w s p =
    let ns = resolve_namespace s.default_namespace p.namespace in
    let p = record p { namespace = ns } in
    do
      check (require_name p.name)
      detail ← get_job w ns p.name
      check (if is_protected (or_end detail.raw) then some (protected_job_error p.name) else none)
      check (cascade_refusal w p (or_end detail.raw))
      delete_and_record w ray_job ns p.name p.dry_run "ray_job_delete" (job_delete_args_summary p)
