-- ===== src/Cluster.antt =====
-- internal/domain/cluster_write.go: the RayCluster write service, its create and its delete.
pub mod Update
pub mod Scale
pub mod Retry
pub mod Deletion
use Prim.Native.String.{◌++◌}
use ray_mcp.Prelude.{
  ℕ, suc, String, Bool, true, false, Option, none, some, List, [], ◌∷◌, length, ◌==◌, ltb,
  if◌then◌else◌,
}
use ray_mcp.Prelude.Int.{ℤ, pos}
use ray_mcp.Prelude.Text.{show_nat, show_bool, quote, join}
use ray_mcp.Json.{Fields, end, size, or_end}
use ray_mcp.Errors.{Kind, ray_cluster, Operation, op_delete, Error, other, Result, ok, err}
use ray_mcp.Merge.{Identity, merge}
use ray_mcp.Guards.{is_protected, require_confirm}
use ray_mcp.Types.{ClusterDetail}
use ray_mcp.Ports.{
  Trace, World, M, pure, fail, check, lift, ◌>>=◌, ◌>>◌, get_cluster, kube_delete,
  resolve_namespace,
}
use ray_mcp.Apply.{ApplyRequest, ApplyResult, apply, record_destructive}
use ray_mcp.Diff.{◌<>◌}

pub record ResourceQuantities : Type 0 where
  pub cpu : String
  pub memory : String
  pub gpu : String

pub record WorkerGroupParams : Type 0 where
  pub name : String
  pub replicas : ℤ
  pub min_replicas : ℤ
  pub max_replicas : ℤ
  pub resources : ResourceQuantities

-- A nil RawSpec is the empty map: the code only ranges over it and takes its length.
pub record ClusterCreateParams : Type 0 where
  pub namespace : String
  pub name : String
  pub ray_version : String
  pub image : String
  pub head_resources : ResourceQuantities
  pub worker_groups : List WorkerGroupParams
  pub enable_autoscaling : Bool
  pub labels : List (String × String)
  pub annotations : List (String × String)
  pub raw_spec : Fields
  pub dry_run : Bool

pub record ClusterDeleteParams : Type 0 where
  pub namespace : String
  pub name : String
  pub confirm : String
  pub dry_run : Bool

-- ClusterWriteService: its ports are the `World`, but for the base builder, which is a function.
pub record ClusterWriteService : Type 0 where
  pub build_cluster_base : ClusterCreateParams → Result Fields
  pub default_namespace : String

-- `append(parts, s)` under a condition.
abbrev pub part_if : Bool → String → List String
part_if true s = s ∷ []
part_if false s = []

abbrev pub is_empty : String → Bool
is_empty s = s == ""

abbrev pub not_empty : String → Bool
not_empty s = if s == "" then false else true

abbrev pub has_fields : Fields → Bool
has_fields m = ltb 0 (size m)

unfoldable pub create_args_summary : ClusterCreateParams → String
create_args_summary p = join " " (
    ("name=" ++ p.name)
    ∷ (part_if (not_empty p.image) ("image=" ++ p.image)
        <> (("workerGroups=" ++ show_nat (length p.worker_groups))
            ∷ (part_if p.enable_autoscaling "autoscaling=true"
                <> part_if (has_fields p.raw_spec) "rawSpec=true"))))

unfoldable pub delete_args_summary : ClusterDeleteParams → String
delete_args_summary p = "name=" ++ p.name ++ " dryRun=" ++ show_bool p.dry_run

-- `if name == "" { return fmt.Errorf("name is required") }`
abbrev pub require_name : String → Option Error
require_name name = if name == "" then some (other "name is required") else none

unfoldable pub create : World → ClusterWriteService → ClusterCreateParams → M ApplyResult
create w s p =
    let ns = resolve_namespace s.default_namespace p.namespace in
    let p = record p { namespace = ns } in
    do
      check (require_name p.name)
      base ← lift (s.build_cluster_base p)
      merged ← lift (merge base p.raw_spec (record { namespace = ns; name = p.name }))
      apply w (record {
        kind = ray_cluster;
        namespace = ns;
        name = p.name;
        spec = merged;
        dry_run = p.dry_run;
        force = false;
        tool = "ray_cluster_create";
        args_summary = create_args_summary p;
      })

unfoldable pub protected_error : String → String → String → Error
protected_error kind name how = other (
    "deletion refused: "
    ++ kind
    ++ " "
    ++ quote name
    ++ " is protected (ray-mcp/protected="
    ++ quote "true"
    ++ "); remove the annotation via "
    ++ how
    ++ " first")

-- The call of the Deleter, its audit record, and its error passed on.
unfoldable pub delete_and_record :
    World → Kind → String → String → Bool → String → String → M (Unit {0})
delete_and_record w kind ns name dry_run tool args_summary t =
    let (failed, t') = kube_delete w kind ns name dry_run t in
    check failed (record_destructive w tool kind ns name args_summary dry_run failed t')

unfoldable pub delete : World → ClusterWriteService → ClusterDeleteParams → M (Unit {0})
delete w s p =
    let ns = resolve_namespace s.default_namespace p.namespace in
    let p = record p { namespace = ns } in
    do
      check (require_name p.name)
      detail ← get_cluster w ns p.name
      check (
          if is_protected (or_end detail.raw)
          then some (protected_error "RayCluster" p.name "ray_cluster_update")
          else none)
      check (require_confirm w.digest (or_end detail.raw) op_delete p.confirm)
      delete_and_record w ray_cluster ns p.name p.dry_run "ray_cluster_delete"
          (delete_args_summary p)
