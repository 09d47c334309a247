-- ===== src/Kube/Bases.antt =====
-- The bases of a submitted job and of a deployed service: internal/adapters/kuberay/job_submit.go and
-- service_write.go. The unstructured converter is a parameter; the API version and the kind of an object
-- are constants and are left out.
use Prim.Native.String.{◌++◌}
use ray_mcp.Prelude.{String, Bool, true, Option, none, some, List, [], ◌∷◌, ◌==◌, if◌then◌else◌}
use ray_mcp.Prelude.Text.{quote}
use ray_mcp.Json.{bool, obj, Fields, as_obj, get, set}
use ray_mcp.Errors.{other, Result, ok, err}
use ray_mcp.Job.Submit.{ClusterSubmitSpec, JobSubmitParams}
use ray_mcp.Service.{ServiceDeployParams}
use ray_mcp.Kube.{Converted, fields, unconvertible}
use ray_mcp.Kube.Create.{
  Quantity, Container, WorkerGroupSpec, ◌>>=◌, wrapped, under, ray_container, worker_groups,
}

pub record RayClusterSpec : Type 0 where
  pub ray_version : String
  pub enable_in_tree_autoscaling : Option Bool
  pub head : Container
  pub worker_groups : List WorkerGroupSpec

pub data Target : Type 0 where
  selector : List (String × String) → Target
  ephemeral : RayClusterSpec → Target

pub record RayJobObject : Type 0 where
  pub name : String
  pub namespace : String
  pub entrypoint : String
  pub runtime_env_yaml : String
  pub metadata : List (String × String)
  pub target : Target

pub record RayServiceObject : Type 0 where
  pub name : String
  pub namespace : String
  pub labels : List (String × String)
  pub annotations : List (String × String)
  pub serve_config_v2 : String
  pub ray_cluster_spec : RayClusterSpec

abbrev pub unstructured : String → String → Converted → Result Fields
unstructured kind name (fields base) = ok base
unstructured kind name (unconvertible e) =
    err (wrapped ("convert curated " ++ kind ++ " " ++ quote name ++ " to unstructured") e)

-- `spec["shutdownAfterJobFinishes"]` is written on the map: the typed field would drop a false.
abbrev pub in_spec : String → Fields → Bool → Option Fields → Result Fields
in_spec name base shutdown none =
    err (other ("internal: converted RayJob " ++ quote name ++ " has no spec map"))
in_spec name base shutdown (some spec) =
    ok (set "spec" (obj (set "shutdownAfterJobFinishes" (bool shutdown) spec)) base)

abbrev pub with_shutdown : String → Option Bool → Fields → Result Fields
with_shutdown name none base = ok base
with_shutdown name (some shutdown) base = in_spec name base shutdown (as_obj (get "spec" base))

abbrev pub job_object : JobSubmitParams → Target → RayJobObject
job_object p target = record {
  name = p.name;
  namespace = p.namespace;
  entrypoint = p.entrypoint;
  runtime_env_yaml = p.runtime_env_yaml;
  metadata = p.metadata;
  target = target;
}

module _ (parse : String → Quantity) where
  unfoldable pub ray_cluster_spec : ClusterSubmitSpec → Result RayClusterSpec
  unfolding ray_container worker_groups
  ray_cluster_spec cs = do
    head ← under "head group" (ray_container parse "ray-head" cs.image cs.head_resources)
    groups ← worker_groups parse cs.image cs.worker_groups
    ok (record {
      ray_version = cs.ray_version;
      enable_in_tree_autoscaling = if cs.enable_autoscaling then some true else none;
      head = head;
      worker_groups = groups;
    })

  abbrev pub own_cluster : Option ClusterSubmitSpec → Result Target
  own_cluster none = err (other "internal: BuildJobBase called with no cluster target")
  own_cluster (some cs) = ray_cluster_spec cs >>= λ spec. ok (ephemeral spec)

  unfoldable pub job_target : JobSubmitParams → Result Target
  unfolding ray_cluster_spec
  job_target p =
      if p.existing_cluster == ""
      then own_cluster p.cluster_spec
      else ok (selector (("ray.io/cluster", p.existing_cluster) ∷ []))

  unfoldable pub build_job_base : (RayJobObject → Converted) → JobSubmitParams → Result Fields
  unfolding job_target quote
  build_job_base convert p = do
    target ← job_target p
    base ← unstructured "RayJob" p.name (convert (job_object p target))
    with_shutdown p.name p.shutdown_after_job_finishes base

  unfoldable pub build_service_base :
      (RayServiceObject → Converted) → ServiceDeployParams → Result Fields
  unfolding ray_cluster_spec quote
  build_service_base convert p = do
    spec ← ray_cluster_spec (record {
      ray_version = p.ray_version;
      image = p.image;
      head_resources = p.head_resources;
      worker_groups = p.worker_groups;
      enable_autoscaling = p.enable_autoscaling;
    })
    unstructured "RayService" p.name (
        convert (record {
          name = p.name;
          namespace = p.namespace;
          labels = p.labels;
          annotations = p.annotations;
          serve_config_v2 = p.serve_config_v2;
          ray_cluster_spec = spec;
        }))
