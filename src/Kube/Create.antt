-- ===== src/Kube/Create.antt =====
-- internal/adapters/kuberay/create.go: the typed RayCluster of a create's curated parameters, and the
-- requests of apply.go and delete.go.
--
-- `resource.ParseQuantity` and the unstructured converter are parameters. The API version, the kind and
-- the empty start parameters of an object are constants and are left out.
pub mod Bounds
use Prim.Native.String.{◌++◌ as ◌<+>◌}
use ray_mcp.Prelude.{
  ℕ, String, Bool, true, false, Option, none, some, List, [], ◌∷◌, ◌++◌, ◌==◌, if◌then◌else◌,
}
use ray_mcp.Prelude.Int.{ℤ, ltb_ℤ}
use ray_mcp.Prelude.Text.{quote}
use ray_mcp.Json.{Fields}
use ray_mcp.Errors.{Kind, ray_cluster, kind_text, Error, other, Result, ok, err}
use ray_mcp.Ports.{ApplyOptions}
use ray_mcp.Cluster.{ResourceQuantities, WorkerGroupParams, ClusterCreateParams}
use ray_mcp.Kube.{K8sError, Converted, fields, unconvertible, map_k8s_error}

-- A parsed quantity is its canonical text.
pub data Quantity : Type 0 where
  quantity : String → Quantity
  unparsable : String → Quantity

-- Requests and limits are set alike, so one list stands for both.
pub record Container : Type 0 where
  pub name : String
  pub image : String
  pub resources : List (String × String)

pub record WorkerGroupSpec : Type 0 where
  pub group_name : String
  pub replicas : ℤ
  pub min_replicas : ℤ
  pub max_replicas : ℤ
  pub container : Container

pub record RayClusterObject : Type 0 where
  pub name : String
  pub namespace : String
  pub labels : List (String × String)
  pub annotations : List (String × String)
  pub ray_version : String
  pub enable_in_tree_autoscaling : Option Bool
  pub head : Container
  pub worker_groups : List WorkerGroupSpec

infixl 5 ◌>>=◌
abbrev pub ◌>>=◌ : {A B : Type 0} → Result A → (A → Result B) → Result B
ok a >>= f = f a
err e >>= f = err e

-- An error with a text of `fmt.Errorf` in front.
abbrev pub wrapped : String → String → Error
wrapped prefix e = other (prefix <+> (": " <+> e))

abbrev pub max_ℤ : ℤ → ℤ → ℤ
max_ℤ a b = if ltb_ℤ a b then b else a

unfoldable pub worker_group_spec : WorkerGroupParams → Container → WorkerGroupSpec
worker_group_spec wg container =
    let floor = max_ℤ wg.replicas wg.min_replicas in
    record {
      group_name = wg.name;
      replicas = wg.replicas;
      min_replicas = wg.min_replicas;
      max_replicas = if ltb_ℤ wg.max_replicas floor then floor else wg.max_replicas;
      container = container;
    }

abbrev pub under : {A : Type 0} → String → Result A → Result A
under label (ok a) = ok a
under label (err (other e)) = err (wrapped label e)
under label (err e) = err e

abbrev pub unstructured : String → Converted → Result Fields
unstructured name (fields base) = ok base
unstructured name (unconvertible e) =
    err (wrapped ("convert curated RayCluster " <+> (quote name <+> " to unstructured")) e)

module _ (parse : String → Quantity) where
  abbrev pub parsed_quantity : String → String → String → Quantity → Result (List (String × String))
  parsed_quantity label name value (quantity q) = ok ((name, q) ∷ [])
  parsed_quantity label name value (unparsable e) =
      err (wrapped (label <+> (": invalid quantity " <+> quote value)) e)

  -- `addQuantity` under its caller's label.
  unfoldable pub add_quantity : String → String → String → Result (List (String × String))
  unfolding quote
  add_quantity label name value =
      if value == "" then ok [] else parsed_quantity label name value (parse value)

  unfoldable pub ray_container : String → String → ResourceQuantities → Result Container
  unfolding add_quantity
  ray_container name image r = do
    cpu ← add_quantity "cpu" "cpu" r.cpu
    memory ← add_quantity "memory" "memory" r.memory
    gpu ← add_quantity "gpu" "nvidia.com/gpu" r.gpu
    ok (record { name = name; image = image; resources = cpu ++ (memory ++ gpu) })

  unfoldable pub worker_groups : String → List WorkerGroupParams → Result (List WorkerGroupSpec)
  unfolding ray_container worker_group_spec quote
  worker_groups image [] = ok []
  worker_groups image (wg ∷ wgs) =
      under ("worker group " <+> quote wg.name) (ray_container "ray-worker" image wg.resources)
      >>= λ container.
          worker_groups image wgs >>= λ rest. ok (worker_group_spec wg container ∷ rest)

  unfoldable pub build_typed : ClusterCreateParams → Result RayClusterObject
  unfolding ray_container worker_groups
  build_typed p = do
    head ← under "head group" (ray_container "ray-head" p.image p.head_resources)
    groups ← worker_groups p.image p.worker_groups
    ok (record {
      name = p.name;
      namespace = p.namespace;
      labels = p.labels;
      annotations = p.annotations;
      ray_version = p.ray_version;
      enable_in_tree_autoscaling = if p.enable_autoscaling then some true else none;
      head = head;
      worker_groups = groups;
    })

  unfoldable pub build_cluster_base :
      (RayClusterObject → Converted) → ClusterCreateParams → Result Fields
  unfolding build_typed quote
  build_cluster_base convert p = build_typed p >>= λ rc. unstructured p.name (convert rc)

-- What Apply sends: the object under the names of the call, and the options.
pub record ApplyCall : Type 0 where
  pub kind : Kind
  pub namespace : String
  pub name : String
  pub object : Fields
  pub field_owner : String
  pub dry_run_all : Bool
  pub force_ownership : Bool

unfoldable pub apply_call : Kind → String → String → Fields → ApplyOptions → ApplyCall
apply_call kind namespace name spec opts = record {
  kind = kind;
  namespace = namespace;
  name = name;
  object = spec;
  field_owner = "ray-mcp";
  dry_run_all = opts.dry_run;
  force_ownership = opts.force;
}

abbrev pub apply_verb : Bool → String
apply_verb dry_run = if dry_run then "dry-run apply" else "apply"

-- What the API server answers to an apply or a delete.
pub data Done (A : Type 0) : Type 0 where
  done : A → Done A
  undone : K8sError → Done A

abbrev pub finished : {A : Type 0} → String → Kind → String → String → Done A → Result A
finished verb kind namespace name (done a) = ok a
finished verb kind namespace name (undone e) = err (map_k8s_error e verb kind namespace name)

unfoldable pub apply :
    Option Error
    → (ApplyCall → Done Fields)
    → Kind
    → String
    → String
    → Fields
    → ApplyOptions
    → Result Fields
unfolding apply_call map_k8s_error
apply (some e) send kind namespace name spec opts = err e
apply none send kind namespace name spec opts =
    finished (apply_verb opts.dry_run) kind namespace name
      (send (apply_call kind namespace name spec opts))

-- `send` gets the kind, the namespace, the name and whether it is a dry run.
unfoldable pub delete :
    Option Error
    → (Kind → String → String → Bool → Done (Unit {0}))
    → Kind
    → String
    → String
    → Bool
    → Result (Unit {0})
unfolding map_k8s_error
delete (some e) send kind namespace name dry_run = err e
delete none send kind namespace name dry_run =
    finished (if dry_run then "dry-run delete" else "delete") kind namespace name
      (send kind namespace name dry_run)
