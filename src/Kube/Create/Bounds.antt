-- ===== src/Kube/Create/Bounds.antt =====
-- The worker groups that `BuildClusterBase` of internal/adapters/kuberay/create.go builds.
use Prim.Native.String.{◌++◌}
use ray_mcp.Prelude.Text.{quote}
use mathlib.Core.Path.{subst}
use ray_mcp.Prelude.{◌≡◌, ◌⊎◌, refl, String, List, [], ◌∷◌, arith}
use ray_mcp.Prelude.Int.{◌≤ℤ◌}
use ray_mcp.Errors.{Result, ok, err}
use ray_mcp.Cluster.{WorkerGroupParams, ClusterCreateParams}
use ray_mcp.Kube.Create.{
  Quantity, Container, WorkerGroupSpec, RayClusterObject, ◌>>=◌, under, ray_container,
  worker_group_spec, worker_groups, build_typed,
}

-- The group that was asked for, with a ceiling that is no lower than it may be, and raised only where it must be.
pub record IsBuilt (wg : WorkerGroupParams) (g : WorkerGroupSpec) : Type 0 where
  pub same_name : g.group_name ≡ wg.name
  pub same_replicas : g.replicas ≡ wg.replicas
  pub same_min : g.min_replicas ≡ wg.min_replicas
  pub raised : wg.max_replicas ≤ℤ g.max_replicas
  pub above_replicas : g.replicas ≤ℤ g.max_replicas
  pub above_min : g.min_replicas ≤ℤ g.max_replicas
  pub least :
      (g.max_replicas ≡ wg.max_replicas)
      ⊎ (g.max_replicas ≡ wg.replicas)
      ⊎ (g.max_replicas ≡ wg.min_replicas)

abbrev pub AreBuilt : List WorkerGroupParams → List WorkerGroupSpec → Type 0
AreBuilt [] [] = Unit {0}
AreBuilt [] (g ∷ gs) = ⊥
AreBuilt (wg ∷ wgs) [] = ⊥
AreBuilt (wg ∷ wgs) (g ∷ gs) = IsBuilt wg g × AreBuilt wgs gs

worker_group_spec-IsBuilt :
    (wg : WorkerGroupParams) (c : Container) → IsBuilt wg (worker_group_spec wg c)
unfolding worker_group_spec
worker_group_spec-IsBuilt wg c = record {
  same_name = refl;
  same_replicas = refl;
  same_min = refl;
  raised = ground arith;
  above_replicas = ground arith;
  above_min = ground arith;
  least = ground arith;
}

pub bind-ok :
    {A B : Type 0} (r : Result A) (f : A → Result B) (b : B)
    → (r >>= f) ≡ ok b
    → (a : A) × (r ≡ ok a) × (f a ≡ ok b)
bind-ok (ok a) f b h = (a, refl, h)
bind-ok (err e) f b h = absurd (ground arith)

module _ (parse : String → Quantity) where
  worker_groups-AreBuilt :
      (image : String) (wgs : List WorkerGroupParams) (gs : List WorkerGroupSpec)
      → worker_groups parse image wgs ≡ ok gs
      → AreBuilt wgs gs
  unfolding worker_groups
  worker_groups-AreBuilt image [] [] h = tt
  worker_groups-AreBuilt image [] (g ∷ gs) h = absurd (ground arith)
  worker_groups-AreBuilt image (wg ∷ wgs) gs h =
      let one =
        under ("worker group " ++ quote wg.name)
          (ray_container parse "ray-worker" image wg.resources) in
      let (c, made, h2) = bind-ok one _ gs h in
      let (rest, others, h3) = bind-ok (worker_groups parse image wgs) _ gs h2 in
      let same : worker_group_spec wg c ∷ rest ≡ gs = ground (arith, h3) in
      subst (λ (l : List WorkerGroupSpec). AreBuilt (wg ∷ wgs) l) same
        (worker_group_spec-IsBuilt wg c, worker_groups-AreBuilt image wgs rest others)

  -- Each cluster object that is built from create parameters, however quantities parse, has their
  -- name and namespace and one worker group for each that was asked for, in order, of the same name,
  -- replicas and minReplicas, negative ones too; its maxReplicas is at least the one asked for,
  -- replicas and minReplicas, and is one of these three.
  pub build_typed-AreBuilt :
      (p : ClusterCreateParams) (rc : RayClusterObject)
      → build_typed parse p ≡ ok rc
      → (rc.name ≡ p.name)
        × (rc.namespace ≡ p.namespace)
        × AreBuilt p.worker_groups rc.worker_groups
  unfolding build_typed
  build_typed-AreBuilt p rc h =
      let head = under "head group" (ray_container parse "ray-head" p.image p.head_resources) in
      let (c, made, h2) = bind-ok head _ rc h in
      let (groups, built, h3) = bind-ok (worker_groups parse p.image p.worker_groups) _ rc h2 in
      let same : groups ≡ rc.worker_groups = ground (arith, h3) in
      (
        ground (arith, h3),
        ground (arith, h3),
        subst (λ (l : List WorkerGroupSpec). AreBuilt p.worker_groups l) same
            (worker_groups-AreBuilt p.image p.worker_groups groups built),
      )
