-- ===== src/Cluster/Scale.antt =====
-- `Scale` of internal/domain/cluster_update.go.
pub mod Bounds
pub mod Sent
use Prim.Native.String.{◌++◌}
use ray_mcp.Prelude.{
  ℕ, zero, suc, ◌/◌, ◌^◌, String, Bool, true, false, not, ◌&&◌, Option, none, some, List, [], ◌∷◌,
  ◌==◌, is_some, if◌then◌else◌,
}
use ray_mcp.Prelude.Int.{ℤ, pos, negsuc, ltb_ℤ, eqb_ℤ}
use ray_mcp.Prelude.Text.{show_int, quote, join}
use ray_mcp.Json.{
  Value, null, bool, int, float, str, arr, obj, Items, nil, cons, Fields, get, set, as_arr, as_bool,
  or_nil, or_false,
}
use ray_mcp.Errors.{ray_cluster, Error, other, Result, ok, err}
use ray_mcp.Object.{spec_of, with_spec}
use ray_mcp.Ports.{Trace, World, M, pure, check, lift, ◌>>=◌, ◌>>◌, resolve_namespace}
use ray_mcp.Apply.{ApplyRequest, ApplyResult}
use ray_mcp.Diff.{◌<>◌}
use ray_mcp.Cluster.{ClusterWriteService, require_name}
use ray_mcp.Cluster.Retry.{apply_with_conflict_retry}
use ray_mcp.Cluster.Update.{read_for_write}

-- `*int32` is `Option ℤ`.
pub record ClusterScaleParams : Type 0 where
  pub namespace : String
  pub name : String
  pub worker_group : String
  pub replicas : Option ℤ
  pub min_replicas : Option ℤ
  pub max_replicas : Option ℤ
  pub allow_destructive : Bool
  pub dry_run : Bool

abbrev pub neg_ℕ : ℕ → ℤ
neg_ℕ zero = pos 0
neg_ℕ (suc n) = negsuc n

-- `int64(n)` of a float64 drops the fraction; of one beyond the int64 range the result is not modelled.
unfoldable pub int_from_any : Option Value → Option ℤ
int_from_any (some (int n)) = some n
int_from_any (some (float (pos m) k)) = some (pos (m / 2 ^ k))
int_from_any (some (float (negsuc m) k)) = some (neg_ℕ (suc m / 2 ^ k))
int_from_any _ = none

unfoldable pub spec_is_autoscaling : Fields → Bool
spec_is_autoscaling spec = or_false (as_bool (get "enableInTreeAutoscaling" spec))

-- wg["groupName"] == name
abbrev pub is_text : String → Option Value → Bool
is_text s (some (str t)) = t == s
is_text s _ = false

abbrev pub is_group : String → Value → Option Fields
is_group name (obj wg) = if is_text name (get "groupName" wg) then some wg else none
is_group name _ = none

-- The first worker group of that name.
unfoldable pub find_group : String → Items → Option Fields
find_group name nil = none
find_group name (cons g gs) = elim (is_group name g) [
  | some wg ↦ some wg
  | none ↦ find_group name gs
]

-- An edit of that group, through the handle that `findWorkerGroup` returns.
unfoldable pub replace_group : String → Fields → Items → Items
replace_group name wg' nil = nil
replace_group name wg' (cons g gs) = elim (is_group name g) [
  | some wg ↦ cons (obj wg') gs
  | none ↦ cons g (replace_group name wg' gs)
]

abbrev pub groups_of : Fields → Items
groups_of spec = or_nil (as_arr (get "workerGroupSpecs" spec))

unfoldable pub find_worker_group : Fields → String → Result Fields
find_worker_group spec name = elim (find_group name (groups_of spec)) [
  | some wg ↦ ok wg
  | none ↦ err (
      other (
        "worker group "
        ++ quote name
        ++ " not found on the cluster (scale does not create groups; use update/rawSpec to add one)"))
]

abbrev pub set_int : String → Option ℤ → Fields → Fields
set_int k none wg = wg
set_int k (some n) wg = set k (int n) wg

unfoldable pub overlay_bounds : ClusterScaleParams → Fields → Fields
overlay_bounds p wg =
    set_int "maxReplicas" p.max_replicas
      (set_int "minReplicas" p.min_replicas (set_int "replicas" p.replicas wg))

-- A test on a number that may be missing, and on two.
abbrev pub holds : (ℤ → Bool) → Option ℤ → Bool
holds test none = false
holds test (some n) = test n

abbrev pub holds_both : (ℤ → ℤ → Bool) → Option ℤ → Option ℤ → Bool
holds_both test (some m) (some n) = test m n
holds_both test _ _ = false

abbrev pub number : Option ℤ → ℤ
number none = pos 0
number (some n) = n

unfoldable pub validate_worker_bounds : Fields → String → Option Error
validate_worker_bounds wg name =
    let min_r = int_from_any (get "minReplicas" wg) in
    let max_r = int_from_any (get "maxReplicas" wg) in
    let replicas = int_from_any (get "replicas" wg) in
    let group = "worker group " ++ quote name in
    if holds (λ n. ltb_ℤ n (pos 0)) min_r
    then some (other (group ++ ": minReplicas must be >= 0"))
    else if holds (λ n. ltb_ℤ n (pos 0)) max_r
    then some (other (group ++ ": maxReplicas must be >= 0"))
    else if holds_both (λ m n. ltb_ℤ n m) min_r max_r
    then some (
        other (
          group
          ++ ": minReplicas "
          ++ show_int (number min_r)
          ++ " is greater than maxReplicas "
          ++ show_int (number max_r)
          ++ " (KubeRay rejects this)"))
    else if holds_both (λ m n. ltb_ℤ n m) replicas max_r
    then some (
        other (
          group
          ++ ": replicas "
          ++ show_int (number replicas)
          ++ " exceeds maxReplicas "
          ++ show_int (number max_r)
          ++ " (raise maxReplicas, or lower replicas)"))
    else none

abbrev pub int_text : String → Option ℤ → List String
int_text label none = []
int_text label (some n) = (label ++ show_int n) ∷ []

unfoldable pub scale_args_summary : ClusterScaleParams → String
scale_args_summary p = join " " (
    ("name=" ++ p.name)
    ∷ ("group=" ++ p.worker_group)
    ∷ (int_text "replicas=" p.replicas
        <> (int_text "min=" p.min_replicas <> int_text "max=" p.max_replicas)))

abbrev pub is_zero : ℤ → Bool
is_zero n = eqb_ℤ n (pos 0)

-- The refusals of `Scale` before any edit.
unfoldable pub scale_refusal : ClusterScaleParams → Fields → Option Error
scale_refusal p spec =
    if is_some p.replicas && spec_is_autoscaling spec
    then some (
        other (
          "cluster "
          ++ quote p.name
          ++ " autoscales; cannot set replicas directly — set minReplicas/maxReplicas instead (the autoscaler owns the live replica count)"))
    else if holds is_zero p.replicas && not p.allow_destructive
    then some (
        other (
          "scaling worker group "
          ++ quote p.worker_group
          ++ " to zero tears down all its workers and requires --allow-destructive"))
    else none

abbrev pub put_group : String → Fields → Fields → Fields
put_group name wg spec = set "workerGroupSpecs" (arr (replace_group name wg (groups_of spec))) spec

unfoldable pub build : World → String → ClusterScaleParams → M ApplyRequest
build w ns p = do
  object ← read_for_write w ns p.name
  wg ← lift (find_worker_group (spec_of object) p.worker_group)
  check (scale_refusal p (spec_of object))
  check (validate_worker_bounds (overlay_bounds p wg) p.worker_group)
  pure (record {
    kind = ray_cluster;
    namespace = ns;
    name = p.name;
    spec = with_spec (put_group p.worker_group (overlay_bounds p wg)) object;
    dry_run = p.dry_run;
    force = false;
    tool = "ray_cluster_scale";
    args_summary = scale_args_summary p;
  })

unfoldable pub scale : World → ClusterWriteService → ClusterScaleParams → M ApplyResult
scale w s p =
    let ns = resolve_namespace s.default_namespace p.namespace in
    do
      check (require_name p.name)
      check (
          if p.worker_group == ""
          then some (other "workerGroup is required (the worker group to scale)")
          else none)
      apply_with_conflict_retry w (build w ns p)
