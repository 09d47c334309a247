-- ===== src/Tests/Writing.antt =====
-- Examples of applies, and of updates with their retry.
use ray_mcp.Prelude.{suc, ◌≡◌, ◌⊎◌, refl, true, false, some, [], ◌∷◌, arith, inl, inr}
use ray_mcp.Json.{Value, null, str, obj, Fields, field, end, get, or_end, or_empty, IsWfFields}
use ray_mcp.Errors.{ray_cluster, other, ok, err}
use ray_mcp.Merge.{merge_patch, nested_string, name_path, namespace_path}
use ray_mcp.Guards.{is_protected}
use ray_mcp.Object.Groups.{worker_column}
use ray_mcp.Apply.{ApplyRequest, ApplyResult, outcome, apply}
use ray_mcp.Apply.Laws.{writes, validated, writes-apply}
use ray_mcp.Cluster.Retry.{apply_with_conflict_retry}
use ray_mcp.Cluster.Retry.Laws.{forces, Conflicted, forced_only_after_conflict}
use ray_mcp.Cluster.Update.{ClusterUpdateParams, overlay, update_args_summary, build, update}
use ray_mcp.Cluster.Update.Laws.{build-IsRead, read_object, update_keeps_groups}
use ray_mcp.Cluster.Update.Protection.{update_accepted, update_unprotects}
use ray_mcp.Cluster.Update.Calls.{Called, persisting}
use ray_mcp.Cluster.{ClusterWriteService}
use ray_mcp.Ports.{World}
use ray_mcp.Tests.{one, ne_of, meta, cluster_spec, live_cluster, cluster_detail, toy}

abbrev request : ApplyRequest
request = record {
  kind = ray_cluster;
  namespace = "team";
  name = "demo";
  spec = live_cluster;
  dry_run = false;
  force = false;
  tool = "ray_cluster_create";
  args_summary = "name=demo";
}

abbrev applied_once : ApplyResult
applied_once = outcome request false live_cluster

writes-apply_example :
    (writes (apply toy request []).1 ≡ writes [])
    ⊎ ((writes (apply toy request []).1 ≡ suc (writes []))
        × (request.dry_run ≡ false)
        × ((object : Fields) × (validated toy request [] ≡ ok object)))
writes-apply_example = writes-apply toy request []

-- An update of the version whose rawSpec lifts the protection.
abbrev raw : Fields
raw = one "metadata" (obj (one "annotations" (obj (one "ray-mcp/protected" null))))

abbrev params : ClusterUpdateParams
params = record {
  namespace = "team";
  name = "demo";
  image = "ray:2.9.1";
  ray_version = "2.9.1";
  enable_autoscaling = some true;
  labels = ("app", "x") ∷ [];
  annotations = [];
  raw_spec = raw;
  dry_run = false;
}

raw-IsWf : IsWfFields raw
unfolding get
raw-IsWf = ground arith

abbrev sent : ApplyRequest
sent = record {
  kind = ray_cluster;
  namespace = "team";
  name = "demo";
  spec = merge_patch (overlay params (read_object "team" "demo" cluster_detail)) raw;
  dry_run = false;
  force = false;
  tool = "ray_cluster_update";
  args_summary = update_args_summary params;
}

built : (build toy "team" params []).0 ≡ ok sent
unfolding get
built =
    update_accepted toy "team" params [] cluster_detail raw-IsWf
      (inr (one "annotations" (obj (one "ray-mcp/protected" null)), refl, inl refl))
      (inr (one "annotations" (obj (one "ray-mcp/protected" null)), refl, inl refl)) refl

update_accepted_example : (build toy "team" params []).0 ≡ ok sent
unfolding get
update_accepted_example =
    update_accepted toy "team" params [] cluster_detail raw-IsWf
      (inr (one "annotations" (obj (one "ray-mcp/protected" null)), refl, inl refl))
      (inr (one "annotations" (obj (one "ray-mcp/protected" null)), refl, inl refl)) refl

update_keeps_groups_example :
    worker_column "replicas" sent.spec ≡ worker_column "replicas" (or_end cluster_detail.raw)
unfolding get
update_keeps_groups_example =
    update_keeps_groups toy "team" "replicas" params [] cluster_detail sent raw-IsWf (inl refl) refl
      refl refl built

-- The cluster, protected, and a server that takes every apply.
abbrev guarded : Fields
guarded =
    field "metadata" (obj (field "annotations" (obj (one "ray-mcp/protected" (str "true"))) meta))
      (one "spec" (obj cluster_spec))

guarded-protected : is_protected guarded ≡ true
unfolding get is_protected ray_mcp.Guards.annotation
guarded-protected = refl

abbrev open_world : World
open_world = record toy {
  on_get_cluster = λ t ns name. ok (record cluster_detail { raw = some guarded });
  on_apply = λ t k ns name spec opts. ok spec;
}

abbrev writer : ClusterWriteService
writer = record { build_cluster_base = λ p. err (other "no base"); default_namespace = "team" }

update_unprotects_example :
    (spec : Fields) × (is_protected spec ≡ false)
    × Called (persisting "team" "demo" spec) (update open_world writer params []).1
unfolding get ray_mcp.Merge.nested_value ray_mcp.Json.as_obj ray_mcp.Ports.resolve_namespace
update_unprotects_example =
    update_unprotects open_world writer params [] (record cluster_detail { raw = some guarded })
      null (λ e. absurd (ne_of "demo" "" refl e)) refl raw-IsWf
      (inr (one "annotations" (obj (one "ray-mcp/protected" null)), refl, inl refl))
      (inr (one "annotations" (obj (one "ray-mcp/protected" null)), refl, inl refl)) refl tt
      (λ e. ground (arith, e)) refl (λ spec. (spec, refl))

forced_only_after_conflict_example :
    (forces (apply_with_conflict_retry toy (build toy "team" params) []).1 ≡ forces [])
    ⊎ Conflicted toy (build toy "team" params) []
forced_only_after_conflict_example =
    forced_only_after_conflict toy (build toy "team" params) (build-IsRead toy "team" params) []
