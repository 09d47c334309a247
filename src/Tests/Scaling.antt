-- ===== src/Tests/Scaling.antt =====
-- Examples of scales.
use ray_mcp.Prelude.{◌≡◌, refl, true, false, none, some, []}
use ray_mcp.Prelude.Int.{ℤ, pos, negsuc}
use ray_mcp.Json.{Value, int, Fields, get}
use ray_mcp.Errors.{ray_cluster, ok}
use ray_mcp.Object.{spec_of, with_spec}
use ray_mcp.Apply.{ApplyRequest}
use ray_mcp.Cluster.Update.Laws.{read_object}
use ray_mcp.Cluster.Scale.{
  ClusterScaleParams, spec_is_autoscaling, find_group, groups_of, overlay_bounds,
  validate_worker_bounds, scale_refusal, scale_args_summary, put_group, build,
}
use ray_mcp.Cluster.Scale.Bounds.{InBounds}
use ray_mcp.Cluster.Scale.Sent.{scale-InBounds, scale_respects_policy, scale_accepts_negative}
use ray_mcp.Tests.{group_small, cluster_spec, cluster_detail, toy}

abbrev params : ℤ → ClusterScaleParams
params n = record {
  namespace = "team";
  name = "demo";
  worker_group = "small";
  replicas = some n;
  min_replicas = none;
  max_replicas = none;
  allow_destructive = false;
  dry_run = false;
}

abbrev sent : ApplyRequest
sent = record {
  kind = ray_cluster;
  namespace = "team";
  name = "demo";
  spec =
      with_spec (put_group "small" (overlay_bounds (params (pos 3)) group_small))
        (read_object "team" "demo" cluster_detail);
  dry_run = false;
  force = false;
  tool = "ray_cluster_scale";
  args_summary = scale_args_summary (params (pos 3));
}

built : (build toy "team" (params (pos 3)) []).0 ≡ ok sent
unfolding build ray_mcp.Cluster.Update.read_for_write ray_mcp.Cluster.Scale.find_worker_group
    find_group ray_mcp.Json.as_arr get ray_mcp.Json.as_obj ray_mcp.Json.set
    ray_mcp.Object.clean_object ray_mcp.Json.delete ray_mcp.Merge.clone_map
    ray_mcp.Object.strip_workers_to_delete ray_mcp.Object.with_groups ray_mcp.Object.strip_group
    scale_refusal spec_is_autoscaling ray_mcp.Json.as_bool ray_mcp.Cluster.Scale.int_from_any
    overlay_bounds ray_mcp.Cluster.Scale.replace_group validate_worker_bounds ray_mcp.Json.size
    ray_mcp.Object.clean_meta ray_mcp.Object.create_object ray_mcp.Object.delete_all
    ray_mcp.Object.map_objects
built = refl

scale-InBounds_example :
    (wg : Fields) × (find_group "small" (groups_of (spec_of sent.spec)) ≡ some wg) × InBounds wg
scale-InBounds_example =
    scale-InBounds toy "team" (params (pos 3)) [] cluster_detail sent refl built

scale_respects_policy_example :
    (spec_is_autoscaling (spec_of (read_object "team" "demo" cluster_detail)) ≡ false)
    × (pos 3 ≡ pos 0 → false ≡ true)
scale_respects_policy_example =
    scale_respects_policy toy "team" (params (pos 3)) [] cluster_detail sent refl built (pos 3) refl

scale_accepts_negative_example :
    (scale_refusal (params (negsuc 0)) cluster_spec ≡ none)
    × (validate_worker_bounds (overlay_bounds (params (negsuc 0)) group_small) "small" ≡ none)
    × (get "replicas" (overlay_bounds (params (negsuc 0)) group_small) ≡ some (int (negsuc 0)))
unfolding spec_is_autoscaling ray_mcp.Json.as_bool get validate_worker_bounds
    ray_mcp.Cluster.Scale.int_from_any
scale_accepts_negative_example =
    scale_accepts_negative (params (negsuc 0)) cluster_spec group_small 0 refl refl refl refl refl
