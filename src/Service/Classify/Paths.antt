-- ===== src/Service/Classify/Paths.antt =====
-- The predictions of `classifyServiceUpdate` (internal/domain/service_write.go) by kind of change.
use ray_mcp.Prelude.{◌≡◌, ◌≢◌, ◌⊎◌, ◌∙◌, refl, ap, String, false, none, some, arith, eq_iff}
use ray_mcp.Json.{
  Value, str, obj, Fields, end, get, set, delete, size, as_obj, as_arr, as_str, or_empty,
  IsWfFields, deep_equal,
}
use ray_mcp.Json.Lookup.{get-set_self, get-set_ne, get-IsWf}
use ray_mcp.Merge.{clone_map}
use ray_mcp.Object.{with_groups}
use ray_mcp.Service.Classify.{
  normalize_map, normalize_for_hash, cluster_changed, replicas_or_excluded_changed, classify,
  cluster_config, serve_config, in_place, scale_no_swap, no_change,
}
use ray_mcp.Service.Classify.Normal.{IsBound, normalize_map-set_bound, normal-equal}

config-IsWf :
    (live rcc : Fields) → IsWfFields live → cluster_config live ≡ some rcc → IsWfFields rcc
unfolding as_obj
config-IsWf live rcc h e = get-IsWf "rayClusterConfig" live {v = obj rcc} h (ground (arith, e))

-- Two configs with one normal form are no change of the cluster.
unchanged :
    (live m n : Fields)
    → IsWfFields live
    → cluster_config live ≡ some m
    → normalize_map n ≡ normalize_map m
    → cluster_changed (some m) (some n) ≡ false
unfolding cluster_changed normalize_for_hash
unchanged live m n h e same = rw same (rw (normal-equal m (config-IsWf live m h e)))

-- For a live spec with each key once, a value for replicas, minReplicas or maxReplicas in every
-- worker group, and no other change, is predicted as a scale or as no change, and never as a swap of
-- clusters.
pub classify_bounds :
    (k : String) (v : Value) (live rcc : Fields)
    → IsWfFields live
    → IsBound k
    → cluster_config live ≡ some rcc
    → (classify live (set "rayClusterConfig" (obj (with_groups (set k v) rcc)) live)
        ≡ scale_no_swap)
      ⊎ (classify live (set "rayClusterConfig" (obj (with_groups (set k v) rcc)) live) ≡ no_change)
unfolding classify as_obj
classify_bounds k v live rcc h bound e =
    let next : Fields = with_groups (set k v) rcc in
    let c : cluster_config (set "rayClusterConfig" (obj next) live) ≡ some next =
      ap as_obj (get-set_self _ (obj next) live) in
    let s : serve_config (set "rayClusterConfig" (obj next) live) ≡ serve_config live =
      ap (λ o. or_empty (as_str o)) (get-set_ne _ _ (obj next) live refl) in
    let n : cluster_changed (some rcc) (some next) ≡ false =
      unchanged live rcc next h e (normalize_map-set_bound k v rcc bound) in
    ground (arith, e, c, s, n, eq_iff (serve_config live) (serve_config live))

-- For a live spec with each key once that has a cluster config, a new serve config, and no other
-- change, is predicted to be applied in place.
pub classify-serve_config :
    (c : String) (live rcc : Fields)
    → IsWfFields live
    → cluster_config live ≡ some rcc
    → serve_config live ≢ c
    → classify live (set "serveConfigV2" (str c) live) ≡ in_place
unfolding classify as_str
classify-serve_config c live rcc h e new =
    let d : cluster_config (set "serveConfigV2" (str c) live) ≡ some rcc =
      ap as_obj (get-set_ne _ _ (str c) live refl) ∙ e in
    let s : serve_config (set "serveConfigV2" (str c) live) ≡ c =
      ap (λ o. or_empty (as_str o)) (get-set_self _ (str c) live) in
    ground (arith, unchanged live rcc rcc h e refl, d, s, e, eq_iff (serve_config live) c)

nil_is_empty : cluster_changed none (some end) ≡ false
unfolding cluster_changed normalize_for_hash deep_equal get delete size as_arr as_obj clone_map
nil_is_empty = refl

-- For a live service without a cluster config, an update that only adds an empty one is predicted as
-- a scale.
pub classify_empty_config :
    (live : Fields)
    → cluster_config live ≡ none
    → classify live (set "rayClusterConfig" (obj end) live) ≡ scale_no_swap
unfolding classify as_obj replicas_or_excluded_changed
classify_empty_config live e =
    let c : cluster_config (set "rayClusterConfig" (obj end) live) ≡ some end =
      ap as_obj (get-set_self _ (obj end) live) in
    let s : serve_config (set "rayClusterConfig" (obj end) live) ≡ serve_config live =
      ap (λ o. or_empty (as_str o)) (get-set_ne _ _ (obj end) live refl) in
    ground (arith, nil_is_empty, c, s, e, eq_iff (serve_config live) (serve_config live))
