-- ===== src/Service/Classify.antt =====
-- The predictor of internal/domain/service_write.go: `classifyServiceUpdate` and what it compares.
pub mod Normal
pub mod Paths
pub mod Append
use Prim.Native.Char.{Char, code}
use ray_mcp.Prelude.{
  ℕ, suc, String, Bool, true, false, not, ◌&&◌, ◌||◌, zero, Option, none, some, ◌==◌, leb, nat_eq,
  if◌then◌else◌,
}
use ray_mcp.Json.{
  Value, null, bool, int, float, str, arr, obj, Items, nil, cons, Fields, end, get, set, delete,
  size, length, as_obj, as_arr, as_str, or_empty, or_nil, or_end, deep_equal,
}
use ray_mcp.Merge.{clone_map}
use ray_mcp.Object.{edit_object, with_groups, strip_group}

-- template.spec.tolerations and template.spec.schedulingGates.
unfoldable pub zero_pod_exclusions : Fields → Fields
unfolding edit_object
zero_pod_exclusions =
    edit_object "template"
      (edit_object "spec" (λ pod_spec. delete "schedulingGates" (delete "tolerations" pod_spec)))

-- The excluded fields of a worker group.
unfoldable pub normalize_group : Fields → Fields
unfolding strip_group zero_pod_exclusions
normalize_group wg =
    zero_pod_exclusions
      (strip_group (delete "maxReplicas" (delete "minReplicas" (delete "replicas" wg))))

unfoldable pub normalize_map : Fields → Fields
unfolding edit_object with_groups normalize_group
normalize_map rcc =
    delete "upgradeStrategy" (
      with_groups normalize_group (edit_object "headGroupSpec" zero_pod_exclusions (clone_map rcc)))

-- A nil map normalizes to an empty one.
unfoldable pub normalize_for_hash : Option Fields → Fields
unfolding normalize_map
normalize_for_hash none = end
normalize_for_hash (some rcc) = normalize_map rcc

-- reflect.DeepEqual on two maps that may be nil: a nil map and an empty one differ.
abbrev pub maps_equal : Option Fields → Option Fields → Bool
maps_equal none none = true
maps_equal (some m) (some n) = deep_equal (obj m) (obj n)
maps_equal _ _ = false

-- groups[:n]
unfoldable pub take_items : ℕ → Items → Items
take_items n nil = nil
take_items n (cons g gs) = elim n [ zero ↦ nil | suc k ↦ cons g (take_items k gs) ]

abbrev pub config_groups : Option Fields → Items
config_groups rcc = or_nil (as_arr (get "workerGroupSpecs" (or_end rcc)))

unfoldable pub partial_hash_equal : Option Fields → Option Fields → Bool
unfolding take_items
partial_hash_equal live submitted =
    let live_groups = config_groups live in
    let submitted_groups = config_groups submitted in
    let truncated =
      set "workerGroupSpecs" (arr (take_items (length live_groups) submitted_groups))
        (or_end submitted) in
    if leb (length submitted_groups) (length live_groups)
    then false
    else deep_equal (obj (normalize_for_hash live)) (obj (normalize_for_hash (some truncated)))

unfoldable pub upgrade_strategy_type : Fields → String
upgrade_strategy_type spec =
    or_empty (as_str (get "type" (or_end (as_obj (get "upgradeStrategy" spec)))))

-- strings.ToLower(s) == "none": only the letters themselves and their capitals are lowered to these.
abbrev is_letter : ℕ → ℕ → Char → Bool
is_letter lower upper c = nat_eq (code c) lower || nat_eq (code c) upper

unfoldable pub is_none_text : String → Bool
is_none_text (String.◌∷◌ a (String.◌∷◌ b (String.◌∷◌ c (String.◌∷◌ d String.[])))) =
    is_letter b'n' b'N' a && is_letter b'o' b'O' b && is_letter b'n' b'N' c && is_letter b'e' b'E' d
is_none_text _ = false

-- The predictions.
abbrev pub swap_or_no_op : String
swap_or_no_op =
    "zero-downtime-swap, OR no-op if the operator has ENABLE_ZERO_DOWNTIME=false (upgradeStrategy.type=None disables swap; the tool cannot see the operator env)"

abbrev pub swap_predicted : String
swap_predicted =
    "zero-downtime-swap (predicted; operator default enables it, but upgradeStrategy.type is unset — if ENABLE_ZERO_DOWNTIME=false in the operator env, this change is a no-op)"

abbrev pub swap : String
swap = "zero-downtime-swap"

abbrev pub append_in_place : String
append_in_place = "in-place cluster update (worker group added, no swap)"

abbrev pub in_place : String
in_place = "in-place"

abbrev pub scale_no_swap : String
scale_no_swap = "scale (no swap)"

abbrev pub no_change : String
no_change = "no change detected"

unfoldable pub classify_cluster_change : Fields → String
classify_cluster_change spec =
    let strategy = upgrade_strategy_type spec in
    if is_none_text strategy then swap_or_no_op else if strategy == "" then swap_predicted else swap

abbrev pub serve_config : Fields → String
serve_config spec = or_empty (as_str (get "serveConfigV2" spec))

abbrev pub cluster_config : Fields → Option Fields
cluster_config spec = as_obj (get "rayClusterConfig" spec)

unfoldable pub cluster_changed : Option Fields → Option Fields → Bool
cluster_changed live submitted =
    not (deep_equal (obj (normalize_for_hash live)) (obj (normalize_for_hash submitted)))

unfoldable pub replicas_or_excluded_changed : Option Fields → Option Fields → Bool
replicas_or_excluded_changed live submitted = not (maps_equal live submitted)

unfoldable pub classify : Fields → Fields → String
classify live submitted =
    let live_config = cluster_config live in
    let submitted_config = cluster_config submitted in
    if cluster_changed live_config submitted_config
    then if partial_hash_equal live_config submitted_config
      then append_in_place
      else classify_cluster_change submitted
    else if not (serve_config live == serve_config submitted)
    then in_place
    else if replicas_or_excluded_changed live_config submitted_config
    then scale_no_swap
    else no_change

-- `unknown` where one of the two specs is nil.
unfoldable pub classify_service_update : Option Fields → Option Fields → String
classify_service_update (some live) (some submitted) = classify live submitted
classify_service_update _ _ = "unknown"
