-- ===== src/Object.antt =====
-- The map edits of internal/domain/cluster_update.go and service_write.go: `readForWrite` and the
-- overlays on a live object.
--
-- The code edits maps in place inside a clone that nobody else holds (`cloneMap`), and keeps handles to
-- the inner maps. Here an edit returns the new map, and an edit through a handle (`spec`, a worker
-- group) is an edit of the object at that place: `with_spec`, `with_groups`.
pub mod Groups
pub mod Meta
use ray_mcp.Prelude.{
  ℕ, String, Bool, true, false, Option, none, some, List, [], ◌∷◌, ◌==◌, nat_eq, if◌then◌else◌,
}
use ray_mcp.Json.{
  Value, null, bool, int, float, str, arr, obj, Items, nil, cons, Fields, end, field, get, set,
  delete, size, as_obj, as_arr, as_str, or_end, or_nil,
}
use ray_mcp.Errors.{Kind, kind_text}
use ray_mcp.Merge.{clone_map}

-- Applies an edit to each element that is a map.
unfoldable pub map_objects : (Fields → Fields) → Items → Items
map_objects f nil = nil
map_objects f (cons (obj m) xs) = cons (obj (f m)) (map_objects f xs)
map_objects f (cons (arr ys) xs) = cons (arr ys) (map_objects f xs)
map_objects f (cons (str s) xs) = cons (str s) (map_objects f xs)
map_objects f (cons (int n) xs) = cons (int n) (map_objects f xs)
map_objects f (cons (float m k) xs) = cons (float m k) (map_objects f xs)
map_objects f (cons (bool b) xs) = cons (bool b) (map_objects f xs)
map_objects f (cons null xs) = cons null (map_objects f xs)

-- Edits the map at a key, where there is one.
unfoldable pub edit_object : String → (Fields → Fields) → Fields → Fields
edit_object k f m = elim (as_obj (get k m)) [ none ↦ m | some inner ↦ set k (obj (f inner)) m ]

-- Edits the map at a key, a fresh one where there is none: `if m == nil { m = map[string]any{} }`.
unfoldable pub create_object : String → (Fields → Fields) → Fields → Fields
create_object k f m = set k (obj (f (or_end (as_obj (get k m))))) m

-- Each worker group that is a map.
unfoldable pub with_groups : (Fields → Fields) → Fields → Fields
unfolding map_objects
with_groups f spec = elim (as_arr (get "workerGroupSpecs" spec)) [
  | none ↦ spec
  | some groups ↦ set "workerGroupSpecs" (arr (map_objects f groups)) spec
]

-- `spec` of an object that `readForWrite` returned.
abbrev pub spec_of : Fields → Fields
spec_of object = or_end (as_obj (get "spec" object))

abbrev pub with_spec : (Fields → Fields) → Fields → Fields
with_spec f object = set "spec" (obj (f (spec_of object))) object

-- The loop of `stripWorkersToDelete` on one group.
unfoldable pub strip_group : Fields → Fields
strip_group wg = elim (as_obj (get "scaleStrategy" wg)) [
  | none ↦ wg
  | some ss ↦
      let rest = delete "workersToDelete" ss in
      if nat_eq (size rest) 0 then delete "scaleStrategy" wg else set "scaleStrategy" (obj rest) wg
]

unfoldable pub strip_workers_to_delete : Fields → Fields
strip_workers_to_delete = with_groups strip_group

unfoldable pub delete_all : List String → Fields → Fields
delete_all [] m = m
delete_all (k ∷ ks) m = delete_all ks (delete k m)

abbrev pub server_fields : List String
server_fields =
    "managedFields" ∷ "resourceVersion" ∷ "uid" ∷ "creationTimestamp" ∷ "generation" ∷ "selfLink"
    ∷ []

-- The metadata of `readForWrite`: without the server's fields, at the identity of the call.
unfoldable pub clean_meta : String → String → Fields → Fields
unfolding delete_all
clean_meta namespace name meta =
    set "namespace" (str namespace) (set "name" (str name) (delete_all server_fields meta))

-- `readForWrite` on the object that was read, without the last step of the cluster's.
unfoldable pub clean_object : Kind → String → String → Option Fields → Fields
unfolding clean_meta create_object
clean_object kind namespace name raw =
    let o = delete "status" (clone_map (or_end raw)) in
    let o = set "kind" (str (kind_text kind)) (set "apiVersion" (str "ray.io/v1") o) in
    create_object "spec" (λ s. s) (create_object "metadata" (clean_meta namespace name) o)

-- `containers[0]["image"] = image`, where the first container is a map.
unfoldable pub first_image : String → Items → Items
first_image image (cons (obj c) xs) = cons (obj (set "image" (str image) c)) xs
first_image image xs = xs

unfoldable pub set_containers : String → Fields → Fields
unfolding first_image
set_containers image pod_spec = elim (as_arr (get "containers" pod_spec)) [
  | none ↦ pod_spec
  | some containers ↦ set "containers" (arr (first_image image containers)) pod_spec
]

unfoldable pub set_first_container_image : String → Fields → Fields
unfolding set_containers edit_object
set_first_container_image image = edit_object "template" (edit_object "spec" (set_containers image))

unfoldable pub set_cluster_image : String → Fields → Fields
unfolding edit_object with_groups
set_cluster_image image spec =
    with_groups (set_first_container_image image)
      (edit_object "headGroupSpec" (set_first_container_image image) spec)

-- `dst[k] = v` for each entry. A Go map gives them in any order, each key once.
unfoldable pub set_strings : List (String × String) → Fields → Fields
set_strings [] dst = dst
set_strings ((k, v) ∷ kv) dst = set_strings kv (set k (str v) dst)

unfoldable pub apply_meta_string_map : String → List (String × String) → Fields → Fields
unfolding create_object set_strings
apply_meta_string_map key [] object = object
apply_meta_string_map key (e ∷ kv) object =
    create_object "metadata" (create_object key (set_strings (e ∷ kv))) object
