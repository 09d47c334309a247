-- ===== src/Object/Groups.antt =====
-- The overlays of Object.antt (internal/domain/cluster_update.go) and the worker groups.
use ray_mcp.Prelude.{
  ◌≡◌, ◌∙◌, refl, ap, String, false, Option, none, List, [], ◌∷◌, ◌==◌, nat_eq, Bool-cases,
  Option-cases, inl, inr,
}
use ray_mcp.Json.{
  Value, null, bool, int, float, str, arr, obj, Items, nil, cons, Fields, get, delete, size, as_obj,
  as_arr, or_end, or_nil,
}
use ray_mcp.Json.Lookup.{get-set, get-delete, get-set_ne, get-delete_ne, get-set_self}
use ray_mcp.Errors.{Kind}
use ray_mcp.Merge.Lookup.{clone_map_lem}
use ray_mcp.Object.{
  map_objects, edit_object, with_groups, spec_of, with_spec, strip_group, strip_workers_to_delete,
  clean_object, set_first_container_image, set_cluster_image, apply_meta_string_map,
}

abbrev pub groups_of : Fields → Items
groups_of spec = or_nil (as_arr (get "workerGroupSpecs" spec))

-- What the worker groups hold at a key, group by group.
abbrev pub at_key : String → Value → Option Value
at_key k (obj wg) = get k wg
at_key k _ = none

abbrev pub column : String → Items → List (Option Value)
column k nil = []
column k (cons g gs) = at_key k g ∷ column k gs

-- The same of a whole object: `object.spec.workerGroupSpecs[i].k`, for each i.
abbrev pub worker_column : String → Fields → List (Option Value)
worker_column k object = column k (groups_of (spec_of object))

column-map_objects :
    (k : String) (f : Fields → Fields) (gs : Items)
    → ((wg : Fields) → get k (f wg) ≡ get k wg)
    → column k (map_objects f gs) ≡ column k gs
unfolding map_objects
column-map_objects k f nil h = refl
column-map_objects k f (cons (obj m) gs) h = cc (h m, column-map_objects k f gs h)
column-map_objects k f (cons (arr xs) gs) h = cc (column-map_objects k f gs h)
column-map_objects k f (cons (str s) gs) h = cc (column-map_objects k f gs h)
column-map_objects k f (cons (int n) gs) h = cc (column-map_objects k f gs h)
column-map_objects k f (cons (float m j) gs) h = cc (column-map_objects k f gs h)
column-map_objects k f (cons (bool b) gs) h = cc (column-map_objects k f gs h)
column-map_objects k f (cons null gs) h = cc (column-map_objects k f gs h)

pub groups_of-with_groups :
    (f : Fields → Fields) (spec : Fields)
    → groups_of (with_groups f spec) ≡ map_objects f (groups_of spec)
unfolding with_groups as_arr map_objects
groups_of-with_groups f spec = elim (Option-cases (as_arr (get "workerGroupSpecs" spec))) [
  | inl e ↦ rw (e, with_groups) (rw e)
  | inr (gs, e) ↦ rw (e, with_groups) (rw get-set_self)
]

-- An edit of the groups that keeps a key of each group keeps the column.
pub column-with_groups :
    (k : String) (f : Fields → Fields) (spec : Fields)
    → ((wg : Fields) → get k (f wg) ≡ get k wg)
    → column k (groups_of (with_groups f spec)) ≡ column k (groups_of spec)
column-with_groups k f spec h = rw groups_of-with_groups (column-map_objects k f (groups_of spec) h)

pub get-strip_group :
    (k : String) (wg : Fields) → ("scaleStrategy" == k) ≡ false → get k (strip_group wg) ≡ get k wg
unfolding strip_group
get-strip_group k wg h = elim (Option-cases (as_obj (get "scaleStrategy" wg))) [
  | inl e ↦ rw (e, strip_group)
  | inr (ss, e) ↦ elim (Bool-cases (nat_eq (size (delete "workersToDelete" ss)) 0)) [
    | inl z ↦ rw (e, strip_group, z) (get-delete_ne k "scaleStrategy" wg h)
    | inr z ↦ rw (e, strip_group, z) (get-set_ne k "scaleStrategy" _ wg h)
  ]
]

pub get-edit_object :
    (j k : String) (f : Fields → Fields) (m : Fields)
    → (k == j) ≡ false
    → get j (edit_object k f m) ≡ get j m
unfolding edit_object
get-edit_object j k f m h = elim (Option-cases (as_obj (get k m))) [
  | inl e ↦ rw (e, edit_object)
  | inr (inner, e) ↦ rw (e, edit_object) (get-set_ne j k (obj (f inner)) m h)
]

pub spec_of-clean_object :
    (kind : Kind) (ns name : String) (raw : Option Fields)
    → spec_of (clean_object kind ns name raw) ≡ spec_of (or_end raw)
unfolding clean_object as_obj
spec_of-clean_object kind ns name raw = simp (get-set, get-delete, clone_map_lem)

pub get-set_first_container_image :
    (k image : String) (wg : Fields)
    → ("template" == k) ≡ false
    → get k (set_first_container_image image wg) ≡ get k wg
unfolding set_first_container_image
get-set_first_container_image k image wg h = get-edit_object k "template" _ wg h

-- The image overlay writes below `template` only.
pub column-set_cluster_image :
    (k image : String) (spec : Fields)
    → ("template" == k) ≡ false
    → column k (groups_of (set_cluster_image image spec)) ≡ column k (groups_of spec)
unfolding set_cluster_image
column-set_cluster_image k image spec h =
    column-with_groups k (set_first_container_image image)
      (edit_object "headGroupSpec" (set_first_container_image image) spec)
      (λ wg. get-set_first_container_image k image wg h)
    ∙ ap (λ o. column k (or_nil (as_arr o)))
        (get-edit_object "workerGroupSpecs" "headGroupSpec" _ spec refl)

pub column-strip_workers_to_delete :
    (k : String) (spec : Fields)
    → ("scaleStrategy" == k) ≡ false
    → column k (groups_of (strip_workers_to_delete spec)) ≡ column k (groups_of spec)
unfolding strip_workers_to_delete
column-strip_workers_to_delete k spec h =
    column-with_groups k strip_group spec (λ wg. get-strip_group k wg h)

pub spec_of-with_spec : (f : Fields → Fields) (m : Fields) → spec_of (with_spec f m) ≡ f (spec_of m)
unfolding as_obj
spec_of-with_spec f m = rw get-set_self

-- The metadata overlays do not reach the spec.
pub spec_of-apply_meta_string_map :
    (key : String) (kv : List (String × String)) (m : Fields)
    → spec_of (apply_meta_string_map key kv m) ≡ spec_of m
unfolding apply_meta_string_map
spec_of-apply_meta_string_map key [] m = refl
spec_of-apply_meta_string_map key (e ∷ kv) m = rw get-set_ne
