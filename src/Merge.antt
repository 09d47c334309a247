-- ===== src/Merge.antt =====
-- internal/domain/merge.go: the RFC 7396 merge of a rawSpec over a base, and the identity guard.
pub mod Lookup
pub mod Rfc
pub mod Guard
use ray_mcp.Prelude.{String, Bool, true, Option, none, some, List, [], ◌∷◌, ◌==◌, if◌then◌else◌}
use ray_mcp.Json.{
  Value, null, bool, int, float, str, arr, obj, Items, nil, cons, Fields, end, field, get, set,
  delete, as_obj, as_str, or_empty, or_end,
}
use ray_mcp.Errors.{Result, ok, err, identity}

-- The copies are values of the same shape: nothing is shared in this model.
unfoldable mutual
  pub clone_value : Value → Value
  clone_value (obj m) = obj (clone_map m)
  clone_value (arr xs) = arr (clone_items xs)
  clone_value (str s) = str s
  clone_value (int n) = int n
  clone_value (float m k) = float m k
  clone_value (bool b) = bool b
  clone_value null = null

  pub clone_items : Items → Items
  clone_items nil = nil
  clone_items (cons x xs) = cons (clone_value x) (clone_items xs)

  pub clone_map : Fields → Fields
  clone_map end = end
  clone_map (field k v m) = field k (clone_value v) (clone_map m)

-- The loop of `mergePatch` over the patch, and its body for one key and value. A nested patch merges
-- into the target's object at the key, or into a fresh one.
unfoldable mutual
  pub merge_patch : Fields → Fields → Fields
  merge_patch target end = target
  merge_patch target (field k pv patch) = merge_patch (merge_field target k pv) patch

  pub merge_field : Fields → String → Value → Fields
  merge_field target k null = delete k target
  merge_field target k (obj pm) =
      set k (obj (merge_patch (or_end (as_obj (get k target))) pm)) target
  merge_field target k (arr xs) = set k (clone_value (arr xs)) target
  merge_field target k (str s) = set k (clone_value (str s)) target
  merge_field target k (int n) = set k (clone_value (int n)) target
  merge_field target k (float m j) = set k (clone_value (float m j)) target
  merge_field target k (bool b) = set k (clone_value (bool b)) target

-- The walk of `nestedString` along a path, from a value.
unfoldable pub nested_value : Option Value → List String → Option Value
nested_value cur [] = cur
nested_value cur (p ∷ path) = elim (as_obj cur) [
  | none ↦ none
  | some m ↦ nested_value (get p m) path
]

unfoldable pub nested_string : Fields → List String → Option String
unfolding nested_value
nested_string m path = as_str (nested_value (some (obj m)) path)

pub record Identity : Type 0 where
  pub namespace : String
  pub name : String

abbrev pub name_path : List String
name_path = "metadata" ∷ "name" ∷ []

abbrev pub namespace_path : List String
namespace_path = "metadata" ∷ "namespace" ∷ []

unfoldable pub check_identity : Fields → Identity → Result Fields
check_identity merged id =
    let name = or_empty (nested_string merged name_path) in
    let namespace = or_empty (nested_string merged namespace_path) in
    if name == id.name
    then if namespace == id.namespace
      then ok merged
      else err (identity "namespace" id.namespace namespace)
    else err (identity "name" id.name name)

unfoldable pub merge : Fields → Fields → Identity → Result Fields
unfolding check_identity
merge base raw_spec id = check_identity (merge_patch (clone_map base) raw_spec) id
