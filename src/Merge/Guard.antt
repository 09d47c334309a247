-- ===== src/Merge/Guard.antt =====
-- The identity guard of `Merge` (internal/domain/merge.go).
use ray_mcp.Prelude.{◌≡◌, ◌≢◌, ap, ◌∙◌, String, some, [], ◌∷◌, arith, eq_iff, eq_refl}
use ray_mcp.Json.{obj, str, Fields, as_str, or_empty, IsWfFields}
use ray_mcp.Errors.{ok, err, identity}
use ray_mcp.Merge.{
  merge_patch, nested_value, nested_string, Identity, name_path, namespace_path, check_identity,
  merge,
}
use ray_mcp.Merge.Lookup.{clone_map_lem}
use ray_mcp.Merge.Rfc.{Untouched, merge_patch-Untouched, merge_patch-wins}

-- The object carries the identity.
pub record IsNamed (m : Fields) (id : Identity) : Type 0 where
  pub named : nested_string m name_path ≡ some id.name
  pub placed : nested_string m namespace_path ≡ some id.namespace

merge-check :
    (base raw : Fields) (id : Identity)
    → merge base raw id ≡ check_identity (merge_patch base raw) id
unfolding merge
merge-check base raw id = rw clone_map_lem

check-named : (m : Fields) (id : Identity) → IsNamed m id → check_identity m id ≡ ok m
unfolding check_identity
check-named m id h = rw (h.named, h.placed) (rw (eq_refl id.name, eq_refl id.namespace))

check_identity-ok :
    (m : Fields) (id : Identity) {r : Fields}
    → check_identity m id ≡ ok r
    → (r ≡ m)
      × (or_empty (nested_string m name_path) ≡ id.name)
      × (or_empty (nested_string m namespace_path) ≡ id.namespace)
unfolding check_identity
check_identity-ok m id h = ground (
  arith,
  eq_iff (or_empty (nested_string m name_path)) id.name,
  eq_iff (or_empty (nested_string m namespace_path)) id.namespace,
)

-- A merge that succeeds is the base with the rawSpec patched over it, and it carries the name and
-- the namespace of the call, whatever the rawSpec says.
pub merge-ok :
    (base raw : Fields) (id : Identity) {m : Fields}
    → merge base raw id ≡ ok m
    → (m ≡ merge_patch base raw)
      × (or_empty (nested_string m name_path) ≡ id.name)
      × (or_empty (nested_string m namespace_path) ≡ id.namespace)
merge-ok base raw id {m = m} h =
    let (e, n, s) = check_identity-ok (merge_patch base raw) id (rw merge-check at h) in
    (e, rw e n, rw e s)

nested_string-Untouched :
    (t p : Fields) (k j : String)
    → IsWfFields p
    → Untouched p (k ∷ j ∷ [])
    → nested_string (merge_patch t p) (k ∷ j ∷ []) ≡ nested_string t (k ∷ j ∷ [])
unfolding nested_string
nested_string-Untouched t p k j wf u = ap as_str (merge_patch-Untouched t p (k ∷ j ∷ []) wf u)

-- A rawSpec with each key once that reaches neither metadata.name nor metadata.namespace is accepted
-- over every base of that identity, and the result is the patched base.
pub merge-accepts :
    (base raw : Fields) (id : Identity)
    → IsWfFields raw
    → IsNamed base id
    → Untouched raw name_path
    → Untouched raw namespace_path
    → merge base raw id ≡ ok (merge_patch base raw)
merge-accepts base raw id wf h un us =
    merge-check base raw id
    ∙ check-named (merge_patch base raw) id (record {
      named = nested_string-Untouched base raw "metadata" "name" wf un ∙ h.named;
      placed = nested_string-Untouched base raw "metadata" "namespace" wf us ∙ h.placed;
    })

check-named_other :
    (m : Fields) (id : Identity) (s : String)
    → nested_string m name_path ≡ some s
    → s ≢ id.name
    → check_identity m id ≡ err (identity "name" id.name s)
unfolding check_identity
check-named_other m id s e ne = rw e (ground (arith, eq_iff s id.name))

-- A rawSpec with each key once whose metadata.name is another text than the name of the call is
-- refused, over every base, with an identity error that has both names.
pub merge-refuses_retarget :
    (base raw : Fields) (id : Identity) (s : String)
    → IsWfFields raw
    → nested_value (some (obj raw)) name_path ≡ some (str s)
    → s ≢ id.name
    → merge base raw id ≡ err (identity "name" id.name s)
unfolding nested_string as_str
merge-refuses_retarget base raw id s wf e ne =
    merge-check base raw id
    ∙ check-named_other (merge_patch base raw) id s
        (ap as_str (merge_patch-wins base raw "metadata" ("name" ∷ []) (str s) wf e tt)) ne
