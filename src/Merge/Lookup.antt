-- ===== src/Merge/Lookup.antt =====
-- `mergePatch` (internal/domain/merge.go) key by key: what a merged map holds.
use mathlib.Core.Path.{subst, ap₂, sym}
use ray_mcp.Prelude.{
  ◌≡◌, refl, ap, String, Option, none, some, ◌==◌, eq_iff, if◌then◌else◌, Bool-cases, inl, inr,
}
use ray_mcp.Json.{
  Value, null, bool, int, float, str, arr, obj, Items, nil, cons, Fields, end, field, get, as_obj,
  or_end, IsWf, IsWfFields,
}
use ray_mcp.Json.Lookup.{get-set, get-delete, set-IsWf, delete-IsWf, get-IsWf}
use ray_mcp.Merge.{clone_value, clone_items, clone_map, merge_patch, merge_field}

mutual
  unfolding clone_value

  clone_value-eq : (v : Value) → clone_value v ≡ v
  clone_value-eq (obj m) = ap obj (clone_map-eq m)
  clone_value-eq (arr xs) = ap arr (clone_items-eq xs)
  clone_value-eq (str s) = refl
  clone_value-eq (int n) = refl
  clone_value-eq (float m k) = refl
  clone_value-eq (bool b) = refl
  clone_value-eq null = refl

  clone_items-eq : (xs : Items) → clone_items xs ≡ xs
  clone_items-eq nil = refl
  clone_items-eq (cons x xs) = ap₂ cons (clone_value-eq x) (clone_items-eq xs)

  clone_map-eq : (m : Fields) → clone_map m ≡ m
  clone_map-eq end = refl
  clone_map-eq (field k v m) = ap₂ (field k) (clone_value-eq v) (clone_map-eq m)

-- A clone is an equal value.
pub clone_value_lem : (v : Value) → clone_value v ≡ v
clone_value_lem v = clone_value-eq v

pub clone_map_lem : (m : Fields) → clone_map m ≡ m
clone_map_lem m = clone_map-eq m

-- What one patch value makes of what the target holds.
abbrev pub patched : Option Value → Value → Option Value
patched old null = none
patched old (obj pm) = some (obj (merge_patch (or_end (as_obj old)) pm))
patched old (arr xs) = some (arr xs)
patched old (str s) = some (str s)
patched old (int n) = some (int n)
patched old (float m k) = some (float m k)
patched old (bool b) = some (bool b)

abbrev pub patched_by : Option Value → Option Value → Option Value
patched_by old none = old
patched_by old (some pv) = patched old pv

get-merge_field :
    (j k : String) (t : Fields) (pv : Value)
    → get j (merge_field t k pv) ≡ (if k == j then patched (get k t) pv else get j t)
unfolding merge_patch
get-merge_field j k t null = get-delete j k t
get-merge_field j k t (obj pm) = get-set j k _ t
get-merge_field j k t (arr xs) = rw clone_value_lem (get-set j k _ t)
get-merge_field j k t (str s) = rw clone_value_lem (get-set j k _ t)
get-merge_field j k t (int n) = rw clone_value_lem (get-set j k _ t)
get-merge_field j k t (float m i) = rw clone_value_lem (get-set j k _ t)
get-merge_field j k t (bool b) = rw clone_value_lem (get-set j k _ t)

-- Each key of the merged map depends on that key alone, of the target and of the patch.
pub get-merge_patch :
    (j : String) (t p : Fields)
    → IsWfFields p
    → get j (merge_patch t p) ≡ patched_by (get j t) (get j p)
unfolding merge_patch get
get-merge_patch j t end h = refl
get-merge_patch j t (field k pv p) (fresh, hv, h) = elim (Bool-cases (k == j)) [
  | inl e ↦
      rw (e, get-merge_patch j (merge_field t k pv) p h)
        (rw (subst (λ i. get i p ≡ none) ((eq_iff k j).0 e) fresh, get-merge_field)
          (rw e (
            subst (λ i. patched (get i t) pv ≡ patched (get j t) pv) (sym ((eq_iff k j).0 e))
              refl)))
  | inr e ↦ rw (e, get-merge_patch j (merge_field t k pv) p h) (rw (get-merge_field j k t pv, e))
]

pub obj-IsWf :
    (o : Option Value) → ((v : Value) → o ≡ some v → IsWf v) → IsWfFields (or_end (as_obj o))
unfolding as_obj
obj-IsWf none h = tt
obj-IsWf (some (obj m)) h = h (obj m) refl
obj-IsWf (some _) h = tt

mutual
  unfolding merge_patch

  merge_patch-wf : (t p : Fields) → IsWfFields t → IsWfFields p → IsWfFields (merge_patch t p)
  merge_patch-wf t end ht hp = ht
  merge_patch-wf t (field k pv p) ht (fresh, hv, hp) =
      merge_patch-wf (merge_field t k pv) p (merge_field-wf t k pv ht hv) hp

  merge_field-wf :
      (t : Fields) (k : String) (pv : Value)
      → IsWfFields t
      → IsWf pv
      → IsWfFields (merge_field t k pv)
  merge_field-wf t k null ht hv = delete-IsWf k t ht
  merge_field-wf t k (obj pm) ht hv =
      set-IsWf k _ t (merge_patch-wf _ pm (obj-IsWf (get k t) (λ v e. get-IsWf k t ht e)) hv) ht
  merge_field-wf t k (arr xs) ht hv = set-IsWf k _ t (rw clone_value_lem hv) ht
  merge_field-wf t k (str s) ht hv = set-IsWf k (clone_value (str s)) t (rw clone_value_lem tt) ht
  merge_field-wf t k (int n) ht hv = set-IsWf k (clone_value (int n)) t (rw clone_value_lem tt) ht
  merge_field-wf t k (float m j) ht hv =
      set-IsWf k (clone_value (float m j)) t (rw clone_value_lem tt) ht
  merge_field-wf t k (bool b) ht hv = set-IsWf k (clone_value (bool b)) t (rw clone_value_lem tt) ht

-- A merge keeps each key once.
pub merge_patch-IsWf : (t p : Fields) → IsWfFields t → IsWfFields p → IsWfFields (merge_patch t p)
merge_patch-IsWf t p ht hp = merge_patch-wf t p ht hp
