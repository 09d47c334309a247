-- ===== src/Object/Meta.antt =====
-- The identity in the metadata, through `readForWrite` and the overlays of Object.antt
-- (internal/domain/cluster_update.go).
use ray_mcp.Prelude.{
  ◌≡◌, ◌∙◌, refl, ap, String, false, Option, none, List, [], ◌∷◌, ◌==◌, Option-cases, inl, inr,
}
use ray_mcp.Json.{Fields, end, get, as_obj, as_str, or_end}
use ray_mcp.Json.Lookup.{get-set, get-delete, get-set_self, get-set_ne}
use ray_mcp.Errors.{Kind}
use ray_mcp.Merge.{nested_value, nested_string, Identity}
use ray_mcp.Merge.Guard.{IsNamed}
use ray_mcp.Object.{with_spec, clean_object, apply_meta_string_map}

-- metadata[j], of any object.
abbrev meta_path : String → List String
meta_path j = "metadata" ∷ j ∷ []

get-end : (k : String) → get k end ≡ none
unfolding get
get-end k = refl

nested-meta :
    (m : Fields) (j : String)
    → nested_string m (meta_path j) ≡ as_str (get j (or_end (as_obj (get "metadata" m))))
unfolding nested_string nested_value as_str as_obj
nested-meta m j = elim (Option-cases (as_obj (get "metadata" m))) [
  | inl e ↦ rw (e, nested_value) (rw get-end)
  | inr (s, e) ↦ rw (e, nested_value)
]

nested-apply_meta_string_map :
    (key j : String) (kv : List (String × String)) (m : Fields)
    → (key == j) ≡ false
    → nested_string (apply_meta_string_map key kv m) (meta_path j) ≡ nested_string m (meta_path j)
unfolding apply_meta_string_map as_obj
nested-apply_meta_string_map key j [] m h = refl
nested-apply_meta_string_map key j (e ∷ kv) m h =
    rw (nested-meta m j, nested-meta (apply_meta_string_map key (e ∷ kv) m) j)
      (rw (get-set_self "metadata") (ap as_str (get-set_ne j key _ _ h)))

nested-with_spec :
    (f : Fields → Fields) (j : String) (m : Fields)
    → nested_string (with_spec f m) (meta_path j) ≡ nested_string m (meta_path j)
nested-with_spec f j m =
    rw (nested-meta m j, nested-meta (with_spec f m) j)
      (ap (λ o. as_str (get j (or_end (as_obj o)))) (get-set_ne "metadata" "spec" _ m refl))

pub clean_object-IsNamed :
    (kind : Kind) (ns name : String) (raw : Option Fields)
    → IsNamed (clean_object kind ns name raw) (record { namespace = ns; name = name })
unfolding clean_object as_obj as_str
clean_object-IsNamed kind ns name raw = record {
  named = rw nested-meta (simp (get-set, get-delete));
  placed = rw nested-meta (simp (get-set, get-delete));
}

pub with_spec-IsNamed :
    (f : Fields → Fields) (m : Fields) (id : Identity) → IsNamed m id → IsNamed (with_spec f m) id
with_spec-IsNamed f m id h = record {
  named = nested-with_spec f "name" m ∙ h.named;
  placed = nested-with_spec f "namespace" m ∙ h.placed;
}

pub labels-IsNamed :
    (kv : List (String × String)) (m : Fields) (id : Identity)
    → IsNamed m id
    → IsNamed (apply_meta_string_map "labels" kv m) id
labels-IsNamed kv m id h = record {
  named = nested-apply_meta_string_map "labels" "name" kv m refl ∙ h.named;
  placed = nested-apply_meta_string_map "labels" "namespace" kv m refl ∙ h.placed;
}

pub annotations-IsNamed :
    (kv : List (String × String)) (m : Fields) (id : Identity)
    → IsNamed m id
    → IsNamed (apply_meta_string_map "annotations" kv m) id
annotations-IsNamed kv m id h = record {
  named = nested-apply_meta_string_map "annotations" "name" kv m refl ∙ h.named;
  placed = nested-apply_meta_string_map "annotations" "namespace" kv m refl ∙ h.placed;
}
