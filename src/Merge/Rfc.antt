-- ===== src/Merge/Rfc.antt =====
-- `mergePatch` (internal/domain/merge.go) against RFC 7396, read at whole paths.
use mathlib.Core.Path.{subst}
use mathlib.Core.Option.{some-injective}
use ray_mcp.Prelude.{
  ◌≡◌, ◌∙◌, ◌⊎◌, refl, String, true, Option, none, some, List, [], ◌∷◌, ◌==◌, Bool-cases, inl, inr,
}
use ray_mcp.Json.{
  Value, null, bool, int, float, str, arr, obj, Fields, end, field, get, as_obj, or_end, deep_equal,
  IsWf, IsWfFields,
}
use ray_mcp.Json.Lookup.{get-IsWf}
use ray_mcp.Json.Equal.{Agree, deep_equal-obj_iff, deep_equal_refl}
use ray_mcp.Merge.{merge_patch, nested_value}
use ray_mcp.Merge.Lookup.{patched, patched_by, get-merge_patch, merge_patch-IsWf, obj-IsWf}

-- The patch does not reach the value at the path: a key on the way is not in the patch.
abbrev pub Untouched : Fields → List String → Type 0
Untouched p [] = ⊥
Untouched p (k ∷ path) =
    (get k p ≡ none) ⊎ ((pm : Fields) × (get k p ≡ some (obj pm)) × Untouched pm path)

nested_end : (path : List String) (k : String) → nested_value (some (obj end)) (k ∷ path) ≡ none
unfolding nested_value as_obj get
nested_end [] k = refl
nested_end (j ∷ path) k = refl

nested_none : (path : List String) → nested_value none path ≡ none
unfolding nested_value as_obj
nested_none [] = refl
nested_none (k ∷ path) = refl

-- Below a value that is no object there is nothing.
nested_old :
    (o : Option Value) (k : String) (path : List String)
    → nested_value (some (obj (or_end (as_obj o)))) (k ∷ path) ≡ nested_value o (k ∷ path)
unfolding nested_value as_obj get
nested_old none k path = nested_none path
nested_old (some (obj m)) k path = refl
nested_old (some null) k path = nested_none path
nested_old (some (bool b)) k path = nested_none path
nested_old (some (int n)) k path = nested_none path
nested_old (some (float m j)) k path = nested_none path
nested_old (some (str s)) k path = nested_none path
nested_old (some (arr xs)) k path = nested_none path

nested-cons :
    (m : Fields) (k : String) (path : List String)
    → nested_value (some (obj m)) (k ∷ path) ≡ nested_value (get k m) path
unfolding nested_value as_obj
nested-cons m k path = refl

-- For a patch with each key once, a path that the patch does not reach has the same value after the
-- merge, at any depth: fields that no type of the program knows survive.
pub merge_patch-Untouched :
    (t p : Fields) (path : List String)
    → IsWfFields p
    → Untouched p path
    → nested_value (some (obj (merge_patch t p))) path ≡ nested_value (some (obj t)) path
unfolding as_obj
merge_patch-Untouched t p [] wf h = absurd h
merge_patch-Untouched t p (k ∷ path) wf (inl e) =
    rw (nested-cons (merge_patch t p), nested-cons t) (rw (get-merge_patch k t p wf, e))
merge_patch-Untouched t p (k ∷ []) wf (inr (pm, e, h)) = absurd h
merge_patch-Untouched t p (k ∷ j ∷ path) wf (inr (pm, e, h)) =
    rw (nested-cons (merge_patch t p), nested-cons t, get-merge_patch k t p wf, e)
      (merge_patch-Untouched (or_end (as_obj (get k t))) pm (j ∷ path) (get-IsWf k p wf e) h
        ∙ nested_old (get k t) j path)

-- A value that is no object: a scalar or an array, and `null`.
abbrev pub IsLeaf : Value → Type 0
IsLeaf (obj m) = ⊥
IsLeaf _ = Unit

-- What a leaf of the patch leaves at its place: itself, or nothing where it is `null`.
abbrev pub written : Value → Option Value
written null = none
written v = some v

patched-leaf : (old : Option Value) (v : Value) → IsLeaf v → patched old v ≡ written v
patched-leaf old (obj m) h = absurd h
patched-leaf old null h = refl
patched-leaf old _ h = refl

nested_step :
    (o : Option Value) (j : String) (path : List String) {v : Value}
    → nested_value o (j ∷ path) ≡ some v
    → (m : Fields) × (o ≡ some (obj m))
unfolding nested_value as_obj
nested_step (some (obj m)) j path e = (m, refl)
nested_step none j path e = cc
nested_step (some null) j path e = cc
nested_step (some (bool b)) j path e = cc
nested_step (some (int n)) j path e = cc
nested_step (some (float m k)) j path e = cc
nested_step (some (str s)) j path e = cc
nested_step (some (arr xs)) j path e = cc

-- For a patch with each key once, a scalar or an array of the patch stands whole at its path after
-- the merge, and a null of the patch has removed what was there.
pub merge_patch-wins :
    (t p : Fields) (k : String) (path : List String) (v : Value)
    → IsWfFields p
    → nested_value (some (obj p)) (k ∷ path) ≡ some v
    → IsLeaf v
    → nested_value (some (obj (merge_patch t p))) (k ∷ path) ≡ written v
unfolding as_obj
merge_patch-wins t p k [] v wf e leaf =
    unfold nested_value in rw (get-merge_patch k t p wf, e) (patched-leaf (get k t) v leaf)
merge_patch-wins t p k (j ∷ path) v wf e leaf =
    let e' : nested_value (get k p) (j ∷ path) ≡ some v = rw nested-cons at e in
    let (pm, q) = nested_step (get k p) j path e' in
    rw (nested-cons (merge_patch t p), get-merge_patch k t p wf, q)
      (merge_patch-wins (or_end (as_obj (get k t))) pm j path v (get-IsWf k p wf q) (rw q at e')
        leaf)

-- Merging a patch twice is merging it once.
mutual
  unfolding get as_obj

  again :
      (v : Value) (old : Option Value)
      → IsWf v
      → ((w : Value) → old ≡ some w → IsWf w)
      → Agree (patched (patched old v) v) (patched old v)
  again null old h ho = tt
  again (obj pm) old h ho =
      let t : Fields = or_end (as_obj old) in
      let ht : IsWfFields t = obj-IsWf old ho in
      let once : IsWfFields (merge_patch t pm) = merge_patch-IsWf t pm ht h in
      (deep_equal-obj_iff _ _ (merge_patch-IsWf (merge_patch t pm) pm once h) once).1 (λ k.
        rw (get-merge_patch k (merge_patch t pm) pm h, get-merge_patch k t pm h)
          (again_at pm k (get k t) h (λ w e. get-IsWf k t ht e)))
  again (arr xs) old h ho = deep_equal_refl (arr xs) h
  again (str s) old h ho = deep_equal_refl (str s) h
  again (int n) old h ho = deep_equal_refl (int n) h
  again (float m k) old h ho = deep_equal_refl (float m k) h
  again (bool b) old h ho = deep_equal_refl (bool b) h

  again_at :
      (p : Fields) (k : String) (old : Option Value)
      → IsWfFields p
      → ((w : Value) → old ≡ some w → IsWf w)
      → Agree (patched_by (patched_by old (get k p)) (get k p)) (patched_by old (get k p))
  again_at end k none h ho = tt
  again_at end k (some w) h ho = deep_equal_refl w (ho w refl)
  again_at (field j v p) k old h ho = elim (Bool-cases (j == k)) [
    | inl e ↦ rw e (again v old h.1 ho)
    | inr e ↦ rw e (again_at p k old h.2 ho)
  ]

-- For maps with each key once, merging the same patch a second time gives a deeply equal map.
pub merge_patch-merge_patch :
    (t p : Fields)
    → IsWfFields t
    → IsWfFields p
    → deep_equal (obj (merge_patch (merge_patch t p) p)) (obj (merge_patch t p)) ≡ true
unfolding as_obj
merge_patch-merge_patch t p ht hp =
    again (obj p) (some (obj t)) hp (λ w e. subst IsWf (some-injective (obj t) w e) ht)
