-- ===== src/Service/Classify/Normal.antt =====
-- `normalizeForHash` of internal/domain/service_write.go: the normal form of a cluster config.
use ray_mcp.Prelude.{
  suc, ◌≡◌, ◌≢◌, ◌⊎◌, ◌∙◌, refl, sym, ap, String, true, false, none, some, arith, ◌==◌, nat_eq,
  Bool-cases, Option-cases, inl, inr,
}
use ray_mcp.Json.{
  Value, null, bool, int, float, str, arr, obj, Items, nil, cons, Fields, get, set, delete, size,
  length, as_obj, as_arr, IsWfItems, IsWfFields, deep_equal,
}
use ray_mcp.Json.Lookup.{get-set_self, get-set_ne, get-delete_ne, set-IsWf, delete-IsWf, get-IsWf}
use ray_mcp.Json.Edits.{set-set_self, set-set_comm, delete-set_self, delete-set_ne}
use ray_mcp.Json.Equal.{deep_equal_refl}
use ray_mcp.Merge.Lookup.{clone_map_lem}
use ray_mcp.Object.Groups.{get-edit_object}
use ray_mcp.Object.{map_objects, edit_object, with_groups, strip_group}
use ray_mcp.Service.Classify.{zero_pod_exclusions, normalize_group, normalize_map}

-- The fields of a worker group that the comparison skips.
abbrev pub IsBound : String → Type 0
IsBound k = (k ≡ "replicas") ⊎ (k ≡ "minReplicas") ⊎ (k ≡ "maxReplicas")

pub normalize_group-set :
    (k : String) (v : Value) (wg : Fields)
    → IsBound k
    → normalize_group (set k v wg) ≡ normalize_group wg
unfolding normalize_group
normalize_group-set k v wg (inl e) = rw (e, delete-set_self)
normalize_group-set k v wg (inr (inl e)) = rw (e, delete-set_ne, delete-set_self)
normalize_group-set k v wg (inr (inr e)) = rw (e, delete-set_ne, delete-set_ne, delete-set_self)

map_objects-map_objects :
    (f g : Fields → Fields) (xs : Items)
    → ((m : Fields) → g (f m) ≡ g m)
    → map_objects g (map_objects f xs) ≡ map_objects g xs
unfolding map_objects
map_objects-map_objects f g nil h = refl
map_objects-map_objects f g (cons (obj m) xs) h = cc (h m, map_objects-map_objects f g xs h)
map_objects-map_objects f g (cons (arr ys) xs) h = cc (map_objects-map_objects f g xs h)
map_objects-map_objects f g (cons (str s) xs) h = cc (map_objects-map_objects f g xs h)
map_objects-map_objects f g (cons (int n) xs) h = cc (map_objects-map_objects f g xs h)
map_objects-map_objects f g (cons (float m j) xs) h = cc (map_objects-map_objects f g xs h)
map_objects-map_objects f g (cons (bool b) xs) h = cc (map_objects-map_objects f g xs h)
map_objects-map_objects f g (cons null xs) h = cc (map_objects-map_objects f g xs h)

-- The two halves of the normal form, on a map that has groups.
with_groups-some :
    (f : Fields → Fields) (m : Fields) (gs : Items)
    → as_arr (get "workerGroupSpecs" m) ≡ some gs
    → with_groups f m ≡ set "workerGroupSpecs" (arr (map_objects f gs)) m
unfolding with_groups map_objects
with_groups-some f m gs h = rw (h, with_groups)

with_groups-none :
    (f : Fields → Fields) (m : Fields)
    → as_arr (get "workerGroupSpecs" m) ≡ none
    → with_groups f m ≡ m
unfolding with_groups
with_groups-none f m h = rw (h, with_groups)

with_groups-set :
    (f : Fields → Fields) (m : Fields) (gs : Items)
    → with_groups f (set "workerGroupSpecs" (arr gs) m)
      ≡ set "workerGroupSpecs" (arr (map_objects f gs)) m
unfolding as_arr
with_groups-set f m gs =
    with_groups-some f (set "workerGroupSpecs" (arr gs) m) gs
      (ap as_arr (get-set_self _ (arr gs) m))
    ∙ set-set_self "workerGroupSpecs" (arr (map_objects f gs)) (arr gs) m

get-some_obj : (k : String) (m inner : Fields) → as_obj (get k m) ≡ some inner → get k m ≢ none
unfolding as_obj
get-some_obj k m inner h = λ e. absurd (ground (arith, h, e))

get-some_arr : (k : String) (m : Fields) (gs : Items) → as_arr (get k m) ≡ some gs → get k m ≢ none
unfolding as_arr
get-some_arr k m gs h = λ e. absurd (ground (arith, h, e))

edit_object-set :
    (j k : String) (f : Fields → Fields) (v : Value) (m : Fields)
    → (k == j) ≡ false
    → get k m ≢ none
    → edit_object j f (set k v m) ≡ set k v (edit_object j f m)
unfolding edit_object
edit_object-set j k f v m h there = elim (Option-cases (as_obj (get j m))) [
  | inl e ↦ rw (edit_object, get-set_ne j k v m h, e, edit_object)
  | inr (inner, e) ↦
      rw (edit_object, get-set_ne j k v m h, e, edit_object)
        (sym (set-set_comm j k v (obj (f inner)) m h there))
]

-- The normal form of a config, without the clone.
normal : Fields → Fields
normal rcc =
    delete "upgradeStrategy"
      (with_groups normalize_group (edit_object "headGroupSpec" zero_pod_exclusions rcc))

normalize_map-normal : (rcc : Fields) → normalize_map rcc ≡ normal rcc
unfolding normalize_map normal
normalize_map-normal rcc = rw clone_map_lem

normal-set_bound :
    (k : String) (v : Value) (rcc : Fields) (gs : Items)
    → IsBound k
    → as_arr (get "workerGroupSpecs" rcc) ≡ some gs
    → normal (set "workerGroupSpecs" (arr (map_objects (set k v) gs)) rcc) ≡ normal rcc
unfolding normal
normal-set_bound k v rcc gs bound e =
    let m : Fields = edit_object "headGroupSpec" zero_pod_exclusions rcc in
    let g : as_arr (get "workerGroupSpecs" m) ≡ some gs =
      ap as_arr (get-edit_object "workerGroupSpecs" "headGroupSpec" zero_pod_exclusions rcc refl)
      ∙ e in
    ap (λ x. delete "upgradeStrategy" (with_groups normalize_group x))
      (edit_object-set "headGroupSpec" "workerGroupSpecs" zero_pod_exclusions
        (arr (map_objects (set k v) gs)) rcc refl (get-some_arr _ rcc gs e))
    ∙ ap (delete "upgradeStrategy") (
        with_groups-set normalize_group m (map_objects (set k v) gs)
        ∙ ap (λ x. set "workerGroupSpecs" (arr x) m)
            (map_objects-map_objects (set k v) normalize_group gs
              (λ wg. normalize_group-set k v wg bound))
        ∙ sym (with_groups-some normalize_group m gs g))

-- The normal form is the same after a write of a bound to every group.
pub normalize_map-set_bound :
    (k : String) (v : Value) (rcc : Fields)
    → IsBound k
    → normalize_map (with_groups (set k v) rcc) ≡ normalize_map rcc
normalize_map-set_bound k v rcc bound = elim (Option-cases (as_arr (get "workerGroupSpecs" rcc))) [
  | inl e ↦ ap normalize_map (with_groups-none (set k v) rcc e)
  | inr (gs, e) ↦
      normalize_map-normal _
      ∙ ap normal (with_groups-some (set k v) rcc gs e)
      ∙ normal-set_bound k v rcc gs bound e
      ∙ sym (normalize_map-normal rcc)
]

as_obj-IsWf :
    (k : String) (m inner : Fields)
    → IsWfFields m
    → as_obj (get k m) ≡ some inner
    → IsWfFields inner
unfolding as_obj
as_obj-IsWf k m inner h e = get-IsWf k m {v = obj inner} h (ground (arith, e))

as_arr-IsWf :
    (k : String) (m : Fields) (xs : Items)
    → IsWfFields m
    → as_arr (get k m) ≡ some xs
    → IsWfItems xs
unfolding as_arr
as_arr-IsWf k m xs h e = get-IsWf k m {v = arr xs} h (ground (arith, e))

edit_object-IsWf :
    (k : String) (f : Fields → Fields) (m : Fields)
    → ((n : Fields) → IsWfFields n → IsWfFields (f n))
    → IsWfFields m
    → IsWfFields (edit_object k f m)
unfolding edit_object
edit_object-IsWf k f m hf h = elim (Option-cases (as_obj (get k m))) [
  | inl e ↦ rw (edit_object, e, edit_object) h
  | inr (inner, e) ↦
      rw (edit_object, e, edit_object)
        (set-IsWf k (obj (f inner)) m (hf inner (as_obj-IsWf k m inner h e)) h)
]

map_objects-IsWf :
    (f : Fields → Fields) (xs : Items)
    → ((n : Fields) → IsWfFields n → IsWfFields (f n))
    → IsWfItems xs
    → IsWfItems (map_objects f xs)
unfolding map_objects
map_objects-IsWf f nil hf h = tt
map_objects-IsWf f (cons (obj m) xs) hf (hm, h) = (hf m hm, map_objects-IsWf f xs hf h)
map_objects-IsWf f (cons (arr ys) xs) hf (hm, h) = (hm, map_objects-IsWf f xs hf h)
map_objects-IsWf f (cons (str s) xs) hf (hm, h) = (tt, map_objects-IsWf f xs hf h)
map_objects-IsWf f (cons (int n) xs) hf (hm, h) = (tt, map_objects-IsWf f xs hf h)
map_objects-IsWf f (cons (float m j) xs) hf (hm, h) = (tt, map_objects-IsWf f xs hf h)
map_objects-IsWf f (cons (bool b) xs) hf (hm, h) = (tt, map_objects-IsWf f xs hf h)
map_objects-IsWf f (cons null xs) hf (hm, h) = (tt, map_objects-IsWf f xs hf h)

with_groups-IsWf :
    (f : Fields → Fields) (m : Fields)
    → ((n : Fields) → IsWfFields n → IsWfFields (f n))
    → IsWfFields m
    → IsWfFields (with_groups f m)
with_groups-IsWf f m hf h = elim (Option-cases (as_arr (get "workerGroupSpecs" m))) [
  | inl e ↦ rw (with_groups-none f m e) h
  | inr (gs, e) ↦
      rw (with_groups-some f m gs e) (
        set-IsWf _ (arr (map_objects f gs)) m (map_objects-IsWf f gs hf (as_arr-IsWf _ m gs h e)) h)
]

strip_group-IsWf : (wg : Fields) → IsWfFields wg → IsWfFields (strip_group wg)
unfolding strip_group
strip_group-IsWf wg h = elim (Option-cases (as_obj (get "scaleStrategy" wg))) [
  | inl e ↦ rw (strip_group, e, strip_group) h
  | inr (ss, e) ↦ elim (Bool-cases (nat_eq (size (delete "workersToDelete" ss)) 0)) [
    | inl z ↦ rw (strip_group, e, strip_group, z) (delete-IsWf _ wg h)
    | inr z ↦
        rw (strip_group, e, strip_group, z)
          (set-IsWf _ (obj (delete "workersToDelete" ss)) wg
            (delete-IsWf _ ss (as_obj-IsWf _ wg ss h e)) h)
  ]
]

zero_pod_exclusions-IsWf : (m : Fields) → IsWfFields m → IsWfFields (zero_pod_exclusions m)
unfolding zero_pod_exclusions
zero_pod_exclusions-IsWf m h =
    edit_object-IsWf _ _ m
      (λ n hn. edit_object-IsWf _ _ n (λ pod hp. delete-IsWf _ _ (delete-IsWf _ pod hp)) hn) h

normalize_group-IsWf : (wg : Fields) → IsWfFields wg → IsWfFields (normalize_group wg)
unfolding normalize_group
normalize_group-IsWf wg h =
    zero_pod_exclusions-IsWf _
      (strip_group-IsWf _ (delete-IsWf _ _ (delete-IsWf _ _ (delete-IsWf _ wg h))))

pub normalize_map-IsWf : (rcc : Fields) → IsWfFields rcc → IsWfFields (normalize_map rcc)
unfolding normal
normalize_map-IsWf rcc h = rw normalize_map-normal (
    delete-IsWf _ _ (
      with_groups-IsWf _ _ normalize_group-IsWf
        (edit_object-IsWf _ _ rcc zero_pod_exclusions-IsWf h)))

-- A config compares equal with itself in its normal form.
pub normal-equal :
    (rcc : Fields)
    → IsWfFields rcc
    → deep_equal (obj (normalize_map rcc)) (obj (normalize_map rcc)) ≡ true
normal-equal rcc h = deep_equal_refl (obj (normalize_map rcc)) (normalize_map-IsWf rcc h)

-- The groups of the normal form, one for each group.
pub get-normalize_map :
    (rcc : Fields) (gs : Items)
    → as_arr (get "workerGroupSpecs" rcc) ≡ some gs
    → get "workerGroupSpecs" (normalize_map rcc) ≡ some (arr (map_objects normalize_group gs))
unfolding normal
get-normalize_map rcc gs e =
    let m : Fields = edit_object "headGroupSpec" zero_pod_exclusions rcc in
    let g : as_arr (get "workerGroupSpecs" m) ≡ some gs =
      ap as_arr (get-edit_object "workerGroupSpecs" "headGroupSpec" zero_pod_exclusions rcc refl)
      ∙ e in
    ap (get "workerGroupSpecs") (normalize_map-normal rcc)
    ∙ get-delete_ne "workerGroupSpecs" "upgradeStrategy" (with_groups normalize_group m) refl
    ∙ ap (get "workerGroupSpecs") (with_groups-some normalize_group m gs g)
    ∙ get-set_self "workerGroupSpecs" (arr (map_objects normalize_group gs)) m

pub length-map_objects : (f : Fields → Fields) (xs : Items) → length (map_objects f xs) ≡ length xs
unfolding map_objects length
length-map_objects f nil = refl
length-map_objects f (cons (obj m) xs) = ap suc (length-map_objects f xs)
length-map_objects f (cons (arr ys) xs) = ap suc (length-map_objects f xs)
length-map_objects f (cons (str s) xs) = ap suc (length-map_objects f xs)
length-map_objects f (cons (int n) xs) = ap suc (length-map_objects f xs)
length-map_objects f (cons (float m j) xs) = ap suc (length-map_objects f xs)
length-map_objects f (cons (bool b) xs) = ap suc (length-map_objects f xs)
length-map_objects f (cons null xs) = ap suc (length-map_objects f xs)
