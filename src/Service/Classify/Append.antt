-- ===== src/Service/Classify/Append.antt =====
-- `partialHashEqual` of internal/domain/service_write.go: new worker groups behind the live ones.
use ray_mcp.Prelude.{
  suc, ◌+◌, ◌≡◌, ◌∙◌, refl, ap, true, false, some, arith, leb, and-true, Bool-cases, inl, inr,
}
use ray_mcp.Json.{
  Value, arr, obj, Items, nil, cons, Fields, get, set, length, as_arr, or_nil, IsWfItems,
  IsWfFields, deep_equal, items_equal,
}
use ray_mcp.Json.Lookup.{get-set_self, set-IsWf, get-IsWf}
use ray_mcp.Json.Edits.{set-set_self, set_same}
use ray_mcp.Json.Equal.{deep_equal-obj_iff}
use ray_mcp.Object.{map_objects}
use ray_mcp.Service.Classify.{
  normalize_group, normalize_map, normalize_for_hash, take_items, partial_hash_equal,
  cluster_changed, classify, cluster_config, config_groups, append_in_place,
}
use ray_mcp.Service.Classify.Normal.{
  normal-equal, normalize_map-IsWf, get-normalize_map, length-map_objects,
}

pub items_append : Items → Items → Items
items_append nil ys = ys
items_append (cons x xs) ys = cons x (items_append xs ys)

take_items-append : (xs ys : Items) → take_items (length xs) (items_append xs ys) ≡ xs
unfolding take_items length items_append
take_items-append nil nil = refl
take_items-append nil (cons y ys) = refl
take_items-append (cons x xs) ys = ap (cons x) (take_items-append xs ys)

length-append : (xs ys : Items) → length (items_append xs ys) ≡ length xs + length ys
unfolding length items_append
length-append nil ys = omega arith
length-append (cons x xs) ys = omega (arith, length-append xs ys)

append-IsWf : (xs ys : Items) → IsWfItems xs → IsWfItems ys → IsWfItems (items_append xs ys)
unfolding items_append
append-IsWf nil ys hx hy = hy
append-IsWf (cons x xs) ys (h, hx) hy = (h, append-IsWf xs ys hx hy)

items_equal-length : (xs ys : Items) → items_equal xs ys ≡ true → length xs ≡ length ys
unfolding deep_equal length
items_equal-length nil nil h = refl
items_equal-length nil (cons y ys) h = ground (arith, h)
items_equal-length (cons x xs) nil h = ground (arith, h)
items_equal-length (cons x xs) (cons y ys) h = ap suc (items_equal-length xs ys (and-true _ _ h).1)

module _ (rcc : Fields) (gs : Items) (g : Value) (extra : Items) where
  abbrev longer : Fields
  longer = set "workerGroupSpecs" (arr (items_append gs (cons g extra))) rcc

  module _ (h : IsWfFields rcc) (groups : get "workerGroupSpecs" rcc ≡ some (arr gs))
      (hg : IsWfItems (cons g extra)) where
    longer-IsWf : IsWfFields longer
    longer-IsWf =
        set-IsWf _ (arr (items_append gs (cons g extra))) rcc
          (append-IsWf gs (cons g extra) (get-IsWf "workerGroupSpecs" rcc {v = arr gs} h groups) hg)
          h

    normal_differs : deep_equal (obj (normalize_map rcc)) (obj (normalize_map longer)) ≡ false
    unfolding deep_equal as_arr length
    normal_differs =
        elim (Bool-cases (deep_equal (obj (normalize_map rcc)) (obj (normalize_map longer)))) [
          | inr differ ↦ differ
          | inl equal ↦
              let all = items_append gs (cons g extra) in
              let agree =
                (deep_equal-obj_iff (normalize_map rcc) (normalize_map longer)
                    (normalize_map-IsWf rcc h) (normalize_map-IsWf longer longer-IsWf)).0
                  equal "workerGroupSpecs" in
              let same : items_equal (map_objects normalize_group gs)
                    (map_objects normalize_group all)
                  ≡ true =
                rw
                  (
                    get-normalize_map rcc gs (ap as_arr groups),
                    get-normalize_map longer all (ap as_arr (get-set_self _ (arr all) rcc)),
                  )
                  at agree in
              absurd (
                omega (
                  arith,
                  items_equal-length (map_objects normalize_group gs)
                      (map_objects normalize_group all) same,
                  length-map_objects normalize_group gs,
                  length-map_objects normalize_group all,
                  length-append gs (cons g extra),
                ))
        ]

    partial_equal : partial_hash_equal (some rcc) (some longer) ≡ true
    unfolding partial_hash_equal normalize_for_hash as_arr length
    partial_equal =
        let all : Items = items_append gs (cons g extra) in
        let a : config_groups (some rcc) ≡ gs = ap (λ o. or_nil (as_arr o)) groups in
        let b : config_groups (some longer) ≡ all =
          ap (λ o. or_nil (as_arr o)) (get-set_self _ (arr all) rcc) in
        let c : set "workerGroupSpecs" (arr gs) longer ≡ rcc =
          set-set_self _ (arr gs) (arr all) rcc ∙ set_same _ (arr gs) rcc groups in
        let more : leb (length all) (length gs) ≡ false =
          ground (arith, length-append gs (cons g extra)) in
        rw (partial_hash_equal, a, b, more, take_items-append gs (cons g extra), c)
          (normal-equal rcc h)

-- For a config with each key once, worker groups that are added behind the live ones, each key once
-- too, with no other change of the cluster config, are predicted to be taken up by the running
-- cluster.
pub classify_append :
    (live rcc : Fields) (gs : Items) (g : Value) (extra : Items)
    → IsWfFields rcc
    → cluster_config live ≡ some rcc
    → get "workerGroupSpecs" rcc ≡ some (arr gs)
    → IsWfItems (cons g extra)
    → (submitted : Fields)
    → cluster_config submitted
      ≡ some (set "workerGroupSpecs" (arr (items_append gs (cons g extra))) rcc)
    → classify live submitted ≡ append_in_place
unfolding classify cluster_changed normalize_for_hash
classify_append live rcc gs g extra h e groups hg submitted f =
    let changed = normal_differs rcc gs g extra h groups hg in
    let partial = partial_equal rcc gs g extra h groups hg in rw (classify, e, f, changed, partial)
