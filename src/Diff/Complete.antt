-- ===== src/Diff/Complete.antt =====
-- `Diff` (internal/domain/diff.go) against deep equality.
use ray_mcp.Prelude.{
  ℕ, zero, suc, ◌≡◌, ◌≢◌, ◌↔◌, ◌⊎◌, refl, String, true, Option, none, some, List, [], ◌∷◌, arith,
  Bool-cases, Option-cases, inl, inr,
}
use ray_mcp.Json.{
  Value, arr, obj, Items, nil, cons, Fields, get, deep_equal, items_equal, IsWf, IsWfItems,
  IsWfFields,
}
use ray_mcp.Json.Lookup.{get-IsWf}
use ray_mcp.Json.Equal.{Agree, deep_equal-obj_iff}
use ray_mcp.Diff.{
  FieldChange, ◌<>◌, insert_by, sort_by, union_keys, child_path, index_path, walk_key, walk_keys,
  walk_items, descend, walk_diff, diff,
}
use ray_mcp.Diff.Keys.{All, All-union_keys}

abbrev Walk : Type 0
Walk = String → Value → Value → List FieldChange

-- A walk that reports nothing only where the values are equal.
abbrev IsComplete : Walk → Type 0
IsComplete walk =
    (path : String) (b a : Value) → IsWf b → IsWf a → walk path b a ≡ [] → deep_equal b a ≡ true

append-eq-nil {ℓ} : {A : Type ℓ} (xs ys : List A) → xs <> ys ≡ [] → (xs ≡ []) × (ys ≡ [])
append-eq-nil [] ys h = (refl, h)
append-eq-nil (x ∷ xs) ys h = cc

walk_key-nil :
    (walk : Walk) (path : String) (x y : Option Value)
    → IsComplete walk
    → ((v : Value) → x ≡ some v → IsWf v)
    → ((w : Value) → y ≡ some w → IsWf w)
    → walk_key walk path x y ≡ []
    → Agree x y
walk_key-nil walk path none none c hx hy h = tt
walk_key-nil walk path none (some a) c hx hy h = cc
walk_key-nil walk path (some b) none c hx hy h = cc
walk_key-nil walk path (some b) (some a) c hx hy h = c path b a (hx b refl) (hy a refl) h

walk_keys-nil :
    (walk : Walk) (path : String) (m n : Fields) (ks : List String)
    → walk_keys walk path m n ks ≡ []
    → All (λ k. walk_key walk (child_path path k) (get k m) (get k n) ≡ []) ks
unfolding walk_keys
walk_keys-nil walk path m n [] h = tt
walk_keys-nil walk path m n (k ∷ ks) h =
    let (here, rest) =
      append-eq-nil (walk_key walk (child_path path k) (get k m) (get k n))
        (walk_keys walk path m n ks) h in
    (here, walk_keys-nil walk path m n ks rest)

walk_obj-nil :
    (walk : Walk) (path : String) (m n : Fields)
    → IsComplete walk
    → IsWfFields m
    → IsWfFields n
    → walk_keys walk path m n (union_keys m n) ≡ []
    → deep_equal (obj m) (obj n) ≡ true
walk_obj-nil walk path m n c hm hn h = (deep_equal-obj_iff m n hm hn).1 (λ k.
    elim (Option-cases (get k m)) [
      | inr (v, e) ↦ agree k (inl (λ gone. cc (e, gone)))
      | inl e ↦ elim (Option-cases (get k n)) [
        | inr (w, f) ↦ agree k (inr (λ gone. cc (f, gone)))
        | inl f ↦ rw (e, f) tt
      ]
    ])
  where
    agree : (k : String) → (get k m ≢ none) ⊎ (get k n ≢ none) → Agree (get k m) (get k n)
    agree k there =
        walk_key-nil walk (child_path path k) (get k m) (get k n) c (λ v e. get-IsWf k m hm e)
          (λ w e. get-IsWf k n hn e)
          (All-union_keys (λ j. walk_key walk (child_path path j) (get j m) (get j n) ≡ []) m n k
            (walk_keys-nil walk path m n (union_keys m n) h) there)

walk_items-nil :
    (walk : Walk) (path : String) (i : ℕ) (xs ys : Items)
    → IsComplete walk
    → IsWfItems xs
    → IsWfItems ys
    → walk_items walk path i xs ys ≡ []
    → items_equal xs ys ≡ true
unfolding walk_items deep_equal
walk_items-nil walk path i nil nil c hx hy h = refl
walk_items-nil walk path i nil (cons y ys) c hx hy h = cc
walk_items-nil walk path i (cons x xs) nil c hx hy h = cc
walk_items-nil walk path i (cons x xs) (cons y ys) c hx hy h =
    let (here, rest) =
      append-eq-nil (walk (index_path path i) x y) (walk_items walk path (suc i) xs ys) h in
    let same : deep_equal x y ≡ true = c (index_path path i) x y hx.0 hy.0 here in
    rw same (walk_items-nil walk path (suc i) xs ys c hx.1 hy.1 rest)

descend-nil :
    (walk : Walk) (path : String) (b a : Value)
    → IsComplete walk
    → IsWf b
    → IsWf a
    → descend walk path b a ≡ []
    → deep_equal b a ≡ true
unfolding descend
descend-nil walk path (obj m) (obj n) c hb ha h = walk_obj-nil walk path m n c hb ha h
descend-nil walk path (arr xs) (arr ys) c hb ha h =
    unfold deep_equal in walk_items-nil walk path 0 xs ys c hb ha h
descend-nil walk path b a c hb ha h = cc

walk_diff-IsComplete : (levels : ℕ) → IsComplete (walk_diff levels)
unfolding walk_diff
walk_diff-IsComplete zero path b a hb ha h = elim (Bool-cases (deep_equal b a)) [
  | inl e ↦ e
  | inr e ↦ cc (rw e at h)
]
walk_diff-IsComplete (suc levels) path b a hb ha h = elim (Bool-cases (deep_equal b a)) [
  | inl e ↦ e
  | inr e ↦ descend-nil (walk_diff levels) path b a (walk_diff-IsComplete levels) hb ha (rw e at h)
]

walk_diff-equal :
    (levels : ℕ) (path : String) (b a : Value)
    → deep_equal b a ≡ true
    → walk_diff levels path b a ≡ []
unfolding walk_diff
walk_diff-equal zero path b a h = rw h
walk_diff-equal (suc levels) path b a h = rw h

insert_by-ne-nil {ℓ} :
    {A : Type ℓ} (key : A → String) (x : A) (xs : List A) → insert_by key x xs ≢ []
unfolding insert_by
insert_by-ne-nil key x [] h = cc
insert_by-ne-nil key x (y ∷ ys) h = ground arith

sort_by-eq-nil {ℓ} : {A : Type ℓ} (key : A → String) (xs : List A) → sort_by key xs ≡ [] → xs ≡ []
unfolding sort_by
sort_by-eq-nil key [] h = refl
sort_by-eq-nil key (x ∷ xs) h = absurd (insert_by-ne-nil key x (sort_by key xs) h)

-- For objects with each key once, at every collapse depth, the summary of two objects is empty
-- exactly when they are deeply equal.
pub diff-nil_iff :
    (before after : Fields) (max_depth : ℕ)
    → IsWfFields before
    → IsWfFields after
    → (diff before after max_depth ≡ []) ↔ (deep_equal (obj before) (obj after) ≡ true)
unfolding diff sort_by
diff-nil_iff before after max_depth hb ha = (
  λ h. walk_diff-IsComplete max_depth "" (obj before) (obj after) hb ha (sort_by-eq-nil _ _ h),
  λ h. rw (walk_diff-equal max_depth "" (obj before) (obj after) h),
)
