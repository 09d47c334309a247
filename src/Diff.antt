-- ===== src/Diff.antt =====
-- internal/domain/diff.go: the field-level summary of a change.
--
-- `walk_diff` counts down the levels that are left to descend (`maxDepth - depth` in the code), so its
-- recursion is structural. A nil of Go's `any` is the JSON `null`. `count_changes` adds up the keys of
-- the first map and then the keys that only the second has; the code adds the same numbers in the
-- order of the sorted union.
pub mod Keys
pub mod Complete
pub mod Order
use Prim.Native.Nat.{Ordering}
use Prim.Native.String.{compare, ◌++◌}
use ray_mcp.Prelude.{
  ℕ, zero, suc, ◌+◌, String, Bool, true, false, Option, none, some, List, [], ◌∷◌, ◌==◌, ltb,
  if◌then◌else◌, is_some,
}
use ray_mcp.Prelude.Text.{show_nat}
use ray_mcp.Json.{
  Value, null, bool, int, float, str, arr, obj, Items, nil, cons, Fields, end, field, get,
  deep_equal,
}

pub data ChangeKind : Type 0 where
  modified added removed subtree : ChangeKind

pub record FieldChange : Type 0 where
  pub path : String
  pub kind : ChangeKind
  pub old : Value
  pub new : Value
  pub field_count : ℕ

abbrev pub default_diff_max_depth : ℕ
default_diff_max_depth = 4

infixr 60 ◌<>◌
abbrev pub ◌<>◌ {ℓ} : {A : Type ℓ} → List A → List A → List A
[] <> ys = ys
(x ∷ xs) <> ys = x ∷ (xs <> ys)

-- DiffResult.FieldCount
change_count : FieldChange → ℕ
change_count c = elim c.kind [
  | subtree ↦ c.field_count
  | _ ↦ if ltb 0 c.field_count then c.field_count else 1
]

unfoldable pub field_count : List FieldChange → ℕ
unfolding change_count
field_count [] = 0
field_count (c ∷ cs) = change_count c + field_count cs

unfoldable pub is_composite : Value → Bool
is_composite (obj m) = true
is_composite (arr xs) = true
is_composite _ = false

unfoldable pub scalar_of : Value → Value
unfolding is_composite
scalar_of v = if is_composite v then null else v

unfoldable mutual
  pub count_leaves : Value → ℕ
  count_leaves (obj m) = leaves_of_fields m
  count_leaves (arr xs) = leaves_of_items xs
  count_leaves null = 1
  count_leaves (bool b) = 1
  count_leaves (int n) = 1
  count_leaves (float m k) = 1
  count_leaves (str s) = 1

  pub leaves_of_items : Items → ℕ
  leaves_of_items nil = 0
  leaves_of_items (cons x xs) = count_leaves x + leaves_of_items xs

  pub leaves_of_fields : Fields → ℕ
  leaves_of_fields end = 0
  leaves_of_fields (field k v m) = count_leaves v + leaves_of_fields m

-- The leaves under the keys that only the second map has.
unfoldable pub count_added : Fields → Fields → ℕ
count_added m end = 0
count_added m (field k v n) = (if is_some (get k m) then 0 else count_leaves v) + count_added m n

unfoldable mutual
  pub count_changes : Value → Value → ℕ
  count_changes (obj m) (obj n) =
      if deep_equal (obj m) (obj n) then 0 else count_fields m n + count_added m n
  count_changes (arr xs) (arr ys) = if deep_equal (arr xs) (arr ys) then 0 else count_items xs ys
  count_changes b a = if deep_equal b a then 0 else 1

  pub count_fields : Fields → Fields → ℕ
  count_fields end n = 0
  count_fields (field k v m) n =
      elim (get k n) [ none ↦ count_leaves v | some w ↦ count_changes v w ] + count_fields m n

  pub count_items : Items → Items → ℕ
  count_items nil ys = leaves_of_items ys
  count_items (cons x xs) nil = count_leaves x + count_items xs nil
  count_items (cons x xs) (cons y ys) = count_changes x y + count_items xs ys

-- sort.Strings, and the stable sort by path: Go compares the bytes, which is the order of the texts.
abbrev pub str_leb : String → String → Bool
str_leb s t = elim (compare s t) [ Ordering.gt ↦ false | _ ↦ true ]

unfoldable pub insert_by {ℓ} : {A : Type ℓ} → (A → String) → A → List A → List A
insert_by key x [] = x ∷ []
insert_by key x (y ∷ ys) = if str_leb (key x) (key y) then x ∷ y ∷ ys else y ∷ insert_by key x ys

unfoldable pub sort_by {ℓ} : {A : Type ℓ} → (A → String) → List A → List A
unfolding insert_by
sort_by key [] = []
sort_by key (x ∷ xs) = insert_by key x (sort_by key xs)

unfoldable pub keys : Fields → List String
keys end = []
keys (field k v m) = k ∷ keys m

-- The keys of the second map that the first does not have.
unfoldable pub new_keys : Fields → Fields → List String
new_keys m end = []
new_keys m (field k v n) = let rest = new_keys m n in if is_some (get k m) then rest else k ∷ rest

unfoldable pub union_keys : Fields → Fields → List String
union_keys m n = sort_by (λ k. k) (keys m <> new_keys m n)

unfoldable pub child_path : String → String → String
child_path parent key = if parent == "" then key else parent ++ "." ++ key

unfoldable pub index_path : String → ℕ → String
index_path parent i = parent ++ "[" ++ show_nat i ++ "]"

abbrev pub presence : String → ChangeKind → Value → ℕ → FieldChange
presence path added scalar n = record {
  path = path;
  kind = added;
  old = null;
  new = scalar;
  field_count = n;
}
presence path kind scalar n = record {
  path = path;
  kind = kind;
  old = scalar;
  new = null;
  field_count = n;
}

unfoldable pub emit_presence : String → ChangeKind → Value → FieldChange
unfolding is_composite count_leaves
emit_presence path kind v =
    if is_composite v then presence path kind null (count_leaves v) else presence path kind v 0

abbrev pub collapsed : String → Value → Value → FieldChange
collapsed path b a = record {
  path = path;
  kind = subtree;
  old = null;
  new = null;
  field_count = count_changes b a;
}

unfoldable pub leaf_change : String → Value → Value → FieldChange
unfolding is_composite scalar_of
leaf_change path b a = record {
  path = path;
  kind = modified;
  old = scalar_of b;
  new = scalar_of a;
  field_count =
      (if is_composite b
        then count_changes b a
        else if is_composite a
        then count_changes b a
        else 0);
}

-- One key of the union.
abbrev pub walk_key :
    (String → Value → Value → List FieldChange)
    → String
    → Option Value
    → Option Value
    → List FieldChange
walk_key walk path (some b) none = emit_presence path removed b ∷ []
walk_key walk path none (some a) = emit_presence path added a ∷ []
walk_key walk path (some b) (some a) = walk path b a
walk_key walk path none none = walk path null null

unfoldable pub walk_keys :
    (String → Value → Value → List FieldChange)
    → String
    → Fields
    → Fields
    → List String
    → List FieldChange
walk_keys walk path m n [] = []
walk_keys walk path m n (k ∷ ks) =
    walk_key walk (child_path path k) (get k m) (get k n) <> walk_keys walk path m n ks

unfoldable pub walk_items :
    (String → Value → Value → List FieldChange) → String → ℕ → Items → Items → List FieldChange
walk_items walk path i nil nil = []
walk_items walk path i (cons x xs) nil =
    emit_presence (index_path path i) removed x ∷ walk_items walk path (suc i) xs nil
walk_items walk path i nil (cons y ys) =
    emit_presence (index_path path i) added y ∷ walk_items walk path (suc i) nil ys
walk_items walk path i (cons x xs) (cons y ys) =
    walk (index_path path i) x y <> walk_items walk path (suc i) xs ys

-- At the depth limit: a changed object or array is one entry.
unfoldable pub stop : String → Value → Value → FieldChange
stop path (obj m) (obj n) = collapsed path (obj m) (obj n)
stop path (arr xs) (arr ys) = collapsed path (arr xs) (arr ys)
stop path b a = leaf_change path b a

-- Above it: key by key and element by element.
unfoldable pub descend :
    (String → Value → Value → List FieldChange) → String → Value → Value → List FieldChange
descend walk path (obj m) (obj n) = walk_keys walk path m n (union_keys m n)
descend walk path (arr xs) (arr ys) = walk_items walk path 0 xs ys
descend walk path b a = leaf_change path b a ∷ []

unfoldable pub walk_diff : ℕ → String → Value → Value → List FieldChange
walk_diff zero path b a = if deep_equal b a then [] else stop path b a ∷ []
walk_diff (suc levels) path b a = if deep_equal b a then [] else descend (walk_diff levels) path b a

unfoldable pub diff : Fields → Fields → ℕ → List FieldChange
diff before after max_depth =
    sort_by (λ (c : FieldChange). c.path) (walk_diff max_depth "" (obj before) (obj after))
