-- ===== src/Json.antt =====
-- JSON-compatible values as Go's `any` holds them: internal/domain/types.go (`MergedSpec`) and the
-- type switches of internal/domain/merge.go and diff.go.
--
-- A `map[string]any` is a list of fields read by `get`; `set` is `m[k] = v` and `delete` is
-- `delete(m, k)`. A map has each key once: `IsWf`. A numeric value is an `int` (Go's int64, int and
-- int32) or a `float` (float64): `float m k` is m / 2^k in lowest terms, so equal floats are equal
-- values. Go's comparison keeps the two kinds of number apart, and so does this type.
pub mod Lookup
pub mod Edits
pub mod Equal
use ray_mcp.Prelude.{
  ℕ, suc, ◌+◌, ◌≡◌, String, Bool, true, false, ◌&&◌, Option, none, some, ◌==◌, nat_eq,
  if◌then◌else◌,
}
use ray_mcp.Prelude.Int.{ℤ, eqb_ℤ}

mutual
  pub data Items : Type 0 where
    nil : Items
    cons : Value → Items → Items

  pub data Value : Type 0 where
    null : Value
    bool : Bool → Value
    int : ℤ → Value
    float : ℤ → ℕ → Value
    str : String → Value
    arr : Items → Value
    obj : Fields → Value

  pub data Fields : Type 0 where
    end : Fields
    field : String → Value → Fields → Fields

-- v, ok := m[k]
unfoldable pub get : String → Fields → Option Value
get k end = none
get k (field j v m) = if j == k then some v else get k m

-- m[k] = v
unfoldable pub set : String → Value → Fields → Fields
set k v end = field k v end
set k v (field j w m) = if j == k then field k v m else field j w (set k v m)

-- delete(m, k)
unfoldable pub delete : String → Fields → Fields
delete k end = end
delete k (field j v m) = let rest = delete k m in if j == k then rest else field j v rest

-- len(m)
unfoldable pub size : Fields → ℕ
size end = 0
size (field k v m) = suc (size m)

unfoldable pub length : Items → ℕ
length nil = 0
length (cons v xs) = suc (length xs)

-- `v.(map[string]any)`, `v.([]any)`, `v.(string)`, `v.(bool)` with their `ok`.
unfoldable pub as_obj : Option Value → Option Fields
as_obj (some (obj m)) = some m
as_obj _ = none

unfoldable pub as_arr : Option Value → Option Items
as_arr (some (arr xs)) = some xs
as_arr _ = none

unfoldable pub as_str : Option Value → Option String
as_str (some (str s)) = some s
as_str _ = none

unfoldable pub as_bool : Option Value → Option Bool
as_bool (some (bool b)) = some b
as_bool _ = none

-- The zero value that a failed assertion leaves: `s, _ := v.(string)` and a nil slice or map, which
-- reads as empty.
abbrev pub or_empty : Option String → String
or_empty none = ""
or_empty (some s) = s

abbrev pub or_nil : Option Items → Items
or_nil none = nil
or_nil (some xs) = xs

abbrev pub or_end : Option Fields → Fields
or_end none = end
or_end (some m) = m

abbrev pub or_false : Option Bool → Bool
or_false none = false
or_false (some b) = b

-- reflect.DeepEqual on such values: maps by their keys, slices by position, scalars of one kind only.
unfoldable mutual
  pub deep_equal : Value → Value → Bool
  deep_equal null null = true
  deep_equal (bool true) (bool b) = b
  deep_equal (bool false) (bool true) = false
  deep_equal (bool false) (bool false) = true
  deep_equal (int m) (int n) = eqb_ℤ m n
  deep_equal (float m j) (float n k) = eqb_ℤ m n && nat_eq j k
  deep_equal (str s) (str t) = s == t
  deep_equal (arr xs) (arr ys) = items_equal xs ys
  deep_equal (obj m) (obj n) = nat_eq (size m) (size n) && fields_within m n
  deep_equal _ _ = false

  pub items_equal : Items → Items → Bool
  items_equal nil nil = true
  items_equal (cons x xs) (cons y ys) = deep_equal x y && items_equal xs ys
  items_equal _ _ = false

  pub fields_within : Fields → Fields → Bool
  fields_within end n = true
  fields_within (field k v m) n =
      elim (get k n) [ none ↦ false | some w ↦ deep_equal v w ] && fields_within m n

-- Each key once, at every level: what a Go map gives.
abbrev mutual
  pub IsWf : Value → Type 0
  IsWf (arr xs) = IsWfItems xs
  IsWf (obj m) = IsWfFields m
  IsWf _ = Unit

  pub IsWfItems : Items → Type 0
  IsWfItems nil = Unit
  IsWfItems (cons x xs) = IsWf x × IsWfItems xs

  pub IsWfFields : Fields → Type 0
  IsWfFields end = Unit
  IsWfFields (field k v m) = (get k m ≡ none) × IsWf v × IsWfFields m
