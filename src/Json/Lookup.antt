-- ===== src/Json/Lookup.antt =====
-- Lookups after a write or a removal, for the maps of Json.antt.
use mathlib.Core.Path.{subst}
use mathlib.Core.Option.{some-injective}
use ray_mcp.Prelude.{
  ◌≤◌, ap, Bool-cases, inl, inr, eq_refl, suc, ◌≡◌, ◌≢◌, refl, String, false, none, some, arith,
  ◌==◌, eq_iff, if◌then◌else◌,
}
use ray_mcp.Json.{Value, Fields, end, field, get, set, delete, size, IsWf, IsWfFields}

pub get-set :
    (j k : String) (v : Value) (m : Fields)
    → get j (set k v m) ≡ (if k == j then some v else get j m)
unfolding get set
get-set j k v end = refl
get-set j k v (field i w m) = ground (arith, eq_iff k j, eq_iff i k, eq_iff i j, get-set j k v m)

pub get-delete :
    (j k : String) (m : Fields) → get j (delete k m) ≡ (if k == j then none else get j m)
unfolding get delete
get-delete j k end = ground arith
get-delete j k (field i w m) = ground (arith, eq_iff k j, eq_iff i k, eq_iff i j, get-delete j k m)

pub ruleset map_laws = (get-set, get-delete)

pub get-set_self : (k : String) (v : Value) (m : Fields) → get k (set k v m) ≡ some v
get-set_self k v m = ground (arith, get-set k k v m, eq_iff k k)

pub get-set_ne :
    (j k : String) (v : Value) (m : Fields) → (k == j) ≡ false → get j (set k v m) ≡ get j m
get-set_ne j k v m h = ground (arith, get-set j k v m)

pub get-delete_self : (k : String) (m : Fields) → get k (delete k m) ≡ none
get-delete_self k m = ground (arith, get-delete k k m, eq_iff k k)

pub get-delete_ne : (j k : String) (m : Fields) → (k == j) ≡ false → get j (delete k m) ≡ get j m
get-delete_ne j k m h = ground (arith, get-delete j k m)

-- Writes and removals keep each key once.
pub set-IsWf :
    (k : String) (v : Value) (m : Fields) → IsWf v → IsWfFields m → IsWfFields (set k v m)
unfolding get set
set-IsWf k v end hv h = (refl, hv, tt)
set-IsWf k v (field j w m) hv (fresh, hw, h) =
    ground (arith, set-IsWf k v m hv h, get-set j k v m, eq_iff k j, eq_iff j k)

pub delete-IsWf : (k : String) (m : Fields) → IsWfFields m → IsWfFields (delete k m)
unfolding get delete
delete-IsWf k end h = tt
delete-IsWf k (field j w m) (fresh, hw, h) = ground (arith, delete-IsWf k m h, get-delete j k m)

-- What a lookup finds is well formed.
pub get-IsWf : (k : String) (m : Fields) {v : Value} → IsWfFields m → get k m ≡ some v → IsWf v
unfolding get
get-IsWf k end h e = cc
get-IsWf k (field j w m) {v = v} (fresh, hw, h) e = elim (Bool-cases (j == k)) [
  | inl p ↦ subst IsWf (some-injective w v (rw p at e)) hw
  | inr p ↦ get-IsWf k m h (rw p at e)
]

-- A removal of a key that is there makes the map smaller by one.
pub delete_absent : (k : String) (m : Fields) → get k m ≡ none → delete k m ≡ m
unfolding get delete
delete_absent k end h = refl
delete_absent k (field j w m) h = ground (arith, delete_absent k m)

pub size-delete :
    (k : String) (m : Fields) → IsWfFields m → get k m ≢ none → size m ≡ suc (size (delete k m))
unfolding get delete size
size-delete k end h there = absurd (there refl)
size-delete k (field j w m) (fresh, hw, h) there = elim (Bool-cases (j == k)) [
  | inl p ↦ rw (p, delete_absent k m (subst (λ i. get i m ≡ none) ((eq_iff j k).0 p) fresh))
  | inr p ↦ rw p (ap suc (size-delete k m h (rw p at there)))
]

-- Over maps: no more keys, no greater size.
pub size-le-of_keys :
    (m n : Fields)
    → IsWfFields m
    → IsWfFields n
    → ((k : String) → get k m ≢ none → get k n ≢ none)
    → size m ≤ size n
unfolding get size
size-le-of_keys end n hm hn sub = omega arith
size-le-of_keys (field k v m) n (fresh, hv, hm) hn sub =
    let there : get k n ≢ none = sub k (λ e. cc (rw (eq_refl k) at e)) in
    omega (
      arith,
      size-delete k n hn there,
      size-le-of_keys m (delete k n) hm (delete-IsWf k n hn) (λ j some_j.
          elim (Bool-cases (k == j)) [
            | inl p ↦ absurd (some_j (subst (λ i. get i m ≡ none) ((eq_iff k j).0 p) fresh))
            | inr p ↦ rw (get-delete_ne j k n p) (sub j (rw p some_j))
          ]),
    )
