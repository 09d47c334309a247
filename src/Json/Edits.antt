-- ===== src/Json/Edits.antt =====
-- When two edits of a map are one edit, or can change places.
use ray_mcp.Prelude.{◌≡◌, ◌≢◌, refl, String, false, none, some, arith, ◌==◌, eq_iff}
use ray_mcp.Json.{Value, Fields, end, field, get, set, delete}

pub set-set_self : (k : String) (v w : Value) (m : Fields) → set k v (set k w m) ≡ set k v m
unfolding set
set-set_self k v w end = ground (arith, eq_iff k k)
set-set_self k v w (field j u m) = ground (arith, eq_iff k k, set-set_self k v w m)

pub delete-set_self : (k : String) (v : Value) (m : Fields) → delete k (set k v m) ≡ delete k m
unfolding set delete
delete-set_self k v end = ground (arith, eq_iff k k)
delete-set_self k v (field j u m) = ground (arith, eq_iff k k, delete-set_self k v m)

pub delete-set_ne :
    (j k : String) (v : Value) (m : Fields)
    → (k == j) ≡ false
    → delete j (set k v m) ≡ set k v (delete j m)
unfolding set delete
delete-set_ne j k v end h = ground arith
delete-set_ne j k v (field i u m) h =
    ground (arith, eq_iff i j, eq_iff i k, eq_iff k j, delete-set_ne j k v m h)

pub delete-delete_comm : (j k : String) (m : Fields) → delete j (delete k m) ≡ delete k (delete j m)
unfolding delete
delete-delete_comm j k end = refl
delete-delete_comm j k (field i u m) = ground (arith, delete-delete_comm j k m)

-- Two writes change places where the first key is there already.
pub set-set_comm :
    (j k : String) (v w : Value) (m : Fields)
    → (k == j) ≡ false
    → get k m ≢ none
    → set k v (set j w m) ≡ set j w (set k v m)
unfolding get set
set-set_comm j k v w end h there = absurd (there refl)
set-set_comm j k v w (field i u m) h there =
    ground (arith, eq_iff i j, eq_iff i k, eq_iff k j, set-set_comm j k v w m h)

-- Writing what is there changes nothing.
pub set_same : (k : String) (v : Value) (m : Fields) → get k m ≡ some v → set k v m ≡ m
unfolding get set
set_same k v end h = cc
set_same k v (field j u m) h = ground (arith, eq_iff j k, set_same k v m)
