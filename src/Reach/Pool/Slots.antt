-- ===== src/Reach/Pool/Slots.antt =====
-- Laws of the pool's map of tunnels: lookup, insertion, deletion and the sweep of the reaper.
use ray_mcp.Prelude.{
  ℕ, ◌+◌, ◌≡◌, refl, true, none, some, List, [], ◌∷◌, ◌++◌, nat_eq, eq_iff, arith, if◌then◌else◌,
}
use ray_mcp.Reach.Pool.{PoolKey, Entry, Tunnels, key_eq, find, delete, handles, fresh, expired}

pub key_eq_refl : (k : PoolKey) → key_eq k k ≡ true
key_eq_refl k = ground (arith, eq_iff k.namespace k.namespace, eq_iff k.cluster k.cluster)

pub key_eq_trans : (i j k : PoolKey) → key_eq i j ≡ true → key_eq i k ≡ key_eq j k
key_eq_trans i j k h = ground (arith, eq_iff i.namespace j.namespace, eq_iff i.cluster j.cluster)

-- No key stands twice.
abbrev pub Unique : Tunnels → Type 0
Unique [] = Unit {0}
Unique ((k, e) ∷ ts) = (find k ts ≡ none) × Unique ts

abbrev pub count : ℕ → List ℕ → ℕ
count h [] = 0
count h (x ∷ xs) = (if nat_eq h x then 1 else 0) + count h xs

pub count-append : (h : ℕ) (xs ys : List ℕ) → count h (xs ++ ys) ≡ count h xs + count h ys
count-append h [] ys = omega arith
count-append h (x ∷ xs) ys = omega (arith, count-append h xs ys)

pub delete_absent : (k : PoolKey) (ts : Tunnels) → find k ts ≡ none → delete k ts ≡ ts
unfolding find delete
delete_absent k [] h = refl
delete_absent k ((j, e) ∷ ts) h = ground (arith, delete_absent k ts)

pub find-delete :
    (j k : PoolKey) (ts : Tunnels) → find j (delete k ts) ≡ (if key_eq k j then none else find j ts)
unfolding find delete
find-delete j k [] = ground arith
find-delete j k ((i, e) ∷ ts) = ground (
  arith,
  find-delete j k ts,
  key_eq_trans i k j,
  eq_iff i.namespace k.namespace,
  eq_iff i.cluster k.cluster,
  eq_iff i.namespace j.namespace,
  eq_iff i.cluster j.cluster,
  eq_iff k.namespace j.namespace,
  eq_iff k.cluster j.cluster,
)

pub delete-Unique : (k : PoolKey) (ts : Tunnels) → Unique ts → Unique (delete k ts)
unfolding delete
delete-Unique k [] u = tt
delete-Unique k ((j, e) ∷ ts) u = ground (arith, delete-Unique k ts u.1, find-delete j k ts)

pub count-delete :
    (h : ℕ) (k : PoolKey) (e : Entry) (ts : Tunnels)
    → Unique ts
    → find k ts ≡ some e
    → count h (handles ts) ≡ (if nat_eq h e.handle then 1 else 0) + count h (handles (delete k ts))
unfolding find delete handles
count-delete h k e [] u f = ground arith
count-delete h k e ((j, d) ∷ ts) u f = ground (
  arith,
  count-delete h k e ts u.1,
  key_eq_trans j k k,
  key_eq_trans j k j,
  delete_absent k ts,
  find_eq j k ts,
)
  where
    find_eq : (j k : PoolKey) (ts : Tunnels) → key_eq j k ≡ true → find j ts ≡ find k ts
    find_eq j k [] h = refl
    find_eq j k ((i, e) ∷ ts) h =
        ground (arith, find_eq j k ts h, eq_iff j.namespace k.namespace, eq_iff j.cluster k.cluster)

pub find-fresh_absent :
    (idle now : ℕ) (k : PoolKey) (ts : Tunnels)
    → find k ts ≡ none
    → find k (fresh idle now ts) ≡ none
unfolding find fresh
find-fresh_absent idle now k [] h = refl
find-fresh_absent idle now k ((j, e) ∷ ts) h = ground (arith, find-fresh_absent idle now k ts)

pub fresh-Unique : (idle now : ℕ) (ts : Tunnels) → Unique ts → Unique (fresh idle now ts)
unfolding fresh
fresh-Unique idle now [] u = tt
fresh-Unique idle now ((k, e) ∷ ts) u =
    ground (arith, fresh-Unique idle now ts u.1, find-fresh_absent idle now k ts u.0)

-- The sweep keeps a tunnel or closes it.
pub count-fresh :
    (h idle now : ℕ) (ts : Tunnels)
    → count h (handles (fresh idle now ts)) + count h (expired idle now ts) ≡ count h (handles ts)
unfolding fresh expired handles
count-fresh h idle now [] = refl
count-fresh h idle now ((k, e) ∷ ts) = ground (arith, count-fresh h idle now ts)
