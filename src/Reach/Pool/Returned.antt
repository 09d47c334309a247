-- ===== src/Reach/Pool/Returned.antt =====
-- What a call of the pool of internal/adapters/reachability/pool.go returns and leaves in the map.
use ray_mcp.Prelude.{
  ℕ, suc, ◌≡◌, ap, ◌⊎◌, inl, inr, refl, String, false, Option, none, some, ◌∷◌, arith, Bool-cases,
}
use ray_mcp.Errors.{Result, ok, err}
use ray_mcp.Reach.Pool.{
  PoolKey, Entry, Pool, Answers, key_eq, find, delete, insert, pooled, dial_pod, endpoint_at,
  endpoint,
}
use ray_mcp.Reach.Pool.Slots.{find-delete, key_eq_refl}
use ray_mcp.Reach.Pool.Owned.{deleted_absent}

-- The tunnel is the pool's old one for the key, or the one just dialled.
abbrev pub Warm : PoolKey → Answers → Pool → Entry → Pool → Type 0
Warm k a p e q =
    (d : Entry) × (find k p.tunnels ≡ some d)
    × (d.handle ≡ e.handle)
    × (d.base_url ≡ e.base_url)
    × (a.lost d.handle ≡ false)
    × (q.opened ≡ p.opened)

abbrev pub Dialled : Pool → Entry → Pool → Type 0
Dialled p e q = (e.handle ≡ p.opened) × (q.opened ≡ suc p.opened)

abbrev pub After : PoolKey → Answers → Pool → Result String → Pool → Type 0
After k a p (ok url) q =
    (e : Entry) × (find k q.tunnels ≡ some e)
    × (e.base_url ≡ url)
    × (e.last_used ≡ a.now)
    × (Warm k a p e q ⊎ Dialled p e q)
After k a p (err e) q = (find k q.tunnels ≡ none) × (q.opened ≡ p.opened)

pooled-After :
    (k : PoolKey) (a : Answers) (r : Result ℕ) (p q : Pool)
    → find k q.tunnels ≡ none
    → q.opened ≡ p.opened
    → After k a p (pooled k a.now r q).0 (pooled k a.now r q).1
unfolding pooled insert find
pooled-After k a (err e) p q f o = (f, o)
pooled-After k a (ok local) p q f o =
    (_, ground (arith, key_eq_refl k), refl, refl, inr (o, ap suc o))

dial_pod-After :
    (k : PoolKey) (port : ℕ) (a : Answers) (r : Result String) (p q : Pool)
    → find k q.tunnels ≡ none
    → q.opened ≡ p.opened
    → After k a p (dial_pod k port a r q).0 (dial_pod k port a r q).1
unfolding dial_pod
dial_pod-After k port a (err e) p q f o = (f, o)
dial_pod-After k port a (ok pod) p q f o = pooled-After k a (a.dial k.namespace pod port) p q f o

endpoint_at-After :
    (k : PoolKey) (port : ℕ) (a : Answers) (o : Option Entry) (p : Pool)
    → find k p.tunnels ≡ o
    → After k a p (endpoint_at k port a o p).0 (endpoint_at k port a o p).1
unfolding endpoint_at insert find
endpoint_at-After k port a none p f = dial_pod-After k port a a.pod p p f refl
endpoint_at-After k port a (some e) p f = elim (Bool-cases (a.lost e.handle)) [
  | inl l ↦ rw l (dial_pod-After k port a a.pod p _ (deleted_absent k p.tunnels) refl)
  | inr l ↦ rw l (_, ground (arith, key_eq_refl k), refl, refl, inl (e, f, refl, refl, l, refl))
]

-- A call of the pool's endpoint that returns a URL leaves that URL in the map under the key, used at
-- the present instant, and its tunnel is either the one of before, which has not dropped, with
-- nothing dialled, or the only one that this call dialled; a call that fails leaves no entry for the
-- key and has opened no tunnel.
pub endpoint-After :
    (k : PoolKey) (port : ℕ) (a : Answers) (p : Pool)
    → After k a p (endpoint k port a p).0 (endpoint k port a p).1
unfolding endpoint
endpoint-After k port a p = endpoint_at-After k port a (find k p.tunnels) p refl

pooled_keeps_others :
    (j k : PoolKey) (now : ℕ) (r : Result ℕ) (p : Pool)
    → key_eq k j ≡ false
    → find j (pooled k now r p).1.tunnels ≡ find j p.tunnels
unfolding pooled insert find
pooled_keeps_others j k now (err e) p n = refl
pooled_keeps_others j k now (ok local) p n = ground (arith, find-delete j k p.tunnels)

dial_pod_keeps_others :
    (j k : PoolKey) (port : ℕ) (a : Answers) (r : Result String) (p : Pool)
    → key_eq k j ≡ false
    → find j (dial_pod k port a r p).1.tunnels ≡ find j p.tunnels
unfolding dial_pod
dial_pod_keeps_others j k port a (err e) p n = refl
dial_pod_keeps_others j k port a (ok pod) p n =
    pooled_keeps_others j k a.now (a.dial k.namespace pod port) p n

pub endpoint_at_keeps_others :
    (j k : PoolKey) (port : ℕ) (a : Answers) (o : Option Entry) (p : Pool)
    → key_eq k j ≡ false
    → find j (endpoint_at k port a o p).1.tunnels ≡ find j p.tunnels
unfolding endpoint_at insert find
endpoint_at_keeps_others j k port a none p n = dial_pod_keeps_others j k port a a.pod p n
endpoint_at_keeps_others j k port a (some e) p n =
    let q = record p { tunnels = delete k p.tunnels; closed = e.handle ∷ p.closed } in
    ground (arith, find-delete j k p.tunnels, dial_pod_keeps_others j k port a a.pod q n)
