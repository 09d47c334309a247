-- ===== src/Reach/Pool/Owned.antt =====
-- Who owns a tunnel that the dialer of internal/adapters/reachability/pool.go opened: the map, or nobody.
use ray_mcp.Prelude.{
  ℕ, ◌+◌, ◌≡◌, inl, inr, refl, String, true, false, Option, none, some, List, [], ◌∷◌, ltb, arith,
  Bool-cases, if◌then◌else◌, Bool-cases,
}
use ray_mcp.Errors.{Result, ok, err}
use ray_mcp.Reach.Pool.{
  PoolKey, Entry, Tunnels, Pool, Answers, Call, get_endpoint, tick_at, close_pool, new_pool, find,
  delete, insert, handles, expired, pooled, dial_pod, endpoint_at, endpoint, reap, tick, close,
  step, run,
}
use ray_mcp.Reach.Pool.Slots.{
  Unique, count, count-append, delete_absent, find-delete, delete-Unique, count-delete,
  fresh-Unique, count-fresh, key_eq_refl,
}

pub record Inv (p : Pool) : Type 0 where
  pub unique : Unique p.tunnels
  pub owned :
      (h : ℕ) → count h (handles p.tunnels) + count h p.closed ≡ (if ltb h p.opened then 1 else 0)

new_pool-Inv : Inv new_pool
unfolding handles
new_pool-Inv = record { unique = tt; owned = λ h. ground arith }

pooled-Inv :
    (k : PoolKey) (now : ℕ) (r : Result ℕ) (p : Pool)
    → find k p.tunnels ≡ none
    → Inv p
    → Inv (pooled k now r p).1
unfolding pooled insert handles
pooled-Inv k now (err e) p f i = i
pooled-Inv k now (ok local) p f i = record {
  unique =
      ground (arith, find-delete k k p.tunnels, key_eq_refl k, delete-Unique k p.tunnels i.unique);
  owned = λ h. ground (arith, i.owned h, delete_absent k p.tunnels f);
}

dial_pod-Inv :
    (k : PoolKey) (port : ℕ) (a : Answers) (r : Result String) (p : Pool)
    → find k p.tunnels ≡ none
    → Inv p
    → Inv (dial_pod k port a r p).1
unfolding dial_pod
dial_pod-Inv k port a (err e) p f i = i
dial_pod-Inv k port a (ok pod) p f i = pooled-Inv k a.now (a.dial k.namespace pod port) p f i

dropped-Inv :
    (k : PoolKey) (e : Entry) (p : Pool)
    → find k p.tunnels ≡ some e
    → Inv p
    → Inv (record p { tunnels = delete k p.tunnels; closed = e.handle ∷ p.closed })
dropped-Inv k e p f i = record {
  unique = delete-Unique k p.tunnels i.unique;
  owned = λ h. omega (arith, i.owned h, count-delete h k e p.tunnels i.unique f);
}

used-Inv :
    (k : PoolKey) (e : Entry) (now : ℕ) (p : Pool)
    → find k p.tunnels ≡ some e
    → Inv p
    → Inv (record p { tunnels = insert k (record e { last_used = now }) p.tunnels })
unfolding insert handles
used-Inv k e now p f i = record {
  unique =
      ground (arith, find-delete k k p.tunnels, key_eq_refl k, delete-Unique k p.tunnels i.unique);
  owned = λ h. omega (arith, i.owned h, count-delete h k e p.tunnels i.unique f);
}

pub deleted_absent : (k : PoolKey) (ts : Tunnels) → find k (delete k ts) ≡ none
deleted_absent k ts = ground (arith, find-delete k k ts, key_eq_refl k)

endpoint_at-Inv :
    (k : PoolKey) (port : ℕ) (a : Answers) (o : Option Entry) (p : Pool)
    → find k p.tunnels ≡ o
    → Inv p
    → Inv (endpoint_at k port a o p).1
unfolding endpoint_at
endpoint_at-Inv k port a none p f i = dial_pod-Inv k port a a.pod p f i
endpoint_at-Inv k port a (some e) p f i = elim (Bool-cases (a.lost e.handle)) [
  | inl l ↦
      rw l (dial_pod-Inv k port a a.pod _ (deleted_absent k p.tunnels) (dropped-Inv k e p f i))
  | inr l ↦ rw l (used-Inv k e a.now p f i)
]

reap-Inv : (idle now : ℕ) (p : Pool) → Inv p → Inv (reap idle now p).1
unfolding reap
reap-Inv idle now p i = record {
  unique = fresh-Unique idle now p.tunnels i.unique;
  owned = λ h. omega (
    arith,
    i.owned h,
    count-fresh h idle now p.tunnels,
    count-append h (expired idle now p.tunnels) p.closed,
  );
}

close-Inv : (p : Pool) → Inv p → Inv (close p)
unfolding close
close-Inv p i = record {
  unique = tt;
  owned = λ h. ground (arith, i.owned h, count-append h (handles p.tunnels) p.closed);
}

pub step-Inv : (idle : ℕ) (c : Call) (p : Pool) → Inv p → Inv (step idle c p)
unfolding step endpoint tick
step-Inv idle (get_endpoint k port a) p i = endpoint_at-Inv k port a (find k p.tunnels) p refl i
step-Inv idle (tick_at now) p i = elim p.done as (λ d. Inv (if d then p else (reap idle now p).1)) [
  | true ↦ i
  | false ↦ reap-Inv idle now p i
]
step-Inv idle close_pool p i = close-Inv p i

pub run-Inv : (idle : ℕ) (cs : List Call) (p : Pool) → Inv p → Inv (run idle cs p)
unfolding run
run-Inv idle [] p i = i
run-Inv idle (c ∷ cs) p i = run-Inv idle cs (step idle c p) (step-Inv idle c p i)

-- After every history of calls on a new pool, whatever the outside answers, no key stands twice in
-- the map, and each tunnel that was dialled is either in the map once and was not closed, or is out
-- of the map and was closed exactly once; no handle that was not dialled is anywhere.
pub run_owned :
    (idle : ℕ) (cs : List Call) (h : ℕ)
    → let p = run idle cs new_pool in
      Unique p.tunnels
      × (count h (handles p.tunnels) + count h p.closed ≡ (if ltb h p.opened then 1 else 0))
run_owned idle cs h = let i = run-Inv idle cs new_pool new_pool-Inv in (i.unique, i.owned h)
