-- ===== src/Reach/Unreachable.antt =====
-- The errors of internal/adapters/reachability/strategy.go, and the port of a warm tunnel.
use ray_mcp.Prelude.{
  ℕ, ◌≡◌, String, true, false, not, ◌&&◌, Option, none, some, List, [], ◌∷◌, ◌==◌, inl, inr,
  Bool-cases, if◌then◌else◌, arith,
}
use ray_mcp.Prelude.Int.{ℤ}
use ray_mcp.Errors.{unreachable, Result, ok, err}
use ray_mcp.Reach.Pool.{
  PoolKey, Pool, Answers, Entry, find, endpoint, endpoint_at, dial_pod, pooled,
}
use ray_mcp.Reach.Resolver.{
  AccessMode, mode_direct, mode_port_forward, mode, dashboard_port, Read, got, failed, Pod, at,
  direct_endpoint, first_running, head_pod_name, Resolving, answers, as_endpoint, pooled_endpoint,
  endpoint_by, resolve,
}

-- The result is a value, or the error of a dashboard that cannot be reached.
pub data OrUnreachable {A : Type 0} : Result A → Type 0 where
  reached : (a : A) → OrUnreachable (ok a)
  out_of_reach : (place reason : String) → OrUnreachable (err (unreachable place reason))

first_running-OrUnreachable : (k : PoolKey) (ps : List Pod) → OrUnreachable (first_running k ps)
unfolding first_running
first_running-OrUnreachable k [] = out_of_reach _ _
first_running-OrUnreachable k (p ∷ ps) =
    elim (p.phase == "Running" && not p.terminating)
      as (λ b. OrUnreachable (if b then ok p.name else first_running k ps)) [
        | true ↦ reached p.name
        | false ↦ first_running-OrUnreachable k ps
      ]

head_pod_name-OrUnreachable :
    (r : Read (List Pod)) (k : PoolKey) → OrUnreachable (head_pod_name r k)
unfolding head_pod_name
head_pod_name-OrUnreachable (failed e) k = out_of_reach _ _
head_pod_name-OrUnreachable (got ps) k = first_running-OrUnreachable k ps

direct_endpoint-OrUnreachable :
    (r : Read String) (k : PoolKey) (port : ℕ) → OrUnreachable (direct_endpoint r k port)
unfolding direct_endpoint
direct_endpoint-OrUnreachable (failed e) k port = out_of_reach _ _
direct_endpoint-OrUnreachable (got svc) k port = elim (Bool-cases (svc == "")) [
  | inl h ↦ rw h (out_of_reach (at k) "head service not yet provisioned")
  | inr h ↦ rw h (reached _)
]

pooled-OrUnreachable :
    (k : PoolKey) (now : ℕ) (r : Result ℕ) (p : Pool)
    → OrUnreachable r
    → OrUnreachable (pooled k now r p).0
unfolding pooled
pooled-OrUnreachable k now _ p (reached local) = reached _
pooled-OrUnreachable k now _ p (out_of_reach a b) = out_of_reach a b

abbrev pub DialerIsTyped : (String → String → ℕ → Result ℕ) → Type 0
DialerIsTyped dial = (ns pod : String) (port : ℕ) → OrUnreachable (dial ns pod port)

module _ (k : PoolKey) (port : ℕ) (a : Answers) (typed : DialerIsTyped a.dial) where
  dial_pod-OrUnreachable :
      (r : Result String) (p : Pool) → OrUnreachable r → OrUnreachable (dial_pod k port a r p).0
  unfolding dial_pod
  dial_pod-OrUnreachable _ p (reached pod) =
      pooled-OrUnreachable k a.now (a.dial k.namespace pod port) p (typed k.namespace pod port)
  dial_pod-OrUnreachable _ p (out_of_reach place reason) = out_of_reach place reason

  endpoint_at-OrUnreachable :
      (o : Option Entry) (p : Pool)
      → OrUnreachable a.pod
      → OrUnreachable (endpoint_at k port a o p).0
  unfolding endpoint_at
  endpoint_at-OrUnreachable none p h = dial_pod-OrUnreachable a.pod p h
  endpoint_at-OrUnreachable (some e) p h = elim (Bool-cases (a.lost e.handle)) [
    | inl l ↦ rw l (dial_pod-OrUnreachable a.pod _ h)
    | inr l ↦ rw l (reached e.base_url)
  ]

as_endpoint-OrUnreachable : (r : Result String) → OrUnreachable r → OrUnreachable (as_endpoint r)
as_endpoint-OrUnreachable _ (reached url) = reached _
as_endpoint-OrUnreachable _ (out_of_reach a b) = out_of_reach a b

endpoint_by-OrUnreachable :
    (m : AccessMode) (r : Resolving) (k : PoolKey) (port : ℕ) (p : Pool)
    → DialerIsTyped r.dial
    → OrUnreachable (endpoint_by m r k port p).0
unfolding pooled_endpoint endpoint
endpoint_by-OrUnreachable mode_direct r k port p typed =
    direct_endpoint-OrUnreachable (r.head_service k) k port
endpoint_by-OrUnreachable mode_port_forward r k port p typed = as_endpoint-OrUnreachable _ (
    endpoint_at-OrUnreachable k port (answers r k) typed (find k p.tunnels) p
      (head_pod_name-OrUnreachable (r.head_pods k) k))

-- With a dialer whose failures are all of the type unreachable, the resolver answers every request,
-- in each access mode and on every pool, with an endpoint or with an error of the type unreachable:
-- no failure of a Kubernetes read shows as another error.
pub resolve-OrUnreachable :
    (r : Resolving) (k : PoolKey) (port : ℤ) (p : Pool)
    → DialerIsTyped r.dial
    → OrUnreachable (resolve r k port p).0
unfolding resolve
resolve-OrUnreachable r k port p typed =
    endpoint_by-OrUnreachable (mode r.ray_access r.in_cluster) r k (dashboard_port port) p typed

pub warm_ignores_port :
    (k : PoolKey) (m n : ℕ) (a : Answers) (e : Entry) (p : Pool)
    → find k p.tunnels ≡ some e
    → a.lost e.handle ≡ false
    → endpoint k m a p ≡ endpoint k n a p
unfolding endpoint endpoint_at
warm_ignores_port k m n a e p f l = ground arith
