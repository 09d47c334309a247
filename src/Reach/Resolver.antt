-- ===== src/Reach/Resolver.antt =====
-- The strategies of internal/adapters/reachability: `Resolver` of strategy.go, the choice of the head pod
-- of portforward.go and the degraded resolver of unavailable.go.
--
-- `config.Load` has checked that RayAccess is one of its three values, but `mode` reads any text.
-- The Kubernetes reads are parameters: what the `Get` of the RayCluster and the `List` of its head pods
-- answer, the latter with the pods that bear the two labels; an error of theirs is its text.
use Prim.Native.String.{◌++◌}
use ray_mcp.Prelude.{ℕ, String, Bool, not, ◌&&◌, List, [], ◌∷◌, ◌==◌, ltb, if◌then◌else◌}
use ray_mcp.Prelude.Int.{ℤ, pos, negsuc}
use ray_mcp.Prelude.Text.{show_nat}
use ray_mcp.Errors.{unreachable, Result, ok, err}
use ray_mcp.Types.{Endpoint}
use ray_mcp.Reach.Pool.{PoolKey, Pool, Answers, endpoint}

pub data AccessMode : Type 0 where
  mode_direct mode_port_forward : AccessMode

unfoldable pub mode : String → Bool → AccessMode
mode ray_access in_cluster =
    if ray_access == "direct"
    then mode_direct
    else if ray_access == "port-forward"
    then mode_port_forward
    else if in_cluster
    then mode_direct
    else mode_port_forward

abbrev pub default_dashboard_port : ℕ
default_dashboard_port = 8265

-- A port of 0 or less is the default one.
unfoldable pub dashboard_port : ℤ → ℕ
dashboard_port (negsuc n) = default_dashboard_port
dashboard_port (pos n) = if ltb 0 n then n else default_dashboard_port

-- 5 minutes
abbrev pub default_idle_timeout : ℕ
default_idle_timeout = 300000000000

pub data Read (A : Type 0) : Type 0 where
  got : A → Read A
  failed : String → Read A

pub record Pod : Type 0 where
  pub name : String
  pub phase : String
  pub terminating : Bool

abbrev pub at : PoolKey → String
at k = k.namespace ++ "/" ++ k.cluster

-- The read is of `Status.Head.ServiceName`.
unfoldable pub direct_endpoint : Read String → PoolKey → ℕ → Result Endpoint
unfolding show_nat
direct_endpoint (failed e) k port = err (unreachable (at k) ("resolve head service: " ++ e))
direct_endpoint (got svc) k port =
    if svc == ""
    then err (unreachable (at k) "head service not yet provisioned")
    else ok
        (record { base_url = "http://" ++ svc ++ "." ++ k.namespace ++ ".svc:" ++ show_nat port })

unfoldable pub first_running : PoolKey → List Pod → Result String
first_running k [] = err (unreachable (at k) "no running head pod")
first_running k (p ∷ ps) =
    if p.phase == "Running" && not p.terminating then ok p.name else first_running k ps

unfoldable pub head_pod_name : Read (List Pod) → PoolKey → Result String
unfolding first_running
head_pod_name (failed e) k = err (unreachable (at k) ("list head pod: " ++ e))
head_pod_name (got ps) k = first_running k ps

-- What a resolver is built with, and what the outside answers during one call.
pub record Resolving : Type 0 where
  pub ray_access : String
  pub in_cluster : Bool
  pub head_service : PoolKey → Read String
  pub head_pods : PoolKey → Read (List Pod)
  pub now : ℕ
  pub lost : ℕ → Bool
  pub dial : String → String → ℕ → Result ℕ

abbrev pub answers : Resolving → PoolKey → Answers
answers r k = record {
  now = r.now;
  lost = r.lost;
  pod = head_pod_name (r.head_pods k) k;
  dial = r.dial;
}

abbrev pub as_endpoint : Result String → Result Endpoint
as_endpoint (ok url) = ok (record { base_url = url })
as_endpoint (err e) = err e

unfoldable pub pooled_endpoint : Resolving → PoolKey → ℕ → Pool → Result Endpoint × Pool
unfolding endpoint head_pod_name
pooled_endpoint r k port p = let (url, q) = endpoint k port (answers r k) p in (as_endpoint url, q)

abbrev pub endpoint_by : AccessMode → Resolving → PoolKey → ℕ → Pool → Result Endpoint × Pool
endpoint_by mode_direct r k port p = (direct_endpoint (r.head_service k) k port, p)
endpoint_by mode_port_forward r k port p = pooled_endpoint r k port p

unfoldable pub resolve : Resolving → PoolKey → ℤ → Pool → Result Endpoint × Pool
unfolding mode dashboard_port direct_endpoint pooled_endpoint
resolve r k port p = endpoint_by (mode r.ray_access r.in_cluster) r k (dashboard_port port) p

-- `Unavailable.Endpoint`
abbrev pub unavailable : String → PoolKey → ℤ → Result Endpoint
unavailable reason k port = err (unreachable (at k) reason)
