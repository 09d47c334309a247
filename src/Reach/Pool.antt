-- ===== src/Reach/Pool.antt =====
-- The pool of port-forward tunnels of internal/adapters/reachability/pool.go.
--
-- The map is an association list with one entry for a key. A handle is the number of its dial, as a
-- fresh pointer is; `closed` lists the handles on which `Close` ran, newest first. What the outside
-- answers during one call (the clock, the `Lost` channels, the pod's name, the dialer) is an `Answers`.
-- Each call holds the mutex, so a history is a list of calls. Times are in nanoseconds.
pub mod Slots
pub mod Owned
pub mod Returned
pub mod Live
use Prim.Native.String.{◌++◌}
use ray_mcp.Prelude.{
  ℕ, suc, ◌+◌, ◌*◌, ◌/◌, ◌≡◌, refl, String, Bool, true, false, ◌&&◌, Option, none, some, List, [],
  ◌∷◌, map, length, leb, ◌==◌, if◌then◌else◌,
}
use mathlib.Core.List.{◌++◌ as ◌<>◌}
use ray_mcp.Prelude.Text.{show_nat}
use ray_mcp.Errors.{Result, ok, err}

pub record PoolKey : Type 0 where
  pub namespace : String
  pub cluster : String

pub record Entry : Type 0 where
  pub handle : ℕ
  pub base_url : String
  pub last_used : ℕ

abbrev pub Tunnels : Type 0
Tunnels = List (PoolKey × Entry)

pub record Pool : Type 0 where
  pub tunnels : Tunnels
  pub opened : ℕ
  pub closed : List ℕ
  pub done : Bool

pub record Answers : Type 0 where
  pub now : ℕ
  pub lost : ℕ → Bool
  pub pod : Result String
  pub dial : String → String → ℕ → Result ℕ

abbrev pub new_pool : Pool
new_pool = record { tunnels = []; opened = 0; closed = []; done = false }

abbrev pub key_eq : PoolKey → PoolKey → Bool
key_eq a b = a.namespace == b.namespace && a.cluster == b.cluster

unfoldable pub find : PoolKey → Tunnels → Option Entry
find k [] = none
find k ((j, e) ∷ ts) = if key_eq j k then some e else find k ts

unfoldable pub delete : PoolKey → Tunnels → Tunnels
delete k [] = []
delete k ((j, e) ∷ ts) = if key_eq j k then delete k ts else (j, e) ∷ delete k ts

unfoldable pub insert : PoolKey → Entry → Tunnels → Tunnels
unfolding delete
insert k e ts = (k, e) ∷ delete k ts

unfoldable pub handles : Tunnels → List ℕ
handles [] = []
handles ((k, e) ∷ ts) = e.handle ∷ handles ts

abbrev pub local_url : ℕ → String
local_url port = "http://127.0.0.1:" ++ show_nat port

-- The end of `endpoint`, once the dialer has answered with the local port.
unfoldable pub pooled : PoolKey → ℕ → Result ℕ → Pool → Result String × Pool
unfolding insert
pooled k now (err e) p = (err e, p)
pooled k now (ok local) p = (
  ok (local_url local),
  record p {
    tunnels =
        insert k (record { handle = p.opened; base_url = local_url local; last_used = now })
          p.tunnels;
    opened = suc p.opened;
  },
)

unfoldable pub dial_pod : PoolKey → ℕ → Answers → Result String → Pool → Result String × Pool
unfolding pooled
dial_pod k port a (err e) p = (err e, p)
dial_pod k port a (ok pod) p = pooled k a.now (a.dial k.namespace pod port) p

-- `endpoint` once the map was looked up.
unfoldable pub endpoint_at : PoolKey → ℕ → Answers → Option Entry → Pool → Result String × Pool
unfolding delete dial_pod insert
endpoint_at k port a none p = dial_pod k port a a.pod p
endpoint_at k port a (some e) p =
    if a.lost e.handle
    then dial_pod k port a a.pod
        (record p { tunnels = delete k p.tunnels; closed = e.handle ∷ p.closed })
    else (ok e.base_url, record p { tunnels = insert k (record e { last_used = a.now }) p.tunnels })

unfoldable pub endpoint : PoolKey → ℕ → Answers → Pool → Result String × Pool
unfolding endpoint_at find
endpoint k port a p = endpoint_at k port a (find k p.tunnels) p

abbrev pub is_idle : ℕ → ℕ → Entry → Bool
is_idle idle now e = leb (e.last_used + idle) now

unfoldable pub fresh : ℕ → ℕ → Tunnels → Tunnels
fresh idle now [] = []
fresh idle now ((k, e) ∷ ts) =
    if is_idle idle now e then fresh idle now ts else (k, e) ∷ fresh idle now ts

unfoldable pub expired : ℕ → ℕ → Tunnels → List ℕ
expired idle now [] = []
expired idle now ((k, e) ∷ ts) =
    if is_idle idle now e then e.handle ∷ expired idle now ts else expired idle now ts

unfoldable pub reap : ℕ → ℕ → Pool → ℕ × Pool
unfolding fresh expired
reap idle now p = (
  length (expired idle now p.tunnels),
  record p { tunnels = fresh idle now p.tunnels; closed = expired idle now p.tunnels <> p.closed },
)

unfoldable pub close : Pool → Pool
unfolding handles
close p = record p { tunnels = []; closed = handles p.tunnels <> p.closed; done = true }

-- One turn of `runReaper`, which has returned once `done` is closed.
unfoldable pub tick : ℕ → ℕ → Pool → Pool
unfolding reap
tick idle now p = if p.done then p else (reap idle now p).1

-- The instant of the `n`-th tick of the reaper that started at `start`.
abbrev pub tick_time : ℕ → ℕ → ℕ → ℕ
tick_time idle start n = start + n * (idle / 2)

pub data Call : Type 0 where
  get_endpoint : PoolKey → ℕ → Answers → Call
  tick_at : ℕ → Call
  close_pool : Call

unfoldable pub step : ℕ → Call → Pool → Pool
unfolding endpoint tick close
step idle (get_endpoint k port a) p = (endpoint k port a p).1
step idle (tick_at now) p = tick idle now p
step idle close_pool p = close p

unfoldable pub run : ℕ → List Call → Pool → Pool
unfolding step
run idle [] p = p
run idle (c ∷ cs) p = run idle cs (step idle c p)
