-- ===== src/Tests/Reaching.antt =====
-- Examples of the pool of tunnels, of the client of the dashboard and of a job's read over both.
use ray_mcp.Prelude.{
  ℕ, zero, suc, ◌+◌, ◌*◌, ◌/◌, ◌≤◌, ◌<◌, ◌≡◌, ◌≢◌, ◌⊎◌, ◌↔◌, inl, inr, refl, String, Bool, true,
  false, Option, none, some, List, [], ◌∷◌, length, arith, ltb, if◌then◌else◌,
}
use ray_mcp.Prelude.Int.{pos}
use ray_mcp.Prelude.Utf8.{bytes}
use ray_mcp.Errors.{not_found, ok, err}
use ray_mcp.Types.{JobDetail, LogOptions}
use ray_mcp.Ports.{World}
use ray_mcp.Reach.Pool.{
  PoolKey, Entry, Pool, Answers, Call, get_endpoint, tick_at, new_pool, find, handles, endpoint,
  run, tick_time,
}
use ray_mcp.Reach.Pool.Slots.{Unique, count}
use ray_mcp.Reach.Pool.Owned.{run_owned}
use ray_mcp.Reach.Pool.Returned.{After, endpoint-After}
use ray_mcp.Reach.Pool.Live.{TicksAt, closed_in_time}
use ray_mcp.Reach.Resolver.{got, Resolving, resolve}
use ray_mcp.Reach.Unreachable.{reached, DialerIsTyped}
use ray_mcp.Dash.Logs.{bound_logs}
use ray_mcp.Dash.Logs.Bound.{Kept, line_cap, byte_cap, bound_logs-tail}
use ray_mcp.Dash.{parsed, malformed, responded, eof, Packages, Client, job_status}
use ray_mcp.Dash.Wired.{Wired, wired_get_fails_only}
use ray_mcp.Job.{JobService, JobGetRequest, is_scheduled, get}
use ray_mcp.Tests.{toy}

abbrev key : PoolKey
key = record { namespace = "team"; cluster = "demo" }

-- A tunnel is dialled to local port 40000, and stays up.
abbrev dials : ℕ → Answers
dials now = record {
  now = now;
  lost = λ h. false;
  pod = ok "demo-head";
  dial = λ ns pod port. ok 40000;
}

-- Opened at 1, used again at 4, swept at 20 with an idle time of 10.
abbrev calls : List Call
calls =
    get_endpoint key 8265 (dials 1) ∷ get_endpoint key 8265 (dials 4) ∷ tick_at 5 ∷ tick_at 20 ∷ []

run_owned_example :
    let p = run 10 calls new_pool in
    Unique p.tunnels
    × (count 0 (handles p.tunnels) + count 0 p.closed ≡ (if ltb 0 p.opened then 1 else 0))
run_owned_example = run_owned 10 calls 0

-- The sweep at 20 has closed it.
closed_once : (run 10 calls new_pool).closed ≡ 0 ∷ []
unfolding run
closed_once = refl

endpoint-After_example :
    After key
      (dials 1)
      new_pool
      (endpoint key 8265 (dials 1) new_pool).0
      (endpoint key 8265 (dials 1) new_pool).1
endpoint-After_example = endpoint-After key 8265 (dials 1) new_pool

abbrev open_pool : Pool
open_pool = run 10 (get_endpoint key 8265 (dials 1) ∷ []) new_pool

abbrev entry : Entry
entry = record { handle = 0; base_url = "http://127.0.0.1:40000"; last_used = 1 }

-- The reaper started at 1: its ticks are at 6, 11 and 16.
abbrev reaper : List Call
reaper = tick_at 6 ∷ tick_at 11 ∷ tick_at 16 ∷ []

open_pool-found : find key open_pool.tunnels ≡ some entry
unfolding find run ray_mcp.Prelude.Text.show_nat
open_pool-found = refl

reaper_ticks :
    (n : ℕ) → 0 < n → tick_time 10 1 n ≤ 1 + 10 + 10 / 2 → TicksAt (tick_time 10 1 n) reaper
reaper_ticks zero p le = absurd (omega arith)
reaper_ticks (suc zero) p le = inl (omega arith)
reaper_ticks (suc (suc zero)) p le = inr (inl (omega arith))
reaper_ticks (suc (suc (suc zero))) p le = inr (inr (inl (omega arith)))
reaper_ticks (suc (suc (suc (suc n)))) p le = absurd (omega arith)

closed_in_time_example : 1 ≤ count 0 (run 10 reaper open_pool).closed
unfolding run
closed_in_time_example =
    closed_in_time 10 1 key open_pool entry reaper (omega arith) (omega arith) refl open_pool-found
      tt reaper_ticks

abbrev resolving : Resolving
resolving = record {
  ray_access = "auto";
  in_cluster = false;
  head_service = λ k. got "demo-head-svc";
  head_pods = λ k. got (record { name = "demo-head"; phase = "Running"; terminating = false } ∷ []);
  now = 1;
  lost = λ h. false;
  dial = λ ns pod port. ok 40000;
}

resolving-typed : DialerIsTyped resolving.dial
resolving-typed ns pod port = reached 40000

-- Three lines, of which two are asked for, within four bytes: the first of them is half of the "é".
abbrev tail_options : LogOptions
tail_options = record { tail_lines = pos 2; max_bytes = pos 4 }

tail_text : (bound_logs (bytes "a\ncé\nd\n") tail_options).text ≡ bytes "\nd\n"
unfolding bytes bound_logs
tail_text = refl

bound_logs-tail_example :
    let r = bound_logs (bytes "a\ncé\nd\n") tail_options in
    Kept "a\ncé\nd\n" (line_cap tail_options) (byte_cap tail_options) r.text
    × (r.bytes_omitted + length r.text ≡ length (bytes "a\ncé\nd\n"))
    × ((r.truncated ≡ false) ↔ (r.text ≡ bytes "a\ncé\nd\n"))
bound_logs-tail_example = bound_logs-tail "a\ncé\nd\n" tail_options

-- A dashboard that answers 404.
abbrev network : Packages
network = record {
  parse_url = λ u. parsed u;
  path_escape = λ s. s;
  resolve_reference = λ base ref. base;
  request = λ url header. responded 404 [] eof;
  decode_status = λ body. malformed "empty";
  decode_logs = λ body. malformed "empty";
}

abbrev client : Client
client = record { dash_auth = "" }

abbrev wired_world : World
wired_world = record toy {
  on_endpoint = λ t ns cluster port.
      (resolve resolving (record { namespace = ns; cluster = cluster }) (pos port) new_pool).0;
  on_job_status = λ t e id. job_status network client e id;
}

abbrev wired : Wired wired_world
wired = record {
  resolver = λ t. resolving;
  pool = λ t. new_pool;
  network = λ t. network;
  client = client;
  typed = λ t. resolving-typed;
  endpoints = λ t ns cluster port. refl;
  statuses = λ t e id. refl;
}

abbrev service : JobService
service = record { default_namespace = "team" }

abbrev request : JobGetRequest
request = record { namespace = ""; name = "demo"; verbose = false }

-- The job's read is refused, since the dashboard does not know the job.
unknown : (get wired_world service request []).0 ≡ err (not_found none "" "j1")
unfolding get resolve job_status
unknown = refl

wired_get_fails_only_example :
    (wired_world.on_get_job [] "team" "demo" ≡ err (not_found none "" "j1"))
    ⊎ ((detail : JobDetail) × (wired_world.on_get_job [] "team" "demo" ≡ ok detail)
        × (is_scheduled detail ≡ true)
        × (not_found none "" "j1" ≡ not_found none "" detail.job_id))
wired_get_fails_only_example =
    wired_get_fails_only wired_world wired service request [] (not_found none "" "j1") unknown
