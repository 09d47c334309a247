-- ===== src/Tests/Serving.antt =====
-- Examples of a configuration, of who is served under it, of the tools and of the KubeRay adapter.
use Prim.Native.String.{◌++◌}
use ray_mcp.Prelude.{◌++◌ as ◌<+>◌}
use ray_mcp.Prelude.{
  ℕ, suc, ◌+◌, ◌≤◌, ◌<◌, ◌≡◌, ◌≢◌, ◌⊎◌, ◌↔◌, ◌&&◌, inl, inr, refl, String, Bool, true, false,
  Option, none, some, List, [], ◌∷◌, length, arith, ltb, if◌then◌else◌, ◌==◌,
}
use ray_mcp.Prelude.Int.{pos}
use ray_mcp.Prelude.Utf8.{bytes}
use ray_mcp.Errors.{op_delete, other, ok, err}
use ray_mcp.Guards.{is_protected, fingerprint}
use ray_mcp.Ports.{result_of}
use ray_mcp.Config.{Config, Flags, Environment, is_loopback, validate, load, one_of}
use ray_mcp.Config.Valid.{reviewing, IsValid, load-IsValid}
use ray_mcp.Transport.{bearer, build_http_handler, serve, scheme}
use ray_mcp.Transport.Auth.{IsBuilt, served_authorized, loaded_builds_iff}
use ray_mcp.Kube.Events.{Event, bound_events, truncate_message}
use ray_mcp.Kube.Events.Stable.{only, alike}
use ray_mcp.Kube.Events.Order.{Ordered, EachBeforeAll, count_if, bound_events_lem}
use ray_mcp.Kube.Events.Cut.{truncate_splits}
use ray_mcp.Cluster.{ClusterWriteService}
use ray_mcp.Job.{JobService, JobGetRequest, JobGetResult, gate_raw, get}
use ray_mcp.Tools.{ray_cluster_delete, Backends, new_server, enabled_tiers}
use ray_mcp.Tools.Advertised.{tier, wired, times, times-new_server}
use ray_mcp.Tools.Deletes.{DeleteInput, DeleteOutput, cluster_delete_tool}
use ray_mcp.Tools.Confirmed.{cluster_output, read_trace, confirmed_in_two}
use ray_mcp.Tools.Jobs.{to_job_get_output}
use ray_mcp.Tools.Live.{Shows, get_output-Shows}
use ray_mcp.Tests.{ne_of, live_cluster, cluster_detail, job_detail, live_status, toy}

-- An address of all interfaces, served with a token.
abbrev env : Environment
env = record {
  getenv = λ k. if k == "RAY_MCP_AUTH_TOKEN" then some "s3" else none;
  service_account_file = some " team \n";
  split_host = λ addr. some "0.0.0.0";
  parse_ip = λ host. some false;
}

abbrev flags : Flags
flags = record {
  text_flag = λ f.
      if f == "transport"
      then some "http"
      else if f == "http-addr"
      then some "0.0.0.0:80"
      else none;
  bool_flag = λ f. none;
}

abbrev config : Config
config = record {
  transport = "http";
  context = "";
  kubeconfig = "";
  default_namespace = "team";
  allow_all_namespaces = false;
  ray_access = "auto";
  allow_mutations = false;
  allow_destructive = false;
  allow_raw_spec = true;
  log_level = "info";
  http_addr = "0.0.0.0:80";
  auth_mode = "static";
  auth_token = "s3";
  ray_dashboard_auth = "";
}

loaded : load env (ok flags) ≡ ok config
unfolding load
loaded = refl

load-IsValid_example : IsValid env config
load-IsValid_example = load-IsValid env (ok flags) config loaded

served_authorized_example :
    (("Bearer s3" ≡ scheme ++ config.auth_token) × (¬ (config.auth_token ≡ "")))
    ⊎ (is_loopback env config.http_addr ≡ true)
unfolding build_http_handler serve
served_authorized_example = served_authorized env config (bearer "s3") "Bearer s3" refl refl

-- The same flags with the mode tokenreview.
abbrev review_flags : Flags
review_flags = record flags {
  text_flag = λ f. if f == "auth-mode" then some "tokenreview" else flags.text_flag f;
}

review_loads : load env (ok review_flags) ≡ ok (reviewing config)
unfolding load
review_loads = refl

loaded_builds_iff_example :
    (IsBuilt (build_http_handler env config) ↔ (config.auth_mode ≡ "static"))
    × (validate env (reviewing config) ≡ none)
    × (¬ IsBuilt (build_http_handler env (reviewing config)))
loaded_builds_iff_example = loaded_builds_iff env (ok flags) config loaded refl

abbrev backends : Backends
backends = record { service_reader = true; service_getter = true; jobs = true }

times-new_server_example : times ray_cluster_delete (new_server config backends) ≡ (
    if one_of (tier ray_cluster_delete) (enabled_tiers config) && wired backends ray_cluster_delete
    then 1
    else 0)
times-new_server_example = times-new_server config backends ray_cluster_delete

abbrev event : String → ℕ → Event
event type at = record { type = type; reason = "r"; message = []; count = pos 1; last_seen = at }

abbrev three_events : List Event
three_events = event "Normal" 9 ∷ event "Warning" 1 ∷ event "Warning" 5 ∷ []

bound_events_lem_example :
    let out = bound_events three_events 2 in
    (dropped : List Event) × Ordered out
    × EachBeforeAll out dropped
    × (length out ≤ 2)
    × ((length out ≡ 2) ⊎ (dropped ≡ []))
    × ((p : Event → Bool) → count_if p out + count_if p dropped ≡ count_if p three_events)
    × ((k : Event) → only (alike k) out <+> only (alike k) dropped ≡ only (alike k) three_events)
bound_events_lem_example = bound_events_lem three_events 2

abbrev fifty : String
fifty = "aaaaaaaaaabbbbbbbbbbccccccccccddddddddddeeeeeeeeee"

-- 249 ASCII characters and an "é" of two bytes.
abbrev long_message : String
long_message =
    "aaaaaaaaaabbbbbbbbbbccccccccccddddddddddeeeeeeeeeeaaaaaaaaaabbbbbbbbbbccccccccccddddddddddeeeeeeeeeeaaaaaaaaaabbbbbbbbbbccccccccccddddddddddeeeeeeeeeeaaaaaaaaaabbbbbbbbbbccccccccccddddddddddeeeeeeeeeeaaaaaaaaaabbbbbbbbbbccccccccccddddddddddeeeeeeeeeé"

truncate_splits_example : truncate_message (bytes long_message) ≢ bytes "a"
unfolding bytes
truncate_splits_example = truncate_splits long_message "a" (omega arith) refl

abbrev writer : ClusterWriteService
writer = record { build_cluster_base = λ p. err (other "no base"); default_namespace = "team" }

abbrev input : DeleteInput
input = record { name = "demo"; namespace = ""; confirm = ""; force = false; dry_run = false }

abbrev fp : String
fp = fingerprint toy.digest live_cluster op_delete

fp-ne : fp ≢ ""
unfolding fingerprint ray_mcp.Prelude.Text.show_nat ray_mcp.Guards.preimage bytes
    ray_mcp.Guards.meta_string
fp-ne = ne_of fp "" refl

confirmed_in_two_example :
    ((out : DeleteOutput) × ((cluster_delete_tool toy writer input []).0 ≡ ok out)
      × (out.confirm ≡ fp)
      × (out.dry_run ≡ false))
    × ((cluster_delete_tool toy writer input []).1 ≡ read_trace toy writer input [] cluster_detail)
    × ((cluster_delete_tool toy writer (record input { confirm = fp }) []).0
        ≡ cluster_output writer (record input { confirm = fp }) (result_of none))
unfolding is_protected ray_mcp.Guards.annotation
confirmed_in_two_example =
    confirmed_in_two toy writer input [] cluster_detail (ne_of "demo" "" refl) refl refl fp-ne

abbrev service : JobService
service = record { default_namespace = "team" }

abbrev request : JobGetRequest
request = record { namespace = ""; name = "demo"; verbose = false }

abbrev job_result : JobGetResult
job_result = record {
  detail = gate_raw job_detail false;
  scheduled = true;
  live = some (live_status "RUNNING");
  degraded = false;
  degrade_reason = "";
  verbose = false;
}

get_output-Shows_example :
    Shows job_result (to_job_get_output job_result)
    × ((request.verbose ≡ true) ⊎ ((to_job_get_output job_result).raw ≡ none))
unfolding get
get_output-Shows_example = get_output-Shows toy service request [] job_result refl
