-- ===== src/Tests/Jobs.antt =====
-- Examples of reads, waits, submits and deletes of a job.
use ray_mcp.Prelude.{
  ◌+◌, ◌≤◌, ◌≡◌, ◌⊎◌, ◌↔◌, refl, String, Bool, true, false, Option, none, some, [], ◌∷◌, arith,
  ◌==◌, if◌then◌else◌,
}
use ray_mcp.Prelude.Int.{pos}
use ray_mcp.Json.{end, or_end}
use ray_mcp.Errors.{ray_job, op_delete, other, not_found, Result, ok, err, is_ok}
use ray_mcp.Guards.{is_protected, fingerprint}
use ray_mcp.Types.{JobDetail}
use ray_mcp.Ports.{Call, deleted, slept, got, resolved, asked_status, Trace, World}
use ray_mcp.Cluster.Deletion.{deleter_calls}
use ray_mcp.Cluster.{ResourceQuantities}
use ray_mcp.Job.{
  JobService, JobGetRequest, JobGetResult, gate_raw, is_scheduled, degrade_reason, dial_status, get,
}
use ray_mcp.Job.Dial.{IsCoherent, after_read, get-IsCoherent, get_fails_only}
use ray_mcp.Job.Wait.{JobWaitRequest, JobWaitResult, clamp_wait, poll_once, wait}
use ray_mcp.Job.Wait.Bound.{IsClock, wait_returns, wait_honest}
use ray_mcp.Job.Wait.Poll.{Evidence, poll-Evidence}
use ray_mcp.Job.Submit.{JobSubmitParams, JobDeleteParams, JobWriteService, validate, delete}
use ray_mcp.Job.Submit.Target.{IsSubmittable, validate_iff}
use ray_mcp.Job.Deletion.{Cleared, delete_job_guarded}
use ray_mcp.Tests.{ne_of, live_job, job_detail, live_status, toy}

abbrev service : JobService
service = record { default_namespace = "team" }

abbrev get_request : JobGetRequest
get_request = record { namespace = ""; name = "demo"; verbose = false }

abbrev get_result : JobGetResult
get_result = record {
  detail = gate_raw job_detail false;
  scheduled = true;
  live = some (live_status "RUNNING");
  degraded = false;
  degrade_reason = "";
  verbose = false;
}

get-IsCoherent_example : IsCoherent get_request get_result
unfolding get
get-IsCoherent_example = get-IsCoherent toy service get_request [] get_result refl

-- The same cluster with a dashboard that does not know the job.
abbrev lost : World
lost = record toy { on_job_status = λ t e id. err (not_found none "" "j1") }

get_fails_only_example :
    (lost.on_get_job [] "team" "demo" ≡ err (not_found none "" "j1"))
    ⊎ ((detail : JobDetail) × (lost.on_get_job [] "team" "demo" ≡ ok detail)
        × (is_scheduled detail ≡ true)
        × ((dial_status lost "team" detail (after_read lost service get_request [])).0
            ≡ err (not_found none "" "j1"))
        × (degrade_reason (not_found none "" "j1") ≡ none))
unfolding get
get_fails_only_example = get_fails_only lost service get_request [] (not_found none "" "j1") refl

abbrev wait_request : JobWaitRequest
wait_request = record { namespace = ""; name = "demo"; until = ""; wait_seconds = pos 90 }

abbrev wait_result : String → JobWaitResult
wait_result until = record {
  detail = job_detail;
  until = until;
  reached = true;
  scheduled = true;
  live = some (live_status "RUNNING");
  degraded = false;
  degrade_reason = "";
}

abbrev wait_trace : Trace
wait_trace =
    asked_status (record { base_url = "demo:8265" }) "j1"
    ∷ resolved "team" "demo" 8265
    ∷ got ray_job "team" "demo"
    ∷ []

toy-IsClock : IsClock toy
toy-IsClock = record { monotonic = λ c t. ground arith; sleeps = λ d t h. ground arith }

wait_returns_example :
    (r : Result JobWaitResult × Trace) × (wait toy service wait_request [] ≡ some r)
wait_returns_example = wait_returns toy toy-IsClock service wait_request []

waited : wait toy service wait_request [] ≡ some (ok (wait_result "running"), wait_trace)
unfolding wait ray_mcp.Ports.resolve_namespace
waited = refl

wait_honest_example :
    ((wait_result "running").until
      ≡ (if wait_request.until == "" then "running" else wait_request.until))
    × ((true ≡ true) ⊎ (toy.now [] + clamp_wait (pos 90) ≤ toy.now wait_trace))
wait_honest_example =
    wait_honest toy service wait_request [] wait_trace (wait_result "running") waited

poll-Evidence_example : Evidence toy "team" "demo" "running" [] (wait_result "")
unfolding poll_once
poll-Evidence_example = poll-Evidence toy "team" "demo" "running" [] (wait_result "") refl refl

abbrev no_resources : ResourceQuantities
no_resources = record { cpu = ""; memory = ""; gpu = "" }

-- A submit with a cluster of its own.
abbrev submit_params : Option Bool → JobSubmitParams
submit_params shutdown = record {
  namespace = "team";
  name = "demo";
  entrypoint = "python main.py";
  existing_cluster = "";
  cluster_spec = some (record {
    ray_version = "2.9.0";
    image = "ray:2.9.0";
    head_resources = no_resources;
    worker_groups = [];
    enable_autoscaling = false;
  });
  runtime_env_yaml = "";
  metadata = [];
  shutdown_after_job_finishes = shutdown;
  raw_spec = end;
  dry_run = false;
}

validate_iff_example :
    (is_ok (validate (submit_params none)) ≡ true) ↔ IsSubmittable (submit_params none)
validate_iff_example = validate_iff (submit_params none)

abbrev writer : JobWriteService
writer = record { build_job_base = λ p. err (other "no base"); default_namespace = "team" }

-- A submit with both targets.
abbrev two_targets : JobSubmitParams
two_targets = record (submit_params none) { existing_cluster = "other" }

two_targets-unsubmittable : ¬ IsSubmittable two_targets
two_targets-unsubmittable rules = ground (arith, rules, ne_of "other" "" refl)

abbrev delete_params : JobDeleteParams
delete_params = record {
  namespace = "";
  name = "demo";
  confirm = fingerprint toy.digest live_job op_delete;
  allow_destructive = true;
  dry_run = false;
}

delete_job_guarded_example :
    (deleter_calls (delete toy writer delete_params []).1 ≡ deleter_calls [])
    ⊎ ((deleter_calls (delete toy writer delete_params []).1
          ≡ deleted ray_job "team" "demo" false ∷ deleter_calls [])
        × ((detail : JobDetail) × (toy.on_get_job [] "team" "demo" ≡ ok detail)
            × (is_protected (or_end detail.raw) ≡ false)
            × Cleared toy writer delete_params [] (or_end detail.raw)))
unfolding ray_mcp.Ports.resolve_namespace
delete_job_guarded_example = delete_job_guarded toy writer delete_params []
