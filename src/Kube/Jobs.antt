-- ===== src/Kube/Jobs.antt =====
-- internal/adapters/kuberay/job.go: the RayJob reads and the distilled status.
use Prim.Native.String.{◌++◌}
use ray_mcp.Prelude.{ℕ, String, Option, [], ◌∷◌, ◌==◌, if◌then◌else◌}
use ray_mcp.Errors.{ray_job, Error, Result}
use ray_mcp.Types.{JobSummary, JobDetail, Page, ListOptions}
use ray_mcp.Reads.{health_line, condition_reason}
use ray_mcp.Kube.{Reply, ListRequest, list_page, get_object, Converted, with_raw, age_of}

pub record RayJob : Type 0 where
  pub name : String
  pub namespace : String
  pub created : ℕ
  pub job_id : String
  pub job_status : String
  pub job_deployment_status : String
  pub dashboard_url : String
  pub ray_cluster_name : String
  pub reason : String
  pub message : String

unfoldable pub deployment_status_or_unknown : RayJob → String
deployment_status_or_unknown rj =
    if rj.job_deployment_status == "" then "Unknown" else rj.job_deployment_status

unfoldable pub ray_phase_segment : RayJob → String
ray_phase_segment rj = if rj.job_status == "" then "" else "job " ++ rj.job_status

unfoldable pub job_health : RayJob → String
unfolding deployment_status_or_unknown ray_phase_segment health_line condition_reason
job_health rj = health_line (
    deployment_status_or_unknown rj
    ∷ ray_phase_segment rj
    ∷ condition_reason rj.reason rj.message
    ∷ [])

unfoldable pub to_job_summary : ℕ → RayJob → JobSummary
unfolding job_health age_of
to_job_summary now rj = record {
  name = rj.name;
  namespace = rj.namespace;
  job_status = rj.job_status;
  job_deployment_status = rj.job_deployment_status;
  age = age_of now rj.created;
  health = job_health rj;
}

unfoldable pub to_job_detail : ℕ → (RayJob → Converted) → RayJob → Result JobDetail
unfolding to_job_summary
to_job_detail now convert rj =
    with_raw ray_job rj.name
      (λ raw. record {
        summary = to_job_summary now rj;
        job_id = rj.job_id;
        dashboard_url = rj.dashboard_url;
        ray_cluster_name = rj.ray_cluster_name;
        raw = raw;
      })
      (convert rj)

unfoldable pub list_jobs :
    ℕ
    → Option Error
    → (ListRequest → Reply (Page RayJob))
    → String
    → ListOptions
    → Result (Page JobSummary)
unfolding list_page to_job_summary
list_jobs now connect ask = list_page connect ask ray_job (to_job_summary now)

unfoldable pub get_job :
    ℕ
    → Option Error
    → (RayJob → Converted)
    → (String → String → Reply RayJob)
    → String
    → String
    → Result JobDetail
unfolding get_object to_job_detail
get_job now connect convert ask = get_object connect ask ray_job (to_job_detail now convert)
