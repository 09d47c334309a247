-- ===== src/Kube/Shutdown.antt =====
-- The shutdown choice of a job's base: `BuildJobBase` of internal/adapters/kuberay/job_submit.go.
use mathlib.Core.Path.{subst}
use ray_mcp.Prelude.{◌≡◌, sym, ap, ◌∙◌, String, Bool, Option, none, some, arith}
use ray_mcp.Json.{bool, obj, Fields, as_obj, get, set}
use ray_mcp.Json.Lookup.{get-set_self}
use ray_mcp.Errors.{ok}
use ray_mcp.Job.Submit.{JobSubmitParams}
use ray_mcp.Kube.{Converted}
use ray_mcp.Kube.Create.{Quantity}
use ray_mcp.Kube.Create.Bounds.{bind-ok}
use ray_mcp.Kube.Bases.{
  RayJobObject, unstructured, job_object, in_spec, with_shutdown, job_target, build_job_base,
}

-- The choice stands in the spec of the base.
abbrev pub Says : Fields → Bool → Type 0
Says base shutdown =
    (spec : Fields) × (as_obj (get "spec" base) ≡ some spec)
    × (get "shutdownAfterJobFinishes" spec ≡ some (bool shutdown))

in_spec-Says :
    (name : String) (base out : Fields) (shutdown : Bool) (o : Option Fields)
    → in_spec name base shutdown o ≡ ok out
    → Says out shutdown
unfolding as_obj
in_spec-Says name base out shutdown none h = absurd (ground arith)
in_spec-Says name base out shutdown (some spec) h =
    let inner = set "shutdownAfterJobFinishes" (bool shutdown) spec in
    let same : set "spec" (obj inner) base ≡ out = ground (arith, h) in
    subst (λ (m : Fields). Says m shutdown) same
      (
        inner,
        ap as_obj (get-set_self "spec" (obj inner) base),
        get-set_self "shutdownAfterJobFinishes" (bool shutdown) spec,
      )

-- Each base that is built for a job with a shutdown choice, whatever the converter gives, has a spec
-- from which shutdownAfterJobFinishes reads back that very choice: an explicit false is kept.
pub build_job_base-Says :
    (parse : String → Quantity) (convert : RayJobObject → Converted) (p : JobSubmitParams)
    (base : Fields) (shutdown : Bool)
    → build_job_base parse convert p ≡ ok base
    → p.shutdown_after_job_finishes ≡ some shutdown
    → Says base shutdown
unfolding build_job_base
build_job_base-Says parse convert p base shutdown h e =
    let (target, t, h2) = bind-ok (job_target parse p) _ base h in
    let converted = unstructured "RayJob" p.name (convert (job_object p target)) in
    let (made, m, h3) =
      bind-ok converted (λ (x : Fields). with_shutdown p.name p.shutdown_after_job_finishes x) base
        h2 in
    let chosen = ap (λ (o : Option Bool). with_shutdown p.name o made) e in
    in_spec-Says p.name made base shutdown (as_obj (get "spec" made)) (sym chosen ∙ h3)
