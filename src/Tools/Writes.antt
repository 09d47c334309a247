-- ===== src/Tools/Writes.antt =====
-- The handlers of the write tools: internal/mcp/cluster_write.go, cluster_update.go, service_write.go and
-- job_submit.go.
--
-- The decoded input is the domain's parameters, field by field; `render` is the `%v` of a JSON value.
use Prim.Native.String.{◌++◌}
use ray_mcp.Prelude.{
  ℕ, zero, suc, String, Bool, not, ◌&&◌, Option, none, some, List, [], ◌∷◌, length, ◌==◌, ltb,
  nat_eq, if◌then◌else◌,
}
use ray_mcp.Prelude.Text.{quote, show_nat, join}
use ray_mcp.Json.{Value, Fields, size}
use ray_mcp.Errors.{Error, other, Result, ok, err}
use ray_mcp.Diff.{modified, added, removed, subtree, FieldChange, field_count}
use ray_mcp.Ports.{World, M}
use ray_mcp.Apply.{ApplyResult}
use ray_mcp.Cluster.{ClusterWriteService, ClusterCreateParams, create}
use ray_mcp.Cluster.Update.{ClusterUpdateParams, update}
use ray_mcp.Service.{
  ServiceWriteService, ServiceDeployParams, ServiceDeployResult, ServiceUpdateParams,
  ServiceUpdateResult,
}
use ray_mcp.Service
use ray_mcp.Job.Submit.{JobWriteService, JobSubmitParams, JobSubmitResult, submit}
use ray_mcp.Tools.{map_domain_error}
use ray_mcp.Tools.Deletes.{resolved_namespace}

pub record WriteOutput : Type 0 where
  pub name : String
  pub namespace : String
  pub dry_run : Bool
  pub field_count : ℕ
  pub diff : List FieldChange

unfoldable pub field_change_headline : (Value → String) → FieldChange → String
unfolding show_nat
field_change_headline render c = elim c.kind [
  | modified ↦
      if ltb 0 c.field_count
      then c.path ++ " changed (" ++ show_nat c.field_count ++ " fields)"
      else c.path ++ " " ++ render c.old ++ "→" ++ render c.new
  | added ↦
      if ltb 0 c.field_count
      then "+" ++ c.path ++ " (" ++ show_nat c.field_count ++ " fields)"
      else "+" ++ c.path ++ "=" ++ render c.new
  | removed ↦ "-" ++ c.path
  | subtree ↦ c.path ++ " changed (" ++ show_nat c.field_count ++ " fields)"
]

-- The first `n` headlines, and how many changes are left.
unfoldable pub headlines : (Value → String) → ℕ → List FieldChange → List String
unfolding field_change_headline show_nat
headlines render n [] = []
headlines render zero (c ∷ cs) = ("(+" ++ show_nat (length (c ∷ cs)) ++ " more)") ∷ []
headlines render (suc n) (c ∷ cs) = field_change_headline render c ∷ headlines render n cs

abbrev pub max_inline : ℕ
max_inline = 5

unfoldable pub diff_headline : (Value → String) → List FieldChange → String
unfolding headlines join
diff_headline render cs = join ", " (headlines render max_inline cs)

-- `toClusterCreateOutput` and `toClusterWriteOutput`.
unfoldable pub to_write_output : String → String → ApplyResult → WriteOutput
unfolding field_count
to_write_output name namespace res = record {
  name = name;
  namespace = namespace;
  dry_run = res.dry_run;
  field_count = field_count res.diff;
  diff = res.diff;
}

abbrev pub object_in : String → WriteOutput → String
object_in kind out = kind ++ " " ++ quote out.name ++ " in namespace " ++ quote out.namespace ++ " "

-- `clusterCreateSummary`, and `serviceDeploySummary` with its own verbs.
unfoldable pub created_summary : (Value → String) → String → String → String → WriteOutput → String
unfolding quote show_nat diff_headline
created_summary render kind verb dry_verb out =
    let start = object_in kind out ++ (if out.dry_run then dry_verb else verb) in
    if nat_eq out.field_count 0
    then start
    else start
      ++ "; server set "
      ++ show_nat out.field_count
      ++ " field(s): "
      ++ diff_headline render out.diff

unfoldable pub cluster_write_summary : (Value → String) → String → String → WriteOutput → String
unfolding quote show_nat diff_headline
cluster_write_summary render kind verb out =
    let start =
      object_in kind out
      ++ (if out.dry_run then "validated (dry-run, nothing changed)" else verb) in
    if nat_eq out.field_count 0
    then start
    else start
      ++ "; "
      ++ show_nat out.field_count
      ++ " field(s) changed: "
      ++ diff_headline render out.diff

unfoldable pub service_update_summary : (Value → String) → String → WriteOutput → String
unfolding cluster_write_summary
service_update_summary render predicted out =
    cluster_write_summary render "RayService" "updated" out
    ++ (if predicted == "" then "" else "; predicted path: " ++ predicted)

unfoldable pub job_submit_summary : JobSubmitResult → String
unfolding quote
job_submit_summary out =
    "RayJob "
    ++ quote out.name
    ++ " in namespace "
    ++ quote out.namespace
    ++ " "
    ++ (if out.dry_run then "validated (dry-run, nothing submitted)" else "submitted")
    ++ " ("
    ++ (if out.ephemeral then "ephemeral cluster" else "existing cluster")
    ++ "); "
    ++ (if not (out.job_id == "")
        then "jobId=" ++ out.job_id
        else if not (out.deployment_status == "")
        then out.deployment_status
        else "pending schedule")

-- The two checks in front of a write, and the answer that they give.
unfoldable pub refusal : Bool → String → Fields → Option Error
refusal allow_raw_spec name raw_spec =
    if name == ""
    then some (other "name is required")
    else if not allow_raw_spec && ltb 0 (size raw_spec)
    then some (other "rawSpec is disabled (--allow-raw-spec=false)")
    else none

abbrev pub output_of : {A B : Type 0} → (A → B) → Result A → Result B
output_of f (ok a) = ok (f a)
output_of f (err e) = err (map_domain_error e)

abbrev pub unless : {A B : Type 0} → Option Error → (A → B) → M A → M B
unless (some e) f run t = (err e, t)
unless none f run t = (output_of f (run t).0, (run t).1)

unfoldable pub cluster_create_tool :
    World → ClusterWriteService → Bool → ClusterCreateParams → M WriteOutput
unfolding refusal to_write_output map_domain_error
cluster_create_tool w s allow_raw_spec p =
    unless (refusal allow_raw_spec p.name p.raw_spec)
      (to_write_output p.name (resolved_namespace p.namespace s.default_namespace)) (create w s p)

unfoldable pub cluster_update_tool :
    World → ClusterWriteService → Bool → ClusterUpdateParams → M WriteOutput
unfolding refusal to_write_output map_domain_error
cluster_update_tool w s allow_raw_spec p =
    unless (refusal allow_raw_spec p.name p.raw_spec)
      (to_write_output p.name (resolved_namespace p.namespace s.default_namespace)) (update w s p)

unfoldable pub service_deploy_tool :
    World → ServiceWriteService → Bool → ServiceDeployParams → M WriteOutput
unfolding refusal to_write_output map_domain_error
service_deploy_tool w s allow_raw_spec p =
    unless (refusal allow_raw_spec p.name p.raw_spec)
      (λ res. to_write_output res.name res.namespace res.applied) (Service.deploy w s p)

unfoldable pub service_update_tool :
    World → ServiceWriteService → Bool → ServiceUpdateParams → M (WriteOutput × String)
unfolding refusal to_write_output map_domain_error
service_update_tool w s allow_raw_spec p =
    unless (refusal allow_raw_spec p.name p.raw_spec)
      (λ res. (to_write_output res.name res.namespace res.applied, res.predicted_path))
      (Service.update w s p)

unfoldable pub job_submit_tool :
    World → JobWriteService → Bool → JobSubmitParams → M JobSubmitResult
unfolding refusal map_domain_error
job_submit_tool w s allow_raw_spec p =
    unless (refusal allow_raw_spec p.name p.raw_spec) (λ res. res) (submit w s p)
