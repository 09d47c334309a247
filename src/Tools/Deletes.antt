-- ===== src/Tools/Deletes.antt =====
-- The handlers of the three delete tools: internal/mcp/cluster_delete.go, job_delete.go and
-- service_write.go. A handler's result is its structured output; the text content is its message.
use Prim.Native.String.{◌++◌}
use ray_mcp.Prelude.{String, Bool, false, not, ◌==◌, if◌then◌else◌}
use ray_mcp.Prelude.Text.{quote}
use ray_mcp.Errors.{Error, confirm_required, other, Result, ok, err}
use ray_mcp.Ports.{World, M}
use ray_mcp.Cluster.{ClusterWriteService}
use ray_mcp.Cluster
use ray_mcp.Service.{ServiceWriteService}
use ray_mcp.Service
use ray_mcp.Job.Submit.{JobWriteService}
use ray_mcp.Job.Submit
use ray_mcp.Tools.{map_domain_error}

pub record DeleteInput : Type 0 where
  pub name : String
  pub namespace : String
  pub confirm : String
  pub force : Bool
  pub dry_run : Bool

pub record DeleteOutput : Type 0 where
  pub name : String
  pub namespace : String
  pub dry_run : Bool
  pub confirm : String
  pub message : String

-- `resolvedNamespace`, `jobResolvedNamespace` and `serviceResolvedNamespace`.
abbrev pub resolved_namespace : String → String → String
resolved_namespace ns default = if not (ns == "") then ns else default

abbrev pub failed : Error → Result DeleteOutput
failed e = err (map_domain_error e)

-- What the handler makes of the domain's result: a fingerprint to echo is an answer, not an error.
unfoldable pub deleted_output :
    String → String → String → DeleteInput → Result (Unit {0}) → Result DeleteOutput
unfolding map_domain_error quote
deleted_output kind warning default input (err (confirm_required op fp)) = ok (record {
  name = input.name;
  namespace = resolved_namespace input.namespace default;
  dry_run = false;
  confirm = fp;
  message =
      kind
      ++ " "
      ++ quote input.name
      ++ warning
      ++ "Re-issue with confirm="
      ++ quote fp
      ++ " to commit.";
})
deleted_output kind warning default input (err e) = failed e
deleted_output kind warning default input (ok u) = ok (record {
  name = input.name;
  namespace = resolved_namespace input.namespace default;
  dry_run = input.dry_run;
  confirm = "";
  message =
      kind
      ++ " "
      ++ quote input.name
      ++ " "
      ++ (if input.dry_run then "validated (dry-run, not deleted)" else "deleted");
})

abbrev pub no_name : Result DeleteOutput
no_name = err (other "name is required")

abbrev pub cluster_params : DeleteInput → Cluster.ClusterDeleteParams
cluster_params input = record {
  namespace = input.namespace;
  name = input.name;
  confirm = input.confirm;
  dry_run = input.dry_run;
}

unfoldable pub cluster_delete_tool : World → ClusterWriteService → DeleteInput → M DeleteOutput
unfolding deleted_output
cluster_delete_tool w s input t =
    let (r, t') = Cluster.delete w s (cluster_params input) t in
    if input.name == "" then (no_name, t) else (
      deleted_output "RayCluster" " will be deleted (cascades to its pods/services). "
          s.default_namespace input r,
      t',
    )

unfoldable pub service_delete_tool : World → ServiceWriteService → DeleteInput → M DeleteOutput
unfolding deleted_output
service_delete_tool w s input t =
    let (r, t') =
      Service.delete w s
        (record {
          namespace = input.namespace;
          name = input.name;
          confirm = input.confirm;
          force = input.force;
          dry_run = input.dry_run;
        })
        t in
    if input.name == "" then (no_name, t) else (
      deleted_output "RayService"
          " will be deleted (cascades to its owned cluster(s) and serve replicas). "
          s.default_namespace input r,
      t',
    )

-- `allow_destructive` is the configuration's.
unfoldable pub job_delete_tool : World → JobWriteService → Bool → DeleteInput → M DeleteOutput
unfolding deleted_output
job_delete_tool w s allow_destructive input t =
    let (r, t') =
      Submit.delete w s
        (record {
          namespace = input.namespace;
          name = input.name;
          confirm = input.confirm;
          allow_destructive = allow_destructive;
          dry_run = input.dry_run;
        })
        t in
    if input.name == "" then (no_name, t) else (
      deleted_output "RayJob"
          " is ephemeral: deleting it cascades to its RayCluster (and every actor/job on it). "
          s.default_namespace input r,
      t',
    )
