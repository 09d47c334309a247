-- ===== src/Tools.antt =====
-- The MCP server, internal/mcp: which tools it advertises (server.go and the `add...Tools` functions),
-- the tiers that it reports (capabilities.go) and how it renders an error (errors.go).
--
-- A handler's Go error is its text to the SDK, so an error that a tool makes is `other`.
pub mod Advertised
pub mod Deletes
pub mod Confirmed
pub mod Rows
pub mod Writes
pub mod Jobs
pub mod Live
use Prim.Native.String.{◌++◌ as ◌<+>◌}
use ray_mcp.Prelude.{String, Bool, true, false, List, [], ◌∷◌, ◌++◌, if◌then◌else◌}
use ray_mcp.Prelude.Text.{join}
use ray_mcp.Errors.{
  Error, not_found, forbidden, conflict, unreachable, timeout, identity, confirm_required,
  serving_refused, confirm_mismatch, other, error_text,
}
use ray_mcp.Config.{Config}

pub data Tool : Type 0 where
  ray_capabilities : Tool
  ray_cluster_list ray_cluster_get ray_cluster_events : Tool
  ray_service_list ray_service_get : Tool
  ray_job_list ray_job_get ray_job_logs ray_job_wait : Tool
  ray_cluster_create ray_cluster_update ray_cluster_scale ray_cluster_delete : Tool
  ray_job_submit ray_job_delete : Tool
  ray_service_deploy ray_service_update ray_service_delete : Tool

-- What the collaborators of `NewServer` can do: the read backend as a ServiceReader and as a
-- ServiceGetter, and the wedge's Jobs.
pub record Backends : Type 0 where
  pub service_reader : Bool
  pub service_getter : Bool
  pub jobs : Bool

abbrev pub when : Bool → List Tool → List Tool
when b ts = if b then ts else []

unfoldable pub cluster_tools : List Tool
cluster_tools = ray_cluster_list ∷ ray_cluster_get ∷ ray_cluster_events ∷ []

unfoldable pub service_tools : List Tool
service_tools = ray_service_list ∷ ray_service_get ∷ []

unfoldable pub job_tools : List Tool
job_tools = ray_job_list ∷ ray_job_get ∷ ray_job_logs ∷ ray_job_wait ∷ []

unfoldable pub cluster_write_tools : Bool → List Tool
cluster_write_tools allow_destructive =
    ray_cluster_create
    ∷ ray_cluster_update
    ∷ ray_cluster_scale
    ∷ when allow_destructive (ray_cluster_delete ∷ [])

unfoldable pub job_write_tools : List Tool
job_write_tools = ray_job_submit ∷ ray_job_delete ∷ []

unfoldable pub service_write_tools : Bool → List Tool
service_write_tools allow_destructive =
    ray_service_deploy ∷ ray_service_update ∷ when allow_destructive (ray_service_delete ∷ [])

unfoldable pub write_tools : Config → Backends → List Tool
unfolding cluster_write_tools job_write_tools service_write_tools
write_tools cfg b =
    cluster_write_tools cfg.allow_destructive
    ++ (job_write_tools ++ when b.service_getter (service_write_tools cfg.allow_destructive))

-- The tools that `NewServer` registers, in its order.
unfoldable pub new_server : Config → Backends → List Tool
unfolding cluster_tools service_tools job_tools write_tools
new_server cfg b =
    ray_capabilities
    ∷ (cluster_tools
        ++ (when b.service_reader service_tools
            ++ (when b.jobs job_tools ++ when cfg.allow_mutations (write_tools cfg b))))

unfoldable pub enabled_tiers : Config → List String
enabled_tiers cfg =
    if cfg.allow_mutations
    then (if cfg.allow_destructive
        then "read" ∷ "write" ∷ "destructive" ∷ []
        else "read" ∷ "write" ∷ [])
    else "read" ∷ []

pub record CapabilitiesOutput : Type 0 where
  pub server_version : String
  pub kube_context : String
  pub default_namespace : String
  pub enabled_tiers : List String
  pub kube_ray_tested : String

unfoldable pub capabilities_summary : CapabilitiesOutput → String
unfolding join
capabilities_summary out =
    "ray-mcp "
    <+> (out.server_version
        <+> (" | context "
            <+> (out.kube_context
                <+> (" | default-namespace "
                    <+> (out.default_namespace
                        <+> (" | tiers: "
                            <+> (join "," out.enabled_tiers
                                <+> (" | KubeRay tested " <+> out.kube_ray_tested))))))))

-- The errors of the taxonomy become their text; the others pass unchanged.
unfoldable pub map_domain_error : Error → Error
map_domain_error (not_found k ns name) = other (error_text (not_found k ns name))
map_domain_error (forbidden verb resource ns) = other (error_text (forbidden verb resource ns))
map_domain_error (conflict k ns name detail) = other (error_text (conflict k ns name detail))
map_domain_error (identity field want got) = other (error_text (identity field want got))
map_domain_error (unreachable e reason) = other (error_text (unreachable e reason))
map_domain_error (timeout op) = other (error_text (timeout op))
map_domain_error (confirm_mismatch op) = other (error_text (confirm_mismatch op))
map_domain_error e = e
