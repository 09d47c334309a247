-- ===== src/Tools/Advertised.antt =====
-- Which tools `NewServer` of internal/mcp/server.go advertises, and the tiers that it reports.
use ray_mcp.Prelude.{
  ℕ, ◌+◌, ◌≡◌, String, Bool, true, ◌&&◌, List, [], ◌∷◌, nat_eq, arith, if◌then◌else◌,
}
use ray_mcp.Config.{Config, one_of}
use ray_mcp.Tools.{
  Tool, ray_capabilities, ray_cluster_list, ray_cluster_get, ray_cluster_events, ray_service_list,
  ray_service_get, ray_job_list, ray_job_get, ray_job_logs, ray_job_wait, ray_cluster_create,
  ray_cluster_update, ray_cluster_scale, ray_cluster_delete, ray_job_submit, ray_job_delete,
  ray_service_deploy, ray_service_update, ray_service_delete, Backends, cluster_tools,
  service_tools, job_tools, cluster_write_tools, job_write_tools, service_write_tools, write_tools,
  new_server, enabled_tiers,
}

-- The tier that a tool belongs to.
abbrev pub tier : Tool → String
tier ray_cluster_create = "write"
tier ray_cluster_update = "write"
tier ray_cluster_scale = "write"
tier ray_job_submit = "write"
tier ray_job_delete = "write"
tier ray_service_deploy = "write"
tier ray_service_update = "write"
tier ray_cluster_delete = "destructive"
tier ray_service_delete = "destructive"
tier _ = "read"

-- The collaborator that a tool needs is there.
abbrev pub wired : Backends → Tool → Bool
wired b ray_service_list = b.service_reader
wired b ray_service_get = b.service_reader
wired b ray_job_list = b.jobs
wired b ray_job_get = b.jobs
wired b ray_job_logs = b.jobs
wired b ray_job_wait = b.jobs
wired b ray_service_deploy = b.service_getter
wired b ray_service_update = b.service_getter
wired b ray_service_delete = b.service_getter
wired b _ = true

abbrev number : Tool → ℕ
number ray_capabilities = 0
number ray_cluster_list = 1
number ray_cluster_get = 2
number ray_cluster_events = 3
number ray_service_list = 4
number ray_service_get = 5
number ray_job_list = 6
number ray_job_get = 7
number ray_job_logs = 8
number ray_job_wait = 9
number ray_cluster_create = 10
number ray_cluster_update = 11
number ray_cluster_scale = 12
number ray_cluster_delete = 13
number ray_job_submit = 14
number ray_job_delete = 15
number ray_service_deploy = 16
number ray_service_update = 17
number ray_service_delete = 18

abbrev pub tool_eq : Tool → Tool → Bool
tool_eq a b = nat_eq (number a) (number b)

-- How often a tool stands in the list.
abbrev pub times : Tool → List Tool → ℕ
times t [] = 0
times t (u ∷ us) = if tool_eq t u then 1 + times t us else times t us

-- For each configuration, each set of collaborators and each of the nineteen tools, the server
-- advertises the tool exactly once if the tool's tier is among the tiers that ray_capabilities
-- reports and the collaborator that it needs is there, and otherwise not at all.
pub times-new_server :
    (cfg : Config) (b : Backends) (t : Tool)
    → times t (new_server cfg b)
      ≡ (if one_of (tier t) (enabled_tiers cfg) && wired b t then 1 else 0)
unfolding new_server cluster_tools service_tools job_tools write_tools cluster_write_tools
    job_write_tools service_write_tools enabled_tiers one_of
times-new_server cfg b ray_capabilities = ground arith
times-new_server cfg b ray_cluster_list = ground arith
times-new_server cfg b ray_cluster_get = ground arith
times-new_server cfg b ray_cluster_events = ground arith
times-new_server cfg b ray_service_list = ground arith
times-new_server cfg b ray_service_get = ground arith
times-new_server cfg b ray_job_list = ground arith
times-new_server cfg b ray_job_get = ground arith
times-new_server cfg b ray_job_logs = ground arith
times-new_server cfg b ray_job_wait = ground arith
times-new_server cfg b ray_cluster_create = ground arith
times-new_server cfg b ray_cluster_update = ground arith
times-new_server cfg b ray_cluster_scale = ground arith
times-new_server cfg b ray_cluster_delete = ground arith
times-new_server cfg b ray_job_submit = ground arith
times-new_server cfg b ray_job_delete = ground arith
times-new_server cfg b ray_service_deploy = ground arith
times-new_server cfg b ray_service_update = ground arith
times-new_server cfg b ray_service_delete = ground arith
