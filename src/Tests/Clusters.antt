-- ===== src/Tests/Clusters.antt =====
-- Examples of deletes of a cluster.
use ray_mcp.Prelude.{
  ℕ, suc, ◌+◌, ◌≡◌, ◌≢◌, ◌⊎◌, refl, String, Bool, true, false, Option, none, some, List, [], ◌∷◌,
  arith, inl, inr,
}
use ray_mcp.Json.{or_end}
use ray_mcp.Errors.{ray_cluster, op_delete, other, ok, err}
use ray_mcp.Guards.{is_protected, fingerprint}
use ray_mcp.Types.{ClusterDetail}
use ray_mcp.Cluster.{ClusterWriteService, ClusterDeleteParams, delete}
use ray_mcp.Ports.{deleted}
use ray_mcp.Cluster.Deletion.{deleter_calls, delete_guarded}
use ray_mcp.Tests.{ne_of, live_cluster, toy}

abbrev service : ClusterWriteService
service = record { build_cluster_base = λ p. err (other "no base"); default_namespace = "team" }

abbrev fp : String
fp = fingerprint toy.digest live_cluster op_delete

abbrev params : String → ClusterDeleteParams
params confirm = record { namespace = ""; name = "demo"; confirm = confirm; dry_run = false }

delete_guarded_example :
    (deleter_calls (delete toy service (params fp) []).1 ≡ deleter_calls [])
    ⊎ ((deleter_calls (delete toy service (params fp) []).1
          ≡ deleted ray_cluster "team" "demo" false ∷ deleter_calls [])
        × ((detail : ClusterDetail) × (toy.on_get_cluster [] "team" "demo" ≡ ok detail)
            × (is_protected (or_end detail.raw) ≡ false)
            × (fp ≢ "")
            × (fp ≡ fingerprint toy.digest (or_end detail.raw) op_delete)))
unfolding ray_mcp.Ports.resolve_namespace
delete_guarded_example = delete_guarded toy service (params fp) []

fp-ne : fp ≢ ""
unfolding fingerprint ray_mcp.Prelude.Text.show_nat ray_mcp.Guards.preimage
    ray_mcp.Prelude.Utf8.bytes ray_mcp.Guards.meta_string
fp-ne = ne_of fp "" refl
