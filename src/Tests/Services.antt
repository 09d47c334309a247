-- ===== src/Tests/Services.antt =====
-- Examples of deletes of a service, and of predicted paths.
use ray_mcp.Prelude.{◌∷◌, ◌≡◌, ◌≢◌, ◌⊎◌, refl, true, false, []}
use ray_mcp.Json.{
  Value, str, arr, obj, nil, cons, Fields, field, get, set, or_end, as_obj, IsWfFields,
}
use ray_mcp.Errors.{ray_service, op_delete, other, ok, err}
use ray_mcp.Guards.{is_protected, fingerprint}
use ray_mcp.Types.{ServiceDetail}
use ray_mcp.Ports.{deleted}
use ray_mcp.Cluster.Deletion.{deleter_calls}
use ray_mcp.Service.{ServiceWriteService, ServiceDeleteParams, delete}
use ray_mcp.Service.Serving.{service_serving_reason}
use ray_mcp.Service.Deletion.{delete_service_guarded}
use ray_mcp.Service.Classify.{classify, append_in_place}
use ray_mcp.Service.Classify.Append.{items_append, classify_append}
use ray_mcp.Tests.{
  one, group_small, group_large, cluster_spec, cluster_spec-IsWf, live_service, toy,
}

abbrev writer : ServiceWriteService
writer = record { build_service_base = λ p. err (other "no base"); default_namespace = "team" }

abbrev params : ServiceDeleteParams
params = record {
  namespace = "";
  name = "demo";
  confirm = fingerprint toy.digest live_service op_delete;
  force = true;
  dry_run = false;
}

delete_service_guarded_example :
    (deleter_calls (delete toy writer params []).1 ≡ deleter_calls [])
    ⊎ ((deleter_calls (delete toy writer params []).1
          ≡ deleted ray_service "team" "demo" false ∷ deleter_calls [])
        × ((detail : ServiceDetail) × (toy.on_get_service [] "team" "demo" ≡ ok detail)
            × (is_protected (or_end detail.raw) ≡ false)
            × ((true ≡ true) ⊎ (service_serving_reason (or_end detail.raw) ≡ ""))
            × (params.confirm ≢ "")
            × (params.confirm ≡ fingerprint toy.digest (or_end detail.raw) op_delete)))
unfolding ray_mcp.Ports.resolve_namespace
delete_service_guarded_example = delete_service_guarded toy writer params []

-- The spec of the service.
abbrev spec : Fields
spec = field "serveConfigV2" (str "a") (one "rayClusterConfig" (obj cluster_spec))

spec-IsWf : IsWfFields spec
unfolding get
spec-IsWf = (refl, tt, (refl, cluster_spec-IsWf, tt))

abbrev added : Value
added = obj (one "groupName" (str "gpu"))

abbrev grown : Fields
grown = one "rayClusterConfig" (
    obj (
      set "workerGroupSpecs"
        (arr (items_append (cons (obj group_small) (cons (obj group_large) nil)) (cons added nil)))
        cluster_spec))

classify_append_example : classify spec grown ≡ append_in_place
unfolding as_obj get
classify_append_example =
    classify_append spec cluster_spec (cons (obj group_small) (cons (obj group_large) nil)) added
      nil cluster_spec-IsWf refl refl ((refl, tt, tt), tt) grown refl
