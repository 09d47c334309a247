-- ===== src/Service/Serving.antt =====
-- `serviceServingReason` of internal/domain/service_write.go and what it reads.
use Prim.Native.String.{◌++◌}
use ray_mcp.Prelude.{
  ℕ, zero, suc, ◌/◌, ◌^◌, String, Bool, false, Option, none, some, ◌==◌, if◌then◌else◌,
}
use ray_mcp.Prelude.Int.{pos}
use ray_mcp.Prelude.Text.{show_nat}
use ray_mcp.Json.{
  Value, int, float, obj, Items, nil, cons, Fields, get, as_obj, as_arr, as_str, or_empty, or_nil,
  or_end,
}

-- `numberField`, at the two things the code asks of the number: whether it is above zero, and its
-- integer part. An int64 as a float64 keeps both, but for the rounding of integers above 2^53.
unfoldable pub positive_part : Option Value → Option ℕ
positive_part (some (int (pos zero))) = none
positive_part (some (int (pos (suc n)))) = some (suc n)
positive_part (some (float (pos zero) k)) = none
positive_part (some (float (pos (suc m)) k)) = some (suc m / 2 ^ k)
positive_part _ = none

-- The entry's type and status, where it is a map.
abbrev pub condition_type : Value → Option String
condition_type (obj c) = some (or_empty (as_str (get "type" c)))
condition_type _ = none

abbrev pub condition_status : Value → String
condition_status (obj c) = or_empty (as_str (get "status" c))
condition_status _ = ""

abbrev pub is_type : String → Option String → Bool
is_type t none = false
is_type t (some s) = s == t

-- The first entry of the type decides.
unfoldable pub condition_true : Items → String → Bool
condition_true nil t = false
condition_true (cons c cs) t =
    let rest = condition_true cs t in
    if is_type t (condition_type c) then condition_status c == "True" else rest

unfoldable pub status_condition_true : Fields → String → Bool
unfolding condition_true
status_condition_true status t = condition_true (or_nil (as_arr (get "conditions" status))) t

abbrev pub endpoints_text : Option ℕ → Option String
endpoints_text none = none
endpoints_text (some n) = some (show_nat n ++ " ready serve endpoint(s)")

abbrev pub upgrade_reason : Fields → String
upgrade_reason status =
    if status_condition_true status "UpgradeInProgress"
    then "a zero-downtime upgrade is in progress (both clusters exist)"
    else if status_condition_true status "RollbackInProgress"
    then "a rollback is in progress (the active cluster is still serving)"
    else ""

abbrev pub reason_of : Fields → Option String → String
reason_of status (some s) = s
reason_of status none = upgrade_reason status

-- A missing status reads as an empty one: it has no endpoints and no conditions.
unfoldable pub service_serving_reason : Fields → String
service_serving_reason live =
    let status = or_end (as_obj (get "status" live)) in
    reason_of status (endpoints_text (positive_part (get "numServeEndpoints" status)))
