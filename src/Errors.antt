-- ===== src/Errors.antt =====
-- internal/domain/errors.go, and the error types of merge.go and guards.go; `Kind` is that of types.go.
--
-- An error is a value of one type: `other` is what `fmt.Errorf` makes, and `error_text` is `Error()`.
-- `errors.As` at a type is a match on its constructor, since none of these errors wraps another but
-- `timeout`, which wraps the sentinel ErrTimeout.
use Prim.Native.String.{◌++◌}
use ray_mcp.Prelude.{
  String, Bool, true, false, Option, none, some, ◌≡◌, ◌⊎◌, inl, inr, refl, ◌==◌, if◌then◌else◌,
}
use ray_mcp.Prelude.Text.{quote}

pub data Kind : Type 0 where
  ray_cluster ray_job ray_service : Kind

abbrev pub kind_text : Kind → String
kind_text ray_cluster = "RayCluster"
kind_text ray_job = "RayJob"
kind_text ray_service = "RayService"

pub data Operation : Type 0 where
  op_delete op_scale_to_zero op_unprotect : Operation

abbrev pub operation_text : Operation → String
operation_text op_delete = "delete"
operation_text op_scale_to_zero = "scale-to-zero"
operation_text op_unprotect = "unprotect"

-- `not_found` has no kind for a job id of the Ray API.
pub data Error : Type 0 where
  not_found : Option Kind → String → String → Error
  forbidden : String → String → String → Error
  conflict : Kind → String → String → String → Error
  unreachable : String → String → Error
  timeout : String → Error
  identity : String → String → String → Error
  confirm_required : Operation → String → Error
  serving_refused : String → String → Error
  confirm_mismatch : Operation → Error
  other : String → Error

kind_or_empty : Option Kind → String
kind_or_empty none = ""
kind_or_empty (some k) = kind_text k

unfoldable pub error_text : Error → String
unfolding quote kind_or_empty
error_text (not_found k ns name) =
    if ns == ""
    then kind_or_empty k ++ " " ++ quote name ++ " not found"
    else kind_or_empty k ++ " " ++ quote name ++ " not found in namespace " ++ quote ns
error_text (forbidden verb resource ns) =
    if ns == ""
    then "forbidden: cannot " ++ verb ++ " " ++ resource ++ " (missing RBAC)"
    else "forbidden: cannot "
      ++ verb
      ++ " "
      ++ resource
      ++ " in namespace "
      ++ quote ns
      ++ " (missing RBAC)"
error_text (conflict k ns name detail) =
    "conflict applying "
    ++ kind_text k
    ++ " "
    ++ quote name
    ++ " in namespace "
    ++ quote ns
    ++ ": "
    ++ detail
error_text (unreachable endpoint reason) =
    "ray api unreachable at " ++ quote endpoint ++ ": " ++ reason
error_text (timeout op) = op ++ ": operation timed out"
error_text (identity field want got) =
    if got == ""
    then "rawSpec removed metadata."
      ++ field
      ++ "; it must stay "
      ++ quote want
      ++ " (identity is fixed by the tool args)"
    else "rawSpec changed metadata."
      ++ field
      ++ " to "
      ++ quote got
      ++ "; it must stay "
      ++ quote want
      ++ " (identity is fixed by the tool args)"
error_text (confirm_required op fp) =
    operation_text op
    ++ " requires confirmation: re-issue with confirm="
    ++ quote fp
    ++ " (recomputed from the live object; a stale value is rejected)"
error_text (serving_refused name reason) =
    "deletion refused: RayService "
    ++ quote name
    ++ " appears to be serving traffic ("
    ++ reason
    ++ "); re-issue with force=true to override (this is a guardrail against accidental deletion, not a security control)"
error_text (confirm_mismatch op) =
    operation_text op
    ++ " confirmation does not match the live object (wrong or stale) — re-preview to get a current fingerprint"
error_text (other s) = s

not_found_text :
    error_text (not_found (some ray_job) "team" "j")
    ≡ "RayJob \"j\" not found in namespace \"team\""
unfolding error_text
not_found_text = refl

-- A Go `(value, error)` pair that is looked at only after the error was tested.
pub data Result {ℓ} (A : Type ℓ) : Type ℓ where
  ok : A → Result A
  err : Error → Result A

abbrev pub is_ok {ℓ} : {A : Type ℓ} → Result A → Bool
is_ok (ok a) = true
is_ok (err e) = false

pub Result-cases {ℓ} :
    {A : Type ℓ} (r : Result A) → ((a : A) × (r ≡ ok a)) ⊎ ((e : Error) × (r ≡ err e))
Result-cases (ok a) = inl (a, refl)
Result-cases (err e) = inr (e, refl)
