-- ===== src/Apply.antt =====
-- internal/domain/apply.go: `ApplyService`. Every write of a CRD goes through `apply`.
pub mod Laws
use ray_mcp.Prelude.{String, Bool, true, false, Option, none, some, List, ◌∷◌, ◌==◌, if◌then◌else◌}
use ray_mcp.Json.{Fields, obj, get, as_obj}
use ray_mcp.Errors.{Kind, Error, error_text, Result, ok, err}
use ray_mcp.Diff.{FieldChange, default_diff_max_depth, diff}
use ray_mcp.Ports.{
  ApplyOptions, Outcome, success, failure, AuditRecord, recorded, Trace, World, M, kube_apply,
}

pub record ApplyRequest : Type 0 where
  pub kind : Kind
  pub namespace : String
  pub name : String
  pub spec : Fields
  pub dry_run : Bool
  pub force : Bool
  pub tool : String
  pub args_summary : String

pub record ApplyResult : Type 0 where
  pub object : Fields
  pub diff : List FieldChange
  pub dry_run : Bool

abbrev pub default_caller : String
default_caller = "local/stdio"

-- CallerFromContext; `none` is a context that nobody put a caller on.
unfoldable pub caller_from_context : Option String → String
caller_from_context none = default_caller
caller_from_context (some c) = if c == "" then default_caller else c

abbrev pub outcome_of : Option Error → Outcome
outcome_of none = success
outcome_of (some e) = failure

abbrev pub message_of : Option Error → String
message_of none = ""
message_of (some e) = error_text e

unfoldable pub emit : World → ApplyRequest → Bool → Option Error → Trace → Trace
emit w req dry_run error t =
    recorded (record {
      caller = caller_from_context w.context_caller;
      tool = req.tool;
      kind = req.kind;
      namespace = req.namespace;
      name = req.name;
      args_summary = req.args_summary;
      dry_run = dry_run;
      outcome = outcome_of error;
      error = message_of error;
    })
    ∷ t

unfoldable pub record_destructive :
    World → String → Kind → String → String → String → Bool → Option Error → Trace → Trace
record_destructive w tool kind namespace name args_summary dry_run error t =
    recorded (record {
      caller = caller_from_context w.context_caller;
      tool = tool;
      kind = kind;
      namespace = namespace;
      name = name;
      args_summary = args_summary;
      dry_run = dry_run;
      outcome = outcome_of error;
      error = message_of error;
    })
    ∷ t

unfoldable pub subtree_or_whole : Fields → String → Fields
subtree_or_whole m key = elim (as_obj (get key m)) [ some sub ↦ sub | none ↦ m ]

unfoldable pub diff_spec : Fields → Fields → List FieldChange
diff_spec intent result =
    diff (subtree_or_whole intent "spec") (subtree_or_whole result "spec") default_diff_max_depth

abbrev pub outcome : ApplyRequest → Bool → Fields → ApplyResult
outcome req dry_run object = record {
  object = object;
  diff = diff_spec req.spec object;
  dry_run = dry_run;
}

-- The second half of `Apply`: the apply that persists.
unfoldable pub commit : World → ApplyRequest → M ApplyResult
commit w req t =
    let (r, t') =
      kube_apply w req.kind req.namespace req.name req.spec
        (record { dry_run = false; force = req.force }) t in
    elim r [
      | err e ↦ (err e, emit w req false (some e) t')
      | ok object ↦ (ok (outcome req false object), emit w req false none t')
    ]

-- Always the server-side dry run first.
unfoldable pub apply : World → ApplyRequest → M ApplyResult
apply w req t =
    let (r, t') =
      kube_apply w req.kind req.namespace req.name req.spec
        (record { dry_run = true; force = req.force }) t in
    elim r [
      | err e ↦ (err e, emit w req true (some e) t')
      | ok object ↦
          if req.dry_run
          then (ok (outcome req true object), emit w req true none t')
          else commit w req t'
    ]
