-- ===== src/Job/Submit/Target.antt =====
-- `validate` of internal/domain/job_submit.go: the one cluster target of a submit.
use ray_mcp.Prelude.{
  ◌≡◌, ◌≢◌, ◌⊎◌, ◌↔◌, ap, Bool, true, false, Option, none, some, arith, eq_iff, is_some, inl, inr,
}
use ray_mcp.Errors.{ok, is_ok, Result-cases}
use ray_mcp.Ports.{Trace, World, resolve_namespace}
use ray_mcp.Job.Submit.{ClusterSubmitSpec, JobWriteService, JobSubmitParams, validate, submit}

-- The rules of a submit: it is named, it has an entrypoint, and it runs either on a cluster that is
-- there, which it never shuts down, or on one that it owns.
abbrev pub IsSubmittable : JobSubmitParams → Type 0
IsSubmittable p =
    (p.name ≢ "")
    × (p.entrypoint ≢ "")
    × (((p.existing_cluster ≢ "")
          × (is_some p.cluster_spec ≡ false)
          × (is_some p.shutdown_after_job_finishes ≡ false))
        ⊎ ((p.existing_cluster ≡ "") × (is_some p.cluster_spec ≡ true)))

-- A submit is accepted exactly when it has a name and an entrypoint and runs either on an existing
-- cluster, with no shutdown given, or on a cluster of its own.
pub validate_iff : (p : JobSubmitParams) → (is_ok (validate p) ≡ true) ↔ IsSubmittable p
unfolding validate
validate_iff p =
    ground (arith, eq_iff p.name "", eq_iff p.entrypoint "", eq_iff p.existing_cluster "")

-- The shutdown of a submit, by its own cluster and what was given.
abbrev pub settled_shutdown : Option ClusterSubmitSpec → Option Bool → Option Bool
settled_shutdown none given = none
settled_shutdown (some spec) none = some true
settled_shutdown (some spec) (some b) = some b

-- An accepted submit is as it was given but for the shutdown, which is settled: none without a
-- cluster of its own, else true where none was given and as given where it was.
pub validate-settled_shutdown :
    (p q : JobSubmitParams)
    → validate p ≡ ok q
    → q ≡ record p {
      shutdown_after_job_finishes = settled_shutdown p.cluster_spec p.shutdown_after_job_finishes;
    }
unfolding validate
validate-settled_shutdown p q h = ground (arith, h)

-- A submit that breaks the rules of validate_iff fails and makes no call at all, whatever the
-- cluster would answer.
pub submit_unchecked :
    (w : World) (s : JobWriteService) (p : JobSubmitParams) (t : Trace)
    → ¬ IsSubmittable p
    → ((submit w s p t).1 ≡ t) × (is_ok (submit w s p t).0 ≡ false)
unfolding submit
submit_unchecked w s p t broken =
    let q : JobSubmitParams = record p {
      namespace = resolve_namespace s.default_namespace p.namespace;
    } in
    elim (Result-cases (validate q)) [
      | inl (a, h) ↦ absurd (broken ((validate_iff q).0 (ap is_ok h)))
      | inr (e, h) ↦ ground (arith, h)
    ]
