-- ===== src/Cluster/Scale/Sent.antt =====
-- The object that `Scale` (internal/domain/cluster_update.go) sends, and its refusals.
use ray_mcp.Prelude.{ℕ, ◌≡◌, ◌∙◌, refl, ap, String, true, false, none, some, arith, ◌==◌}
use ray_mcp.Prelude.Int.{ℤ, pos, negsuc}
use ray_mcp.Json.{int, Fields, get, set}
use ray_mcp.Json.Lookup.{get-set_self, get-set_ne}
use ray_mcp.Errors.{ok}
use ray_mcp.Types.{ClusterDetail}
use ray_mcp.Object.{spec_of}
use ray_mcp.Object.Groups.{spec_of-with_spec}
use ray_mcp.Ports.{Trace, World}
use ray_mcp.Apply.{ApplyRequest}
use ray_mcp.Cluster.Update.Laws.{read_object}
use ray_mcp.Cluster.Scale.{
  ClusterScaleParams, int_from_any, spec_is_autoscaling, is_text, find_group, replace_group,
  groups_of, overlay_bounds, validate_worker_bounds, scale_refusal, put_group, build,
}
use ray_mcp.Cluster.Scale.Bounds.{
  InBounds, validate-InBounds, group_name-overlay_bounds, find_group-named,
  find_group-replace_group, find_group-replace_group_ne, live_groups, groups_of-put_group, Steps,
  steps,
}

module _ (w : World) (ns : String) (p : ClusterScaleParams) (t : Trace) (detail : ClusterDetail)
    (req : ApplyRequest) (read : w.on_get_cluster t ns p.name ≡ ok detail)
    (built : (build w ns p t).0 ≡ ok req) where
  done : Steps w ns p t detail req read built
  done = steps w ns p t detail req read built

  sent_groups :
      groups_of (spec_of req.spec)
      ≡ replace_group p.worker_group (overlay_bounds p done.group) (live_groups ns p detail)
  sent_groups =
      ap (λ m. groups_of (spec_of m)) done.sent
      ∙ (ap groups_of (spec_of-with_spec (put_group p.worker_group (overlay_bounds p done.group)) _)
          ∙ groups_of-put_group p.worker_group (overlay_bounds p done.group) _)

  still_named : is_text p.worker_group (get "groupName" (overlay_bounds p done.group)) ≡ true
  still_named =
      ap (is_text p.worker_group) (group_name-overlay_bounds p done.group)
      ∙ find_group-named p.worker_group (live_groups ns p detail) done.found

  -- A scale that is built from a cluster that was read sends the named group with minReplicas and
  -- maxReplicas not negative, minReplicas up to maxReplicas, and replicas up to maxReplicas, for
  -- those that are numbers, whether they were given or were there before.
  pub scale-InBounds :
      (wg : Fields) × (find_group p.worker_group (groups_of (spec_of req.spec)) ≡ some wg)
      × InBounds wg
  scale-InBounds = (
    overlay_bounds p done.group,
    ap (find_group p.worker_group) sent_groups
        ∙ find_group-replace_group p.worker_group (overlay_bounds p done.group)
            (live_groups ns p detail) still_named (λ gone. cc (gone, done.found)),
    validate-InBounds (overlay_bounds p done.group) p.worker_group done.valid,
  )

  -- A scale that is built from a cluster that was read sends, under every other name, the same first
  -- group as was read.
  pub scale_keeps_other_groups :
      (other : String)
      → (p.worker_group == other) ≡ false
      → find_group other (groups_of (spec_of req.spec)) ≡ find_group other (live_groups ns p detail)
  scale_keeps_other_groups other ne =
      ap (find_group other) sent_groups
      ∙ find_group-replace_group_ne p.worker_group other (overlay_bounds p done.group)
          (live_groups ns p detail) ne still_named

  -- A scale that is built from a cluster that was read and sets replicas does so only on a cluster
  -- that does not autoscale, and to zero only in the destructive tier.
  pub scale_respects_policy :
      (n : ℤ)
      → p.replicas ≡ some n
      → (spec_is_autoscaling (spec_of (read_object ns p.name detail)) ≡ false)
        × (n ≡ pos 0 → p.allow_destructive ≡ true)
  unfolding scale_refusal
  scale_respects_policy n e = let h = done.allowed in (ground arith, λ z. ground arith)

negative_valid :
    (wg : Fields) (name : String) (n : ℕ)
    → validate_worker_bounds wg name ≡ none
    → validate_worker_bounds (set "replicas" (int (negsuc n)) wg) name ≡ none
unfolding validate_worker_bounds int_from_any
negative_valid wg name n h = ground (
  arith,
  get-set_self "replicas" (int (negsuc n)) wg,
  get-set_ne "minReplicas" "replicas" (int (negsuc n)) wg refl,
  get-set_ne "maxReplicas" "replicas" (int (negsuc n)) wg refl,
)

overlay-negative :
    (p : ClusterScaleParams) (wg : Fields) (n : ℕ)
    → p.replicas ≡ some (negsuc n)
    → p.min_replicas ≡ none
    → p.max_replicas ≡ none
    → overlay_bounds p wg ≡ set "replicas" (int (negsuc n)) wg
unfolding overlay_bounds
overlay-negative p wg n r mn mx = ground arith

-- A negative replica count alone, on a cluster that does not autoscale and in a group whose bounds
-- are valid, passes every refusal and the check of the bounds without the destructive tier, and is
-- written.
pub scale_accepts_negative :
    (p : ClusterScaleParams) (spec wg : Fields) (n : ℕ)
    → p.replicas ≡ some (negsuc n)
    → p.min_replicas ≡ none
    → p.max_replicas ≡ none
    → spec_is_autoscaling spec ≡ false
    → validate_worker_bounds wg p.worker_group ≡ none
    → (scale_refusal p spec ≡ none)
      × (validate_worker_bounds (overlay_bounds p wg) p.worker_group ≡ none)
      × (get "replicas" (overlay_bounds p wg) ≡ some (int (negsuc n)))
unfolding scale_refusal
scale_accepts_negative p spec wg n r mn mx auto valid =
    let e : overlay_bounds p wg ≡ set "replicas" (int (negsuc n)) wg =
      overlay-negative p wg n r mn mx in
    (
      ground arith,
      ap (λ u. validate_worker_bounds u p.worker_group) e
          ∙ negative_valid wg p.worker_group n valid,
      ap (get "replicas") e ∙ get-set_self "replicas" (int (negsuc n)) wg,
    )
