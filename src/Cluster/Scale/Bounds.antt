-- ===== src/Cluster/Scale/Bounds.antt =====
-- The steps of `Scale` (internal/domain/cluster_update.go): the check of the bounds and the named
-- group.
use ray_mcp.Prelude.{
  ◌≡◌, ◌≢◌, ◌∙◌, refl, ap, String, true, false, Option, none, some, arith, ◌==◌, eq_iff,
  Option-cases, inl, inr,
}
use ray_mcp.Prelude.Int.{ℤ, pos, ◌≤ℤ◌}
use ray_mcp.Json.{Value, int, str, obj, Items, nil, cons, Fields, get, as_arr}
use ray_mcp.Json.Lookup.{get-set_self, get-set_ne}
use ray_mcp.Errors.{ok}
use ray_mcp.Types.{ClusterDetail}
use ray_mcp.Object.{spec_of, with_spec}
use ray_mcp.Ports.{Trace, World}
use ray_mcp.Apply.{ApplyRequest}
use ray_mcp.Cluster.Retry.Laws.{IsRead}
use ray_mcp.Cluster.Update.{read_for_write}
use ray_mcp.Cluster.Update.Laws.{read_object}
use ray_mcp.Cluster.Scale.{
  ClusterScaleParams, int_from_any, is_text, is_group, find_group, replace_group, groups_of,
  find_worker_group, set_int, overlay_bounds, validate_worker_bounds, scale_refusal, put_group,
  build,
}

-- An attempt's build only reads.
pub build-IsRead : (w : World) (ns : String) (p : ClusterScaleParams) → IsRead (build w ns p)
unfolding build read_for_write
build-IsRead w ns p = record {
  no_audits = λ t. ground arith;
  no_writes = λ t. ground arith;
  no_forces = λ t. ground arith;
  unforced = λ t req h. ground arith;
}

-- The bounds of a worker group, where they are numbers: not negative, and in order.
pub record InBounds (wg : Fields) : Type 0 where
  pub min_positive : (m : ℤ) → int_from_any (get "minReplicas" wg) ≡ some m → pos 0 ≤ℤ m
  pub max_positive : (m : ℤ) → int_from_any (get "maxReplicas" wg) ≡ some m → pos 0 ≤ℤ m
  pub min-max :
      (m n : ℤ)
      → int_from_any (get "minReplicas" wg) ≡ some m
      → int_from_any (get "maxReplicas" wg) ≡ some n
      → m ≤ℤ n
  pub replicas-max :
      (m n : ℤ)
      → int_from_any (get "replicas" wg) ≡ some m
      → int_from_any (get "maxReplicas" wg) ≡ some n
      → m ≤ℤ n

pub validate-InBounds :
    (wg : Fields) (name : String) → validate_worker_bounds wg name ≡ none → InBounds wg
unfolding validate_worker_bounds
validate-InBounds wg name h = record {
  min_positive = λ m e. ground arith;
  max_positive = λ m e. ground arith;
  min-max = λ m n e f. ground arith;
  replicas-max = λ m n e f. ground arith;
}

get-set_int :
    (j k : String) (n : Option ℤ) (wg : Fields)
    → (k == j) ≡ false
    → get j (set_int k n wg) ≡ get j wg
get-set_int j k none wg h = refl
get-set_int j k (some n) wg h = get-set_ne j k (int n) wg h

pub group_name-overlay_bounds :
    (p : ClusterScaleParams) (wg : Fields)
    → get "groupName" (overlay_bounds p wg) ≡ get "groupName" wg
unfolding overlay_bounds
group_name-overlay_bounds p wg =
    get-set_int "groupName" "maxReplicas" p.max_replicas _ refl
    ∙ (get-set_int "groupName" "minReplicas" p.min_replicas _ refl
        ∙ get-set_int "groupName" "replicas" p.replicas wg refl)

is_group-named :
    (name : String) (g : Value) {wg : Fields}
    → is_group name g ≡ some wg
    → is_text name (get "groupName" wg) ≡ true
is_group-named name g h = ground arith

pub find_group-named :
    (name : String) (gs : Items) {wg : Fields}
    → find_group name gs ≡ some wg
    → is_text name (get "groupName" wg) ≡ true
unfolding find_group
find_group-named name nil h = cc
find_group-named name (cons g gs) h = elim (Option-cases (is_group name g)) [
  | inl e ↦ find_group-named name gs (rw (e, find_group) at h)
  | inr (u, e) ↦ is_group-named name g (e ∙ (rw (e, find_group) at h))
]

pub find_group-replace_group :
    (name : String) (wg : Fields) (gs : Items)
    → is_text name (get "groupName" wg) ≡ true
    → find_group name gs ≢ none
    → find_group name (replace_group name wg gs) ≡ some wg
unfolding find_group replace_group
find_group-replace_group name wg nil h there = absurd (there refl)
find_group-replace_group name wg (cons g gs) h there = elim (Option-cases (is_group name g)) [
  | inl e ↦
      rw (e, replace_group)
        (rw (e, find_group) (find_group-replace_group name wg gs h (rw (e, find_group) at there)))
  | inr (u, e) ↦ rw (e, replace_group) (rw (h, find_group))
]

is_text_ne :
    (name other : String) (o : Option Value)
    → (name == other) ≡ false
    → is_text name o ≡ true
    → is_text other o ≡ false
is_text_ne name other none ne h = refl
is_text_ne name other (some (str s)) ne h =
    ground (arith, eq_iff s name, eq_iff s other, eq_iff name other)
is_text_ne name other (some _) ne h = refl

is_group_ne :
    (name other : String) (g : Value) {wg : Fields}
    → (name == other) ≡ false
    → is_group name g ≡ some wg
    → is_group other g ≡ none
is_group_ne name other (obj m) ne h =
    let e : is_text name (get "groupName" m) ≡ true = ground arith in
    rw (is_text_ne name other (get "groupName" m) ne e)
is_group_ne name other _ ne h = cc

pub find_group-replace_group_ne :
    (name other : String) (wg : Fields) (gs : Items)
    → (name == other) ≡ false
    → is_text name (get "groupName" wg) ≡ true
    → find_group other (replace_group name wg gs) ≡ find_group other gs
unfolding find_group replace_group
find_group-replace_group_ne name other wg nil ne h = refl
find_group-replace_group_ne name other wg (cons g gs) ne h = elim (Option-cases (is_group name g)) [
  | inl e ↦
      rw (e, replace_group)
        (ap (λ r. elim (is_group other g) [ some u ↦ some u | none ↦ r ])
          (find_group-replace_group_ne name other wg gs ne h))
  | inr (u, e) ↦
      rw (e, replace_group)
        (rw (is_group_ne name other g ne e, find_group)
          (rw (is_text_ne name other (get "groupName" wg) ne h, find_group)))
]

-- The worker groups of the object that a scale reads.
abbrev pub live_groups : String → ClusterScaleParams → ClusterDetail → Items
live_groups ns p detail = groups_of (spec_of (read_object ns p.name detail))

pub groups_of-put_group :
    (name : String) (wg spec : Fields)
    → groups_of (put_group name wg spec) ≡ replace_group name wg (groups_of spec)
unfolding as_arr
groups_of-put_group name wg spec = rw get-set_self

module _ (w : World) (ns : String) (p : ClusterScaleParams) (t : Trace) (detail : ClusterDetail)
    (req : ApplyRequest) (read : w.on_get_cluster t ns p.name ≡ ok detail)
    (built : (build w ns p t).0 ≡ ok req) where
  -- What a successful build went through.
  pub record Steps : Type 0 where
    pub group : Fields
    pub found : find_group p.worker_group (live_groups ns p detail) ≡ some group
    pub allowed : scale_refusal p (spec_of (read_object ns p.name detail)) ≡ none
    pub valid : validate_worker_bounds (overlay_bounds p group) p.worker_group ≡ none
    pub sent :
        req.spec
        ≡ with_spec
            (put_group p.worker_group (overlay_bounds p group))
            (read_object ns p.name detail)

  pub steps_of :
      (group : Fields) → find_group p.worker_group (live_groups ns p detail) ≡ some group → Steps
  unfolding build read_for_write find_worker_group
  steps_of group found = record {
    group = group;
    found = found;
    allowed = ground arith;
    valid = ground arith;
    sent = ground arith;
  }

  pub not_missing : find_group p.worker_group (live_groups ns p detail) ≢ none
  unfolding build read_for_write find_worker_group
  not_missing missing = ground arith

  pub steps : Steps
  steps = elim (Option-cases (find_group p.worker_group (live_groups ns p detail))) [
    | inl e ↦ absurd (not_missing e)
    | inr (group, e) ↦ steps_of group e
  ]
