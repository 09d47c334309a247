-- ===== src/Tests/Merging.antt =====
-- Examples of merges, comparisons, summaries and confirmations.
use ray_mcp.Prelude.{
  ℕ, ◌≡◌, ◌≢◌, ◌↔◌, refl, String, Bool, true, false, Option, none, some, List, [], ◌∷◌, arith,
  eq_iff, inl, inr,
}
use ray_mcp.Prelude.Int.{pos}
use ray_mcp.Prelude.Utf8.{bytes, Fits}
use ray_mcp.Json.{
  Value, null, int, str, arr, obj, nil, cons, Fields, end, field, get, as_str, or_empty, IsWfFields,
  deep_equal,
}
use ray_mcp.Errors.{op_delete, ok}
use ray_mcp.Merge.{merge_patch, nested_value, nested_string, merge, name_path, namespace_path}
use ray_mcp.Merge.Rfc.{merge_patch-Untouched, merge_patch-wins}
use ray_mcp.Merge.Guard.{IsNamed, merge-ok, merge-accepts}
use ray_mcp.Guards.{meta_string, binds_resource_version, preimage}
use ray_mcp.Guards.Binding.{IsHashable}
use ray_mcp.Guards.Handshake.{require_confirm-no_replay}
use ray_mcp.Diff.{diff}
use ray_mcp.Diff.Complete.{diff-nil_iff}
use ray_mcp.Tests.{one, demo, live_cluster, toy}

-- A patch that adds a label, drops the version and rewrites nothing else.
abbrev patch : Fields
patch =
    field "metadata" (obj (one "labels" (obj (one "app" (str "x")))))
      (one "spec" (obj (one "rayVersion" null)))

patch-IsWf : IsWfFields patch
unfolding get
patch-IsWf = ground arith

merge_patch-Untouched_example :
    nested_value (some (obj (merge_patch live_cluster patch))) ("metadata" ∷ "uid" ∷ [])
    ≡ nested_value (some (obj live_cluster)) ("metadata" ∷ "uid" ∷ [])
unfolding get
merge_patch-Untouched_example =
    merge_patch-Untouched live_cluster patch ("metadata" ∷ "uid" ∷ []) patch-IsWf
      (inr (one "labels" (obj (one "app" (str "x"))), refl, inl refl))

merge_patch-wins_example :
    nested_value (some (obj (merge_patch live_cluster patch))) ("spec" ∷ "rayVersion" ∷ []) ≡ none
unfolding get nested_value ray_mcp.Json.as_obj
merge_patch-wins_example =
    merge_patch-wins live_cluster patch "spec" ("rayVersion" ∷ []) null patch-IsWf refl tt

abbrev merged : Fields
merged = merge_patch live_cluster patch

merge-ok_example :
    (merged ≡ merge_patch live_cluster patch)
    × (or_empty (nested_string merged name_path) ≡ "demo")
    × (or_empty (nested_string merged namespace_path) ≡ "team")
unfolding merge nested_string as_str ray_mcp.Json.as_obj get merge_patch ray_mcp.Json.set
    ray_mcp.Merge.clone_map
merge-ok_example = merge-ok live_cluster patch demo {m = merged} refl

live_cluster-IsNamed : IsNamed live_cluster demo
unfolding nested_string get as_str ray_mcp.Json.as_obj
live_cluster-IsNamed = record { named = refl; placed = refl }

merge-accepts_example : merge live_cluster patch demo ≡ ok (merge_patch live_cluster patch)
unfolding get
merge-accepts_example =
    merge-accepts live_cluster patch demo patch-IsWf live_cluster-IsNamed
      (inr (one "labels" (obj (one "app" (str "x"))), refl, inl refl))
      (inr (one "labels" (obj (one "app" (str "x"))), refl, inl refl))

abbrev retarget : Fields
retarget = one "metadata" (obj (one "name" (str "other")))

-- The same map with its keys in another order.
abbrev ab : Fields
ab = field "a" (int (pos 1)) (one "b" (str "x"))

abbrev ba : Fields
ba = field "b" (str "x") (one "a" (int (pos 1)))

diff-nil_iff_example : (diff ab ba 4 ≡ []) ↔ (deep_equal (obj ab) (obj ba) ≡ true)
unfolding get
diff-nil_iff_example = diff-nil_iff ab ba 4 (refl, tt, (refl, tt, tt)) (refl, tt, (refl, tt, tt))

live_cluster-IsHashable : IsHashable live_cluster
unfolding meta_string bytes
live_cluster-IsHashable = record { uid_fits = ground arith; version_fits = ground arith }

require_confirm-no_replay_example :
    (op_delete ≡ op_delete)
    × (meta_string live_cluster "uid" ≡ meta_string live_cluster "uid")
    × (binds_resource_version op_delete ≡ true
        → meta_string live_cluster "resourceVersion" ≡ meta_string live_cluster "resourceVersion")
unfolding ray_mcp.Guards.require_confirm ray_mcp.Guards.fingerprint ray_mcp.Prelude.Text.show_nat
    preimage ray_mcp.Prelude.Utf8.bytes meta_string
require_confirm-no_replay_example =
    require_confirm-no_replay toy.digest live_cluster live_cluster op_delete op_delete
      live_cluster-IsHashable live_cluster-IsHashable (λ same. refl) refl
