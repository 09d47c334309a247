-- ===== src/Tools/Confirmed.antt =====
-- The two calls of a confirmed deletion through the handler of internal/mcp/cluster_delete.go.
use ray_mcp.Prelude.{
  ◌≡◌, ◌≢◌, refl, ap, ◌∙◌, String, false, ◌==◌, ◌∷◌, eq_iff, Bool-cases, inl, inr,
}
use ray_mcp.Json.{or_end}
use ray_mcp.Errors.{ray_cluster, op_delete, confirm_required, Result, ok, err}
use ray_mcp.Guards.{is_protected, fingerprint}
use ray_mcp.Types.{ClusterDetail}
use ray_mcp.Ports.{got, Trace, World, result_of, resolve_namespace}
use ray_mcp.Cluster.{ClusterWriteService, delete}
use ray_mcp.Cluster.Deletion.{delete_handshake}
use ray_mcp.Tools.Deletes.{
  DeleteInput, DeleteOutput, cluster_params, deleted_output, cluster_delete_tool,
}

abbrev pub place : ClusterWriteService → DeleteInput → String
place s input = resolve_namespace s.default_namespace input.namespace

abbrev pub cluster_output :
    ClusterWriteService → DeleteInput → Result (Unit {0}) → Result DeleteOutput
cluster_output s input r =
    deleted_output "RayCluster" " will be deleted (cascades to its pods/services). "
      s.default_namespace input r

-- The handler for a call with a name.
named_call :
    (w : World) (s : ClusterWriteService) (input : DeleteInput) (t : Trace)
    → input.name ≢ ""
    → cluster_delete_tool w s input t ≡ (
      cluster_output s input (delete w s (cluster_params input) t).0,
      (delete w s (cluster_params input) t).1,
    )
unfolding cluster_delete_tool
named_call w s input t named = elim (Bool-cases (input.name == "")) [
  | inl h ↦ absurd (named ((eq_iff input.name "").0 h))
  | inr h ↦ rw h refl
]

preview_output :
    (s : ClusterWriteService) (input : DeleteInput) (fp : String)
    → (out : DeleteOutput) × (cluster_output s input (err (confirm_required op_delete fp)) ≡ ok out)
      × (out.confirm ≡ fp)
      × (out.dry_run ≡ false)
unfolding deleted_output
preview_output s input fp = (_, refl, refl, refl)

module _ (w : World) (s : ClusterWriteService) (input : DeleteInput) (t : Trace)
    (detail : ClusterDetail) where
  abbrev pub print : String
  print = fingerprint w.digest (or_end detail.raw) op_delete

  abbrev pub read_trace : Trace
  read_trace = got ray_cluster (place s input) input.name ∷ t

  -- For a named, unprotected cluster that can be read, and a fingerprint that is not empty: the
  -- tool's call without a confirmation is a success that carries the fingerprint and has only read,
  -- and the call with that fingerprint renders what the Deleter answers.
  pub confirmed_in_two :
      input.name ≢ ""
      → w.on_get_cluster t (place s input) input.name ≡ ok detail
      → is_protected (or_end detail.raw) ≡ false
      → print ≢ ""
      → ((out : DeleteOutput) × ((cluster_delete_tool w s (record input { confirm = "" }) t).0
            ≡ ok out)
          × (out.confirm ≡ print)
          × (out.dry_run ≡ false))
        × ((cluster_delete_tool w s (record input { confirm = "" }) t).1 ≡ read_trace)
        × ((cluster_delete_tool w s (record input { confirm = print }) t).0
            ≡ cluster_output s
                (record input { confirm = print })
                (result_of
                  (w.on_delete read_trace ray_cluster (place s input) input.name input.dry_run)))
  confirmed_in_two named read free printed =
      let (first, second) =
        delete_handshake w s (cluster_params input) t detail named read free printed in
      let before = record input { confirm = "" } in
      let after = record input { confirm = print } in
      let (out, made, carried, dry) = preview_output s before print in
      let step = named_call w s before t named in
      (
        (
          out,
          ap (λ (r : Result DeleteOutput × Trace). r.0) step
              ∙ ap (λ (r : Result (Unit {0}) × Trace). cluster_output s before r.0) first
              ∙ made,
          carried,
          dry,
        ),
        ap (λ (r : Result DeleteOutput × Trace). r.1) step
            ∙ ap (λ (r : Result (Unit {0}) × Trace). r.1) first,
        ap (λ (r : Result DeleteOutput × Trace). r.0) (named_call w s after t named)
            ∙ ap (λ (r : Result (Unit {0})). cluster_output s after r) second,
      )
