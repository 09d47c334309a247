-- ===== src/Guards/Binding.antt =====
-- What `Fingerprint` (internal/domain/guards.go) is bound to.
use ray_mcp.Prelude.{
  ℕ, ◌≡◌, refl, ◌∙◌, sym, ap, String, true, List, [], ◌++◌, arith, eq_iff, if◌then◌else◌,
}
use mathlib.Core.Path.{subst}
use mathlib.Core.List.{append_assoc, append-nil}
use ray_mcp.Prelude.Utf8.{bytes, framed, Fits, framed_cancel}
use ray_mcp.Json.{Fields}
use ray_mcp.Errors.{Operation, op_delete, op_scale_to_zero, op_unprotect, operation_text}
use ray_mcp.Guards.{binds_resource_version, meta_string, preimage, fingerprint}

operation_text_injective : (a b : Operation) → operation_text a ≡ operation_text b → a ≡ b
operation_text_injective op_delete op_delete h = refl
operation_text_injective op_delete op_scale_to_zero h = cc ((eq_iff "delete" "scale-to-zero").1 h)
operation_text_injective op_delete op_unprotect h = cc ((eq_iff "delete" "unprotect").1 h)
operation_text_injective op_scale_to_zero op_delete h = cc ((eq_iff "scale-to-zero" "delete").1 h)
operation_text_injective op_scale_to_zero op_scale_to_zero h = refl
operation_text_injective op_scale_to_zero op_unprotect h =
    cc ((eq_iff "scale-to-zero" "unprotect").1 h)
operation_text_injective op_unprotect op_delete h = cc ((eq_iff "unprotect" "delete").1 h)
operation_text_injective op_unprotect op_scale_to_zero h =
    cc ((eq_iff "unprotect" "scale-to-zero").1 h)
operation_text_injective op_unprotect op_unprotect h = refl

operation_text-Fits : (op : Operation) → Fits (operation_text op)
unfolding bytes
operation_text-Fits op_delete = omega arith
operation_text-Fits op_scale_to_zero = omega arith
operation_text-Fits op_unprotect = omega arith

version_part : Fields → Operation → List ℕ
version_part live op =
    if binds_resource_version op then framed (meta_string live "resourceVersion") else []

preimage-parts :
    (live : Fields) (op : Operation)
    → preimage live op
      ≡ framed (operation_text op) ++ (framed (meta_string live "uid") ++ version_part live op)
unfolding preimage version_part
preimage-parts live op_delete = simp (append-nil, append_assoc)
preimage-parts live op_scale_to_zero = simp append_assoc
preimage-parts live op_unprotect = simp append_assoc

-- What a hash of an object and an operation depends on fits in 64-bit lengths.
pub record IsHashable (live : Fields) : Type 0 where
  pub uid_fits : Fits (meta_string live "uid")
  pub version_fits : Fits (meta_string live "resourceVersion")

version_cancel :
    (a b : Fields) (op : Operation)
    → IsHashable a
    → IsHashable b
    → version_part a op ≡ version_part b op
    → binds_resource_version op ≡ true
    → meta_string a "resourceVersion" ≡ meta_string b "resourceVersion"
unfolding version_part
version_cancel a b op ha hb h t =
    (framed_cancel (meta_string a "resourceVersion") (meta_string b "resourceVersion") [] []
      ha.version_fits hb.version_fits (ap (λ (l : List ℕ). l ++ []) (rw (t, version_part) at h))).0

preimage_cancel :
    (a b : Fields) (p q : Operation)
    → IsHashable a
    → IsHashable b
    → preimage a p ≡ preimage b q
    → (p ≡ q) × (meta_string a "uid" ≡ meta_string b "uid") × (version_part a p ≡ version_part b q)
preimage_cancel a b p q ha hb h =
    let (same_op, rest) =
      framed_cancel (operation_text p) (operation_text q)
        (framed (meta_string a "uid") ++ version_part a p)
        (framed (meta_string b "uid") ++ version_part b q) (operation_text-Fits p)
        (operation_text-Fits q) (sym (preimage-parts a p) ∙ (h ∙ preimage-parts b q)) in
    let (same_uid, more) =
      framed_cancel (meta_string a "uid") (meta_string b "uid") (version_part a p)
        (version_part b q) ha.uid_fits hb.uid_fits rest in
    (operation_text_injective p q same_op, same_uid, more)

-- If two fingerprints are equal, and their two hash inputs do not collide, they were made for the same
-- operation on objects of the same UID; for every operation but delete, at the same resourceVersion.
pub fingerprint-binds :
    (digest : List ℕ → String) (a b : Fields) (p q : Operation)
    → IsHashable a
    → IsHashable b
    → (digest (preimage a p) ≡ digest (preimage b q) → preimage a p ≡ preimage b q)
    → fingerprint digest a p ≡ fingerprint digest b q
    → (p ≡ q)
      × (meta_string a "uid" ≡ meta_string b "uid")
      × (binds_resource_version p ≡ true
          → meta_string a "resourceVersion" ≡ meta_string b "resourceVersion")
unfolding fingerprint
fingerprint-binds digest a b p q ha hb no_collision e =
    let (op, uid, version) = preimage_cancel a b p q ha hb (no_collision e) in
    (
      op,
      uid,
      version_cancel a b p ha hb
          (subst (λ r. version_part a p ≡ version_part b r) (sym op) version),
    )

-- A delete's fingerprint is the same for all objects of one UID, whatever else changed.
pub fingerprint-delete_stable :
    (digest : List ℕ → String) (a b : Fields)
    → meta_string a "uid" ≡ meta_string b "uid"
    → fingerprint digest a op_delete ≡ fingerprint digest b op_delete
unfolding fingerprint preimage
fingerprint-delete_stable digest a b e = rw e
