-- ===== src/Guards/Handshake.antt =====
-- `RequireConfirm` and `GuardProtectedChange` (internal/domain/guards.go): preview, then commit.
use ray_mcp.Prelude.{ℕ, ◌≡◌, ◌≢◌, ◌↔◌, refl, String, true, false, none, some, List, arith, eq_iff}
use ray_mcp.Json.{Fields}
use ray_mcp.Errors.{Operation, op_unprotect, confirm_required}
use ray_mcp.Guards.{
  binds_resource_version, meta_string, preimage, fingerprint, require_confirm, is_protected,
  guard_protected_change,
}
use ray_mcp.Guards.Binding.{IsHashable, fingerprint-binds}

-- A confirmation passes exactly when it is the fingerprint of the live object, and not empty.
pub require_confirm-none_iff :
    (digest : List ℕ → String) (live : Fields) (op : Operation) (confirm : String)
    → (require_confirm digest live op confirm ≡ none)
      ↔ ((confirm ≢ "") × (confirm ≡ fingerprint digest live op))
unfolding require_confirm
require_confirm-none_iff digest live op confirm = (
  λ h. ground (arith, eq_iff confirm "", eq_iff confirm (fingerprint digest live op)),
  λ h. ground (arith, eq_iff confirm "", eq_iff confirm (fingerprint digest live op)),
)

-- With no confirmation the answer carries the fingerprint, and with that fingerprint for a
-- confirmation, on an object that has not changed, the operation passes. The digest is not empty.
pub require_confirm-handshake :
    (digest : List ℕ → String) (live : Fields) (op : Operation)
    → fingerprint digest live op ≢ ""
    → (require_confirm digest live op "" ≡ some (confirm_required op (fingerprint digest live op)))
      × (require_confirm digest live op (fingerprint digest live op) ≡ none)
require_confirm-handshake digest live op ne =
    (unfold require_confirm in refl, (require_confirm-none_iff digest live op _).1 (ne, refl))

-- A fingerprint made for one object and operation passes as the confirmation of another only if the
-- operations and the UIDs are the same, and, for every operation but delete, the resourceVersions
-- too. The UIDs and versions are shorter than 2^64 bytes, and the digest does not collide on the two
-- inputs.
pub require_confirm-no_replay :
    (digest : List ℕ → String) (seen live : Fields) (p q : Operation)
    → IsHashable seen
    → IsHashable live
    → (digest (preimage seen p) ≡ digest (preimage live q) → preimage seen p ≡ preimage live q)
    → require_confirm digest live q (fingerprint digest seen p) ≡ none
    → (p ≡ q)
      × (meta_string seen "uid" ≡ meta_string live "uid")
      × (binds_resource_version p ≡ true
          → meta_string seen "resourceVersion" ≡ meta_string live "resourceVersion")
require_confirm-no_replay digest seen live p q hs hl no_collision h =
    fingerprint-binds digest seen live p q hs hl no_collision
      ((require_confirm-none_iff digest live q (fingerprint digest seen p)).0 h).1

-- The guard of the annotation lets a write pass exactly when it does not take the protection away, or
-- the confirmation is the unprotect fingerprint of the object before it.
pub guard_protected_change-none_iff :
    (digest : List ℕ → String) (before after : Fields) (confirm : String)
    → is_protected before ≡ true
    → is_protected after ≡ false
    → (guard_protected_change digest before after confirm ≡ none)
      ↔ ((confirm ≢ "") × (confirm ≡ fingerprint digest before op_unprotect))
unfolding guard_protected_change
guard_protected_change-none_iff digest before after confirm hb ha =
    rw (hb, ha) (require_confirm-none_iff digest before op_unprotect confirm)
