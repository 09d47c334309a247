-- ===== src/Guards.antt =====
-- internal/domain/guards.go: the confirm fingerprint, the `ray-mcp/protected` annotation.
--
-- `digest` stands for `hex.EncodeToString` of SHA-256, on the bytes written to the hash. The model
-- computes those bytes in full; that two inputs do not collide is a hypothesis about the two inputs
-- that a theorem compares.
pub mod Binding
pub mod Handshake
use ray_mcp.Prelude.{
  ℕ, String, Bool, true, false, not, ◌||◌, Option, none, some, List, [], ◌++◌, ◌==◌, if◌then◌else◌,
}
use ray_mcp.Prelude.Utf8.{bytes, framed}
use ray_mcp.Json.{Fields, get, as_obj, as_str, or_empty, or_end}
use ray_mcp.Errors.{
  Operation, op_delete, op_scale_to_zero, op_unprotect, operation_text, Error, confirm_required,
  confirm_mismatch,
}

abbrev pub protected_annotation : String
protected_annotation = "ray-mcp/protected"

abbrev pub protected_value : String
protected_value = "true"

abbrev pub binds_resource_version : Operation → Bool
binds_resource_version op_delete = false
binds_resource_version op_scale_to_zero = true
binds_resource_version op_unprotect = true

-- metadata[key] as a string, "" where it is missing or none.
unfoldable pub meta_string : Fields → String → String
unfolding get as_obj as_str
meta_string live key = or_empty (as_str (get key (or_end (as_obj (get "metadata" live)))))

-- metadata.annotations[key]
unfoldable pub annotation : Fields → String → String
unfolding get as_obj as_str
annotation live key =
    let meta = or_end (as_obj (get "metadata" live)) in
    or_empty (as_str (get key (or_end (as_obj (get "annotations" meta)))))

-- The bytes that the hash has been fed, with one more length-prefixed field.
unfoldable pub write_field : List ℕ → String → List ℕ
write_field h s = h ++ framed s

unfoldable pub preimage : Fields → Operation → List ℕ
unfolding write_field
preimage live op =
    let h = write_field (write_field [] (operation_text op)) (meta_string live "uid") in
    if binds_resource_version op then write_field h (meta_string live "resourceVersion") else h

unfoldable pub is_protected : Fields → Bool
is_protected live = annotation live protected_annotation == protected_value

module _ (digest : List ℕ → String) where
  unfoldable pub fingerprint : Fields → Operation → String
  fingerprint live op = digest (preimage live op)

  -- `none` is the nil error.
  unfoldable pub require_confirm : Fields → Operation → String → Option Error
  require_confirm live op confirm =
      let want = fingerprint live op in
      if confirm == ""
      then some (confirm_required op want)
      else if not (confirm == want)
      then some (confirm_mismatch op)
      else none

  unfoldable pub guard_protected_change : Fields → Fields → String → Option Error
  guard_protected_change before after confirm =
      if not (is_protected before) || is_protected after
      then none
      else require_confirm before op_unprotect confirm
