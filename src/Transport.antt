-- ===== src/Transport.antt =====
-- The HTTP transport: internal/transport/auth.go and `buildHTTPHandler` of internal/transport/http.go.
--
-- The handler of the MCP server is `base`; a request is its Authorization header, "" where it has none.
-- Two tokens are compared as texts, which `subtle.ConstantTimeCompare` does on their bytes.
pub mod Auth
use Prim.Native.Char.{code}
use Prim.Native.String.{◌++◌}
use ray_mcp.Prelude.{
  ℕ, String, Bool, true, false, not, Option, none, some, nat_eq, ◌==◌, if◌then◌else◌,
}
use ray_mcp.Prelude.Text.{quote}
use ray_mcp.Errors.{Error, other, Result, ok, err}
use ray_mcp.Config.{Config, Environment, is_loopback}

pub data Response : Type 0 where
  unauthorized passed_on : Response

pub data Handler : Type 0 where
  base : Handler
  bearer : String → Handler

-- `strings.HasPrefix` and `strings.TrimPrefix`: what follows the prefix.
unfoldable pub after_prefix : String → String → Option String
after_prefix String.[] s = some s
after_prefix (String.◌∷◌ c p) String.[] = none
after_prefix (String.◌∷◌ c p) (String.◌∷◌ d s) =
    let rest = after_prefix p s in if nat_eq (code c) (code d) then rest else none

abbrev pub scheme : String
scheme = "Bearer "

abbrev pub compared : String → Option String → Response
compared want none = unauthorized
compared want (some got) = if got == want then passed_on else unauthorized

unfoldable pub static_bearer_auth : String → String → Response
unfolding after_prefix
static_bearer_auth want header = compared want (after_prefix scheme header)

unfoldable pub serve : Handler → String → Response
unfolding static_bearer_auth
serve base header = passed_on
serve (bearer want) header = static_bearer_auth want header

unfoldable pub build_http_handler : Environment → Config → Result Handler
unfolding quote
build_http_handler env cfg =
    if cfg.auth_mode == "static"
    then (if not (cfg.auth_token == "")
        then ok (bearer cfg.auth_token)
        else if not (is_loopback env cfg.http_addr)
        then err (
            other (
              "refusing to serve: --http-addr "
              ++ quote cfg.http_addr
              ++ " binds a non-loopback address without a static --auth-token"))
        else ok base)
    else if cfg.auth_mode == "tokenreview"
    then err (
        other
          "--auth-mode tokenreview is not yet implemented (arrives in Task 24); use static bearer auth")
    else err (other ("unsupported --auth-mode " ++ quote cfg.auth_mode))
