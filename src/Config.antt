-- ===== src/Config.antt =====
-- Configuration: `Load` and `validate` of internal/config/config.go.
--
-- Package flag is a parameter: `Flags` is what the parsed command line gave, a flag that is not there
-- being `none`; so are the environment, the service-account file and the address functions of package
-- net. An error of package strconv is the text it has.
pub mod Valid
use Prim.Native.Char.{code}
use Prim.Native.String.{◌++◌}
use ray_mcp.Prelude.{
  ℕ, String, Bool, true, false, not, ◌&&◌, ◌||◌, Option, none, some, List, [], ◌∷◌, ltb, leb,
  nat_eq, ◌==◌, if◌then◌else◌,
}
use ray_mcp.Prelude.Text.{quote, join}
use ray_mcp.Errors.{Error, error_text, other, Result, ok, err}

pub record Config : Type 0 where
  pub transport : String
  pub context : String
  pub kubeconfig : String
  pub default_namespace : String
  pub allow_all_namespaces : Bool
  pub ray_access : String
  pub allow_mutations : Bool
  pub allow_destructive : Bool
  pub allow_raw_spec : Bool
  pub log_level : String
  pub http_addr : String
  pub auth_mode : String
  pub auth_token : String
  pub ray_dashboard_auth : String

pub record Flags : Type 0 where
  pub text_flag : String → Option String
  pub bool_flag : String → Option Bool

pub record Environment : Type 0 where
  pub getenv : String → Option String
  pub service_account_file : Option String
  pub split_host : String → Option String
  pub parse_ip : String → Option Bool

-- `strconv.ParseBool`
unfoldable pub parse_bool : String → Option Bool
parse_bool v =
    if v == "1" || v == "t" || v == "T" || v == "TRUE" || v == "true" || v == "True"
    then some true
    else if v == "0" || v == "f" || v == "F" || v == "FALSE" || v == "false" || v == "False"
    then some false
    else none

-- `unicode.IsSpace`
unfoldable pub is_space : ℕ → Bool
is_space c =
    (leb 9 c && leb c 13)
    || nat_eq c 32
    || nat_eq c 133
    || nat_eq c 160
    || nat_eq c 5760
    || (leb 8192 c && leb c 8202)
    || nat_eq c 8232
    || nat_eq c 8233
    || nat_eq c 8239
    || nat_eq c 8287
    || nat_eq c 12288

unfoldable pub trim_left : String → String
unfolding is_space
trim_left String.[] = ""
trim_left (String.◌∷◌ c s) =
    let rest = trim_left s in if is_space (code c) then rest else String.◌∷◌ c s

unfoldable pub trim_right : String → String
unfolding is_space
trim_right String.[] = ""
trim_right (String.◌∷◌ c s) =
    let rest = trim_right s in if is_space (code c) && rest == "" then "" else String.◌∷◌ c rest

unfoldable pub resolve_str : Environment → Option String → String → String → String
resolve_str env (some v) default key = v
resolve_str env none default key = elim (env.getenv key) [ some v ↦ v | none ↦ default ]

unfoldable pub env_bool : String → String → Result Bool
unfolding parse_bool quote
env_bool key v = elim (parse_bool v) [
  | some b ↦ ok b
  | none ↦ err (
      other (
        "invalid boolean for "
        ++ key
        ++ "="
        ++ quote v
        ++ ": strconv.ParseBool: parsing "
        ++ quote v
        ++ ": invalid syntax"))
]

unfoldable pub resolve_bool : Environment → Option Bool → Bool → String → Result Bool
unfolding env_bool
resolve_bool env (some b) default key = ok b
resolve_bool env none default key = elim (env.getenv key) [
  | some v ↦ env_bool key v
  | none ↦ ok default
]

abbrev pub non_empty_or : String → String → String
non_empty_or ns default = if ns == "" then default else ns

unfoldable pub file_namespace : Option String → String
unfolding trim_left trim_right
file_namespace none = "default"
file_namespace (some contents) = non_empty_or (trim_right (trim_left contents)) "default"

unfoldable pub resolve_namespace : Environment → Option String → String
unfolding file_namespace
resolve_namespace env (some ns) = ns
resolve_namespace env none = elim (env.getenv "RAY_MCP_NAMESPACE") [
  | some ns ↦ ns
  | none ↦ file_namespace env.service_account_file
]

unfoldable pub one_of : String → List String → Bool
one_of v [] = false
one_of v (a ∷ as') = v == a || one_of v as'

abbrev pub transport_values : List String
transport_values = "stdio" ∷ "http" ∷ []

abbrev pub ray_access_values : List String
ray_access_values = "auto" ∷ "direct" ∷ "port-forward" ∷ []

abbrev pub auth_mode_values : List String
auth_mode_values = "static" ∷ "tokenreview" ∷ []

abbrev pub log_level_values : List String
log_level_values = "debug" ∷ "info" ∷ "warn" ∷ "error" ∷ []

-- `isLoopback`, which internal/transport/http.go has too.
abbrev pub host_of : Environment → String → String
host_of env addr = elim (env.split_host addr) [ some host ↦ host | none ↦ addr ]

abbrev pub is_loopback_ip : Option Bool → Bool
is_loopback_ip none = false
is_loopback_ip (some loopback) = loopback

unfoldable pub is_loopback : Environment → String → Bool
is_loopback env addr =
    let host = host_of env addr in
    if host == ""
    then false
    else if host == "localhost"
    then true
    else is_loopback_ip (env.parse_ip host)

abbrev pub invalid : String → String → List String → Option Error
invalid flag v allowed =
    some (other ("invalid --" ++ flag ++ " " ++ quote v ++ ": must be one of " ++ join "|" allowed))

abbrev pub has_token : Config → Bool
has_token cfg =
    (cfg.auth_mode == "static" && not (cfg.auth_token == "")) || cfg.auth_mode == "tokenreview"

abbrev pub refused_bind : String → Option Error
refused_bind addr = some (
    other (
      "refusing to boot: --http-addr "
      ++ quote addr
      ++ " binds a non-loopback address without auth; "
      ++ "set --auth-token (static mode) or --auth-mode tokenreview (no --insecure escape hatch)"))

unfoldable pub validate : Environment → Config → Option Error
unfolding one_of is_loopback quote join
validate env cfg =
    if not (one_of cfg.transport transport_values)
    then invalid "transport" cfg.transport transport_values
    else if not (one_of cfg.ray_access ray_access_values)
    then invalid "ray-access" cfg.ray_access ray_access_values
    else if not (one_of cfg.auth_mode auth_mode_values)
    then invalid "auth-mode" cfg.auth_mode auth_mode_values
    else if not (one_of cfg.log_level log_level_values)
    then invalid "log-level" cfg.log_level log_level_values
    else if cfg.transport == "http" && not (is_loopback env cfg.http_addr) && not (has_token cfg)
    then refused_bind cfg.http_addr
    else none

-- A chain of Go `if err != nil { return nil, err }`.
infixl 5 ◌>>=◌
abbrev pub ◌>>=◌ : {A B : Type 0} → Result A → (A → Result B) → Result B
ok a >>= f = f a
err e >>= f = err e

unfoldable pub text_fields : Environment → Flags → Bool → Bool → Bool → Bool → Config
unfolding resolve_str resolve_namespace
text_fields env fs all_ns mutations destructive raw_spec = record {
  transport = resolve_str env (fs.text_flag "transport") "stdio" "RAY_MCP_TRANSPORT";
  context = resolve_str env (fs.text_flag "context") "" "RAY_MCP_CONTEXT";
  kubeconfig = resolve_str env (fs.text_flag "kubeconfig") "" "KUBECONFIG";
  default_namespace = resolve_namespace env (fs.text_flag "default-namespace");
  allow_all_namespaces = all_ns;
  ray_access = resolve_str env (fs.text_flag "ray-access") "auto" "RAY_MCP_RAY_ACCESS";
  allow_mutations = mutations;
  allow_destructive = destructive;
  allow_raw_spec = raw_spec;
  log_level = resolve_str env (fs.text_flag "log-level") "info" "RAY_MCP_LOG_LEVEL";
  http_addr = resolve_str env (fs.text_flag "http-addr") "127.0.0.1:8765" "RAY_MCP_HTTP_ADDR";
  auth_mode = resolve_str env (fs.text_flag "auth-mode") "static" "RAY_MCP_AUTH_MODE";
  auth_token = resolve_str env (fs.text_flag "auth-token") "" "RAY_MCP_AUTH_TOKEN";
  ray_dashboard_auth =
      resolve_str env (fs.text_flag "ray-dashboard-auth") "" "RAY_MCP_RAY_DASH_AUTH";
}

abbrev pub validated : Environment → Config → Result Config
validated env cfg = elim (validate env cfg) [ some e ↦ err e | none ↦ ok cfg ]

abbrev pub parsed_flags : Result Flags → Result Flags
parsed_flags (ok fs) = ok fs
parsed_flags (err e) = err (other ("parse flags: " ++ error_text e))

-- `flags` is the result of `fs.Parse`.
unfoldable pub load : Environment → Result Flags → Result Config
unfolding resolve_bool text_fields validate
load env flags = do
  fs ← parsed_flags flags
  all_ns ← resolve_bool env (fs.bool_flag "allow-all-namespaces") false "RAY_MCP_ALL_NS"
  mutations ← resolve_bool env (fs.bool_flag "allow-mutations") false "RAY_MCP_ALLOW_MUTATIONS"
  destructive ←
      resolve_bool env (fs.bool_flag "allow-destructive") false "RAY_MCP_ALLOW_DESTRUCTIVE"
  raw_spec ← resolve_bool env (fs.bool_flag "allow-raw-spec") true "RAY_MCP_ALLOW_RAW_SPEC"
  validated env (text_fields env fs all_ns mutations destructive raw_spec)
