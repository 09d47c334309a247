-- ===== src/Config/Valid.antt =====
-- What a configuration of internal/config/config.go that `Load` returns has passed.
use ray_mcp.Prelude.{
  ◌≡◌, ◌⊎◌, inl, inr, String, true, false, not, ◌&&◌, none, List, [], ◌∷◌, arith, ◌==◌, eq_iff,
  Option-cases,
}
use ray_mcp.Errors.{Result, ok, err}
use ray_mcp.Config.{
  Config, Flags, Environment, one_of, transport_values, ray_access_values, auth_mode_values,
  log_level_values, is_loopback, validate, validated, ◌>>=◌, load, has_token, text_fields,
  resolve_bool, parsed_flags,
}

abbrev pub OneOf : String → List String → Type 0
OneOf v [] = ⊥
OneOf v (a ∷ as') = (v ≡ a) ⊎ OneOf v as'

one_of-OneOf : (v : String) (as' : List String) → one_of v as' ≡ true → OneOf v as'
unfolding one_of
one_of-OneOf v [] h = ground arith
one_of-OneOf v (a ∷ as') h = ground (arith, one_of-OneOf v as', eq_iff v a)

-- The boot invariants: each choice is one of those that are documented, and a listener that others can
-- reach has a token or reviews tokens.
pub record IsValid (env : Environment) (cfg : Config) : Type 0 where
  pub transport : OneOf cfg.transport transport_values
  pub ray_access : OneOf cfg.ray_access ray_access_values
  pub auth_mode : OneOf cfg.auth_mode auth_mode_values
  pub log_level : OneOf cfg.log_level log_level_values
  pub bind :
      cfg.transport ≡ "http"
      → is_loopback env cfg.http_addr ≡ false
      → ((cfg.auth_mode ≡ "static") × (¬ (cfg.auth_token ≡ ""))) ⊎ (cfg.auth_mode ≡ "tokenreview")

passed :
    (env : Environment) (cfg : Config)
    → validate env cfg ≡ none
    → (one_of cfg.transport transport_values ≡ true)
      × (one_of cfg.ray_access ray_access_values ≡ true)
      × (one_of cfg.auth_mode auth_mode_values ≡ true)
      × (one_of cfg.log_level log_level_values ≡ true)
      × ((cfg.transport == "http" && not (is_loopback env cfg.http_addr) && not (has_token cfg))
          ≡ false)
unfolding validate
passed env cfg h = ground arith

pub validate-IsValid :
    (env : Environment) (cfg : Config) → validate env cfg ≡ none → IsValid env cfg
validate-IsValid env cfg h =
    let (t, r, a, l, b) = passed env cfg h in
    record {
      transport = one_of-OneOf _ _ t;
      ray_access = one_of-OneOf _ _ r;
      auth_mode = one_of-OneOf _ _ a;
      log_level = one_of-OneOf _ _ l;
      bind = λ http open_bind. ground (
        arith,
        b,
        eq_iff cfg.transport "http",
        eq_iff cfg.auth_mode "static",
        eq_iff cfg.auth_mode "tokenreview",
        eq_iff cfg.auth_token "",
      );
    }

bind-ok :
    {A B : Type 0} (r : Result A) (f : A → Result B) (b : B)
    → (r >>= f) ≡ ok b
    → (a : A) × (f a ≡ ok b)
bind-ok (ok a) f b h = (a, h)
bind-ok (err e) f b h = absurd (ground arith)

validated-ok :
    (env : Environment) (c cfg : Config) → validated env c ≡ ok cfg → validate env cfg ≡ none
validated-ok env c cfg h = elim (Option-cases (validate env c)) [
  | inl n ↦ ground (arith, n, h)
  | inr (e, s) ↦ absurd (ground (arith, s, h))
]

-- The mode tokenreview passes wherever a configuration has passed.
abbrev pub reviewing : Config → Config
reviewing cfg = record cfg { auth_mode = "tokenreview" }

pub reviewing_validates :
    (env : Environment) (cfg : Config)
    → validate env cfg ≡ none
    → validate env (reviewing cfg) ≡ none
unfolding validate one_of
reviewing_validates env cfg h = ground (arith, h)

pub load-validates :
    (env : Environment) (flags : Result Flags) (cfg : Config)
    → load env flags ≡ ok cfg
    → validate env cfg ≡ none
unfolding load
load-validates env flags cfg h =
    let (fs, h1) = bind-ok (parsed_flags flags) _ cfg h in
    let (b1, h2) =
      bind-ok (resolve_bool env (fs.bool_flag "allow-all-namespaces") false "RAY_MCP_ALL_NS") _ cfg
        h1 in
    let (b2, h3) =
      bind-ok (resolve_bool env (fs.bool_flag "allow-mutations") false "RAY_MCP_ALLOW_MUTATIONS") _
        cfg h2 in
    let (b3, h4) =
      bind-ok
        (resolve_bool env (fs.bool_flag "allow-destructive") false "RAY_MCP_ALLOW_DESTRUCTIVE") _
        cfg h3 in
    let (b4, h5) =
      bind-ok (resolve_bool env (fs.bool_flag "allow-raw-spec") true "RAY_MCP_ALLOW_RAW_SPEC") _ cfg
        h4 in
    validated-ok env (text_fields env fs b1 b2 b3 b4) cfg h5

-- Each configuration that Load returns, from whatever flags and environment, has a transport, an
-- access mode, an authentication mode and a log level that are among the documented values, and with
-- the http transport on an address that is not a loopback one it has a static token that is not
-- empty, or the mode tokenreview.
pub load-IsValid :
    (env : Environment) (flags : Result Flags) (cfg : Config)
    → load env flags ≡ ok cfg
    → IsValid env cfg
load-IsValid env flags cfg h = validate-IsValid env cfg (load-validates env flags cfg h)
