-- ===== src/Transport/Auth.antt =====
-- Who is served by the transport of internal/transport under a configuration of internal/config.
use Prim.Native.Char.{code}
use Prim.Native.String.{◌++◌}
use text.Mathlib.TextLemmas.{nil-append, cons-append}
use text.Mathlib.TextEquality.{Char-path}
use mathlib.Core.Path.{ap₂}
use ray_mcp.Prelude.{
  ◌≡◌, ◌⊎◌, ◌↔◌, inl, inr, refl, sym, ap, ◌∙◌, String, true, Option, none, some, arith, ◌==◌,
  eq_refl, eq_iff, Bool-cases, nat_eq, nat_eq_iff,
}
use ray_mcp.Errors.{Result, ok}
use ray_mcp.Config.{Config, Flags, Environment, is_loopback, validate, load}
use ray_mcp.Config.Valid.{load-IsValid, reviewing, reviewing_validates, load-validates}
use ray_mcp.Transport.{
  passed_on, Handler, base, bearer, after_prefix, scheme, compared, static_bearer_auth, serve,
  build_http_handler,
}

after_prefix-append : (p s : String) → after_prefix p (p ++ s) ≡ some s
unfolding after_prefix
after_prefix-append String.[] s = ap (λ (t : String). some t) (nil-append s)
after_prefix-append (String.◌∷◌ c p) s =
    rw (cons-append c p s, (nat_eq_iff (code c) (code c)).1 refl) (after_prefix-append p s)

after_prefix-some : (p h s : String) → after_prefix p h ≡ some s → h ≡ p ++ s
unfolding after_prefix
after_prefix-some String.[] h s e = let same : h ≡ s = ground arith in same ∙ sym (nil-append s)
after_prefix-some (String.◌∷◌ c p) String.[] s e = absurd (ground arith)
after_prefix-some (String.◌∷◌ c p) (String.◌∷◌ d h) s e =
    elim (Bool-cases (nat_eq (code c) (code d))) [
      | inl n ↦
          let rest : after_prefix p h ≡ some s = ground (arith, n, e) in
          ap₂ String.◌∷◌ (sym (Char-path c d ((nat_eq_iff (code c) (code d)).0 n)))
            (after_prefix-some p h s rest)
          ∙ sym (cons-append c p s)
      | inr n ↦ absurd (ground (arith, n, e))
    ]

compared-passed : (want : String) (o : Option String) → compared want o ≡ passed_on → o ≡ some want
compared-passed want none e = absurd (ground arith)
compared-passed want (some got) e = ground (arith, eq_iff got want)

pub static_bearer_auth_iff :
    (want header : String)
    → (static_bearer_auth want header ≡ passed_on) ↔ (header ≡ scheme ++ want)
unfolding static_bearer_auth
static_bearer_auth_iff want header = (
  λ e. after_prefix-some scheme header want (compared-passed want (after_prefix scheme header) e),
  λ e. rw (e, after_prefix-append scheme want, eq_refl want) refl,
)

-- The handler that is built serves without a token only on a loopback address.
build_http_handler-ok :
    (env : Environment) (cfg : Config) (h : Handler)
    → build_http_handler env cfg ≡ ok h
    → ((h ≡ bearer cfg.auth_token) × (¬ (cfg.auth_token ≡ "")))
      ⊎ ((h ≡ base) × (is_loopback env cfg.http_addr ≡ true))
unfolding build_http_handler
build_http_handler-ok env cfg h e = ground (
  arith,
  eq_iff cfg.auth_mode "static",
  eq_iff cfg.auth_mode "tokenreview",
  eq_iff cfg.auth_token "",
)

-- Whatever the configuration, a request that the built handler passes on bears exactly "Bearer " and
-- the configured token, which is not empty, or the configured address is a loopback one.
pub served_authorized :
    (env : Environment) (cfg : Config) (h : Handler) (header : String)
    → build_http_handler env cfg ≡ ok h
    → serve h header ≡ passed_on
    → ((header ≡ scheme ++ cfg.auth_token) × (¬ (cfg.auth_token ≡ "")))
      ⊎ (is_loopback env cfg.http_addr ≡ true)
unfolding serve
served_authorized env cfg h header built served = elim (build_http_handler-ok env cfg h built) [
  | inl (b, t) ↦
      let passed = ap (λ (x : Handler). serve x header) (sym b) ∙ served in
      inl ((static_bearer_auth_iff cfg.auth_token header).0 passed, t)
  | inr (b, l) ↦ inr l
]

static_is_not_review : ◌≡◌ {A = String} "static" "tokenreview" → ⊥
static_is_not_review e =
    let t : (("static" == "tokenreview") ≡ true) = (eq_iff "static" "tokenreview").1 e in cc

abbrev pub IsBuilt : Result Handler → Type 0
IsBuilt r = (h : Handler) × (r ≡ ok h)

IsBuilt-iff_static :
    (env : Environment) (flags : Result Flags) (cfg : Config)
    → load env flags ≡ ok cfg
    → cfg.transport ≡ "http"
    → IsBuilt (build_http_handler env cfg) ↔ (cfg.auth_mode ≡ "static")
unfolding build_http_handler
IsBuilt-iff_static env flags cfg l http =
    let bind = (load-IsValid env flags cfg l).bind http in
    let mode_iff = eq_iff cfg.auth_mode "static" in
    let review_iff = eq_iff cfg.auth_mode "tokenreview" in
    let token_iff = eq_iff cfg.auth_token "" in
    (
      λ (h, e). ground (arith, e, mode_iff, review_iff),
      λ m. elim (Bool-cases (cfg.auth_token == "")) [
        | inr t ↦ (bearer cfg.auth_token, rw (mode_iff.1 m, t) refl)
        | inl t ↦ elim (Bool-cases (is_loopback env cfg.http_addr)) [
          | inl b ↦ (base, rw (mode_iff.1 m, t, b) refl)
          | inr b ↦ elim (bind b) [
            | inl (st, set) ↦ absurd (set (token_iff.0 t))
            | inr r ↦ absurd (static_is_not_review (sym m ∙ r))
          ]
        ]
      ],
    )

review_unbuilt :
    (env : Environment) (cfg : Config) → ¬ IsBuilt (build_http_handler env (reviewing cfg))
unfolding build_http_handler
review_unbuilt env cfg (h, e) = ground (arith, e)

-- For a configuration that Load returned with the http transport, the handler is built exactly when
-- the authentication mode is static; the same configuration with the mode tokenreview passes the
-- validation of Load too, but no handler is built for it.
pub loaded_builds_iff :
    (env : Environment) (flags : Result Flags) (cfg : Config)
    → load env flags ≡ ok cfg
    → cfg.transport ≡ "http"
    → (IsBuilt (build_http_handler env cfg) ↔ (cfg.auth_mode ≡ "static"))
      × (validate env (reviewing cfg) ≡ none)
      × (¬ IsBuilt (build_http_handler env (reviewing cfg)))
loaded_builds_iff env flags cfg l http = (
  IsBuilt-iff_static env flags cfg l http,
  reviewing_validates env cfg (load-validates env flags cfg l),
  review_unbuilt env cfg,
)
