-- ===== src/Kube/Connect.antt =====
-- internal/adapters/kuberay/client.go: the name of the context, and the connection that is made at the
-- first call.
--
-- client-go is a parameter: what the kubeconfig gives under some loading rules, whether a scheme takes
-- the types, and whether a client can be built. `K` is the type of a client, `R` of a `rest.Config`.
pub mod Once
use Prim.Native.String.{◌++◌}
use ray_mcp.Prelude.{ℕ, String, Option, none, some, List, [], ◌∷◌, ◌==◌, if◌then◌else◌}
use ray_mcp.Prelude.Text.{quote}
use ray_mcp.Errors.{Error, other, Result, ok, err}
use ray_mcp.Config.{Config}

pub record LoadingRules : Type 0 where
  pub explicit_path : Option String
  pub current_context : Option String

pub data Attempt (A : Type 0) : Type 0 where
  made : A → Attempt A
  failed : String → Attempt A

-- What client-go answers at one call.
pub record Dialing (K R : Type 0) : Type 0 where
  pub client_config : LoadingRules → Attempt R
  pub add_ray : Option String
  pub add_core : Option String
  pub new_k8s : R → Attempt K

pub record Client (K R : Type 0) : Type 0 where
  pub cfg : Config
  pub context : String
  pub default_namespace : String
  pub k8s : Option K
  pub rest_config : Option R

abbrev set_text : String → Option String
set_text s = if s == "" then none else some s

unfoldable pub loading_rules_for : Config → LoadingRules
loading_rules_for cfg = record {
  explicit_path = set_text cfg.kubeconfig;
  current_context = set_text cfg.context;
}

abbrev current_context_of : Attempt String → String
current_context_of (made context) = context
current_context_of (failed e) = ""

unfoldable pub local_context_name : (LoadingRules → Attempt String) → Config → String
unfolding loading_rules_for
local_context_name raw_config cfg =
    if cfg.context == ""
    then current_context_of (raw_config (loading_rules_for cfg))
    else cfg.context

-- `ContextName`
unfoldable pub context_name : {K R : Type 0} → Client K R → String
context_name c = if c.context == "" then "(current-context)" else c.context

abbrev scheme_error : Option String → Option String → Option String
scheme_error (some e) core = some e
scheme_error none core = core

module _ {K R : Type 0} where
  unfoldable pub new_client : (LoadingRules → Attempt String) → Config → Client K R
  unfolding local_context_name
  new_client raw_config cfg = record {
    cfg = cfg;
    context = local_context_name raw_config cfg;
    default_namespace = cfg.default_namespace;
    k8s = none;
    rest_config = none;
  }

  abbrev with_client : R → Attempt K → Result (K × R)
  with_client r (made k) = ok (k, r)
  with_client r (failed e) =
      err (other ("cannot reach cluster: build controller-runtime client: " ++ e))

  abbrev with_scheme : R → Option String → Attempt K → Result (K × R)
  with_scheme r (some e) k = err (other ("build KubeRay scheme: " ++ e))
  with_scheme r none k = with_client r k

  abbrev with_config : Config → Dialing K R → Attempt R → Result (K × R)
  with_config cfg d (made r) = with_scheme r (scheme_error d.add_ray d.add_core) (d.new_k8s r)
  with_config cfg d (failed e) = err (
      other
        ("cannot reach cluster: resolve kubeconfig (context " ++ quote cfg.context ++ "): " ++ e))

  -- The part of `ensureClient` after the test of the client that is held.
  unfoldable pub dial : Config → Dialing K R → Result (K × R)
  unfolding loading_rules_for quote
  dial cfg d = with_config cfg d (d.client_config (loading_rules_for cfg))

  abbrev pub held : Client K R → Result (K × R) → Result K × Client K R
  held c (ok kr) = (ok kr.0, record c { k8s = some kr.0; rest_config = some kr.1 })
  held c (err e) = (err e, c)

  abbrev ensure_at : Dialing K R → Client K R → Option K → Result K × Client K R
  ensure_at d c (some k) = (ok k, c)
  ensure_at d c none = held c (dial c.cfg d)

  unfoldable pub ensure_client : Dialing K R → Client K R → Result K × Client K R
  unfolding dial
  ensure_client d c = ensure_at d c c.k8s

  abbrev pub with_rest : Result K × Client K R → Result (K × Option R) × Client K R
  with_rest (ok k, c) = (ok (k, c.rest_config), c)
  with_rest (err e, c) = (err e, c)

  unfoldable pub runtime_client : Dialing K R → Client K R → Result (K × Option R) × Client K R
  unfolding ensure_client
  runtime_client d c = with_rest (ensure_client d c)

  -- The calls in the order in which they take the mutex.
  unfoldable pub run : List (Dialing K R) → Client K R → List (Result (K × Option R)) × Client K R
  unfolding runtime_client
  run [] c = ([], c)
  run (d ∷ ds) c =
      let one = runtime_client d c in let rest = run ds one.1 in (one.0 ∷ rest.0, rest.1)
