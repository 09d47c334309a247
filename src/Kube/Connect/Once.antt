-- ===== src/Kube/Connect/Once.antt =====
-- The connection of internal/adapters/kuberay/client.go over a history of calls.
use mathlib.Core.Path.{subst}
use ray_mcp.Prelude.{◌≡◌, refl, sym, ap, ◌∙◌, String, Option, none, some, List, [], ◌∷◌}
use ray_mcp.Errors.{Result, ok, err}
use ray_mcp.Config.{Config}
use ray_mcp.Kube.Connect.{
  LoadingRules, Attempt, Dialing, Client, local_context_name, context_name, new_client, dial, held,
  with_rest, ensure_client, runtime_client, run,
}

module _ {K R : Type 0} where
  abbrev pub answered : Result (K × R) → Result (K × Option R)
  answered (ok kr) = ok (kr.0, some kr.1)
  answered (err e) = err e

  abbrev pub kept : Option (K × R) → Result (K × R) → Option (K × R)
  kept (some kr) now = some kr
  kept none (ok kr) = some kr
  kept none (err e) = none

  abbrev pub reply_of : Option (K × R) → Result (K × R) → Result (K × Option R)
  reply_of (some kr) now = ok (kr.0, some kr.1)
  reply_of none now = answered now

  -- The first success is kept and answered ever after; until then each call is tried anew.
  abbrev pub Follows :
      Config → Option (K × R) → List (Dialing K R) → List (Result (K × Option R)) → Type 0
  Follows cfg o [] [] = Unit {0}
  Follows cfg o [] (r ∷ rs) = ⊥
  Follows cfg o (d ∷ ds) [] = ⊥
  Follows cfg o (d ∷ ds) (r ∷ rs) =
      (r ≡ reply_of o (dial cfg d)) × Follows cfg (kept o (dial cfg d)) ds rs

  abbrev holding : Config → String → Option (K × R) → Client K R
  holding cfg context none = record {
    cfg = cfg;
    context = context;
    default_namespace = cfg.default_namespace;
    k8s = none;
    rest_config = none;
  }
  holding cfg context (some kr) = record {
    cfg = cfg;
    context = context;
    default_namespace = cfg.default_namespace;
    k8s = some kr.0;
    rest_config = some kr.1;
  }

  abbrev pub client_of : Option (K × R) → Option K
  client_of none = none
  client_of (some kr) = some kr.0

  abbrev pub kept_all : Config → Option (K × R) → List (Dialing K R) → Option (K × R)
  kept_all cfg o [] = o
  kept_all cfg o (d ∷ ds) = kept_all cfg (kept o (dial cfg d)) ds

  k8s-holding :
      (cfg : Config) (context : String) (o : Option (K × R))
      → (holding cfg context o).k8s ≡ client_of o
  k8s-holding cfg context none = refl
  k8s-holding cfg context (some kr) = refl

  context_name-holding :
      (cfg : Config) (context : String) (o : Option (K × R))
      → context_name (holding cfg context o) ≡ context_name (holding cfg context none)
  unfolding context_name
  context_name-holding cfg context none = refl
  context_name-holding cfg context (some kr) = refl

  with_rest-held :
      (cfg : Config) (context : String) (r : Result (K × R))
      → with_rest (held (holding cfg context none) r)
        ≡ (answered r, holding cfg context (kept none r))
  with_rest-held cfg context (ok kr) = refl
  with_rest-held cfg context (err e) = refl

  runtime_client-holding :
      (cfg : Config) (context : String) (d : Dialing K R) (o : Option (K × R))
      → runtime_client d (holding cfg context o)
        ≡ (reply_of o (dial cfg d), holding cfg context (kept o (dial cfg d)))
  unfolding runtime_client ensure_client
  runtime_client-holding cfg context d (some kr) = refl
  runtime_client-holding cfg context d none = with_rest-held cfg context (dial cfg d)

  run-holding :
      (cfg : Config) (context : String) (ds : List (Dialing K R)) (o : Option (K × R))
      → Follows cfg o ds (run ds (holding cfg context o)).0
        × ((run ds (holding cfg context o)).1 ≡ holding cfg context (kept_all cfg o ds))
  unfolding run
  run-holding cfg context [] o = (tt, refl)
  run-holding cfg context (d ∷ ds) o =
      let one = runtime_client-holding cfg context d o in
      let (f, e) = run-holding cfg context ds (kept o (dial cfg d)) in
      let Next : Client K R → Type 0 = λ (c : Client K R).
        Follows cfg (kept o (dial cfg d)) ds (run ds c).0
        × ((run ds c).1 ≡ holding cfg context (kept_all cfg (kept o (dial cfg d)) ds)) in
      let (f2, e2) =
        subst Next (sym (ap (λ (x : Result (K × Option R) × Client K R). x.1) one)) (f, e) in
      ((ap (λ (x : Result (K × Option R) × Client K R). x.0) one, f2), e2)

  -- Over every history of calls on a new client, whatever client-go answers at each: until the first
  -- success each call answers what client-go gives at that call, a failure included, and every later
  -- call answers the client and the config of that success; at the end that client is held, if any;
  -- and the name of the context that is reported never changes.
  pub run_connects_once :
      (raw_config : LoadingRules → Attempt String) (cfg : Config) (ds : List (Dialing K R))
      → let start : Client K R = new_client raw_config cfg in
        let r = run ds start in
        Follows cfg none ds r.0
        × (r.1.k8s ≡ client_of (kept_all cfg none ds))
        × (context_name r.1 ≡ context_name start)
  unfolding new_client context_name
  run_connects_once raw_config cfg ds =
      let (f, e) = run-holding cfg (local_context_name raw_config cfg) ds none in
      let last = kept_all cfg none ds in
      (
        f,
        ap (λ (c : Client K R). c.k8s) e ∙ k8s-holding cfg (local_context_name raw_config cfg) last,
        ap (context_name {K = K} {R = R}) e
            ∙ context_name-holding cfg (local_context_name raw_config cfg) last,
      )
