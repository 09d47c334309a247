-- ===== src/Tests/Building.antt =====
-- Examples of the bases of a create and of a submit, and of a connection.
use ray_mcp.Prelude.{ℕ, ◌≡◌, refl, String, true, false, none, some, List, [], ◌∷◌}
use ray_mcp.Prelude.Int.{pos, negsuc}
use ray_mcp.Json.{obj, Fields, end, field}
use ray_mcp.Errors.{ok}
use ray_mcp.Cluster.{WorkerGroupParams, ClusterCreateParams}
use ray_mcp.Job.Submit.{JobSubmitParams}
use ray_mcp.Json.{bool, str, get}
use ray_mcp.Kube.{Converted, fields}
use ray_mcp.Kube.Create.{Quantity, quantity, RayClusterObject, build_typed}
use ray_mcp.Kube.Create.Bounds.{AreBuilt, build_typed-AreBuilt}
use ray_mcp.Kube.Bases.{RayJobObject, build_job_base}
use ray_mcp.Kube.Shutdown.{Says, build_job_base-Says}
use ray_mcp.Config.{Config}
use ray_mcp.Kube.Connect.{
  LoadingRules, Attempt, made, failed, Dialing, Client, new_client, context_name, run,
}
use ray_mcp.Kube.Connect.Once.{Follows, client_of, kept_all, run_connects_once}
use ray_mcp.Tests.{one}

abbrev parse : String → Quantity
parse s = quantity s

-- A ceiling of 1 below three replicas.
abbrev group : WorkerGroupParams
group = record {
  name = "small";
  replicas = pos 3;
  min_replicas = pos 2;
  max_replicas = pos 1;
  resources = record { cpu = "2"; memory = ""; gpu = "1" };
}

-- Negative replicas, which the builder takes.
abbrev negative : WorkerGroupParams
negative = record group { name = "negative"; replicas = negsuc 0; min_replicas = negsuc 1 }

abbrev params : ClusterCreateParams
params = record {
  namespace = "team";
  name = "demo";
  ray_version = "2.9.0";
  image = "ray:2.9.0";
  head_resources = record { cpu = "1"; memory = ""; gpu = "" };
  worker_groups = group ∷ negative ∷ [];
  enable_autoscaling = true;
  labels = [];
  annotations = [];
  raw_spec = end;
  dry_run = false;
}

abbrev built : RayClusterObject
built = record {
  name = "demo";
  namespace = "team";
  labels = [];
  annotations = [];
  ray_version = "2.9.0";
  enable_in_tree_autoscaling = some true;
  head = record { name = "ray-head"; image = "ray:2.9.0"; resources = ("cpu", "1") ∷ [] };
  worker_groups =
      record {
        group_name = "small";
        replicas = pos 3;
        min_replicas = pos 2;
        max_replicas = pos 3;
        container = record {
          name = "ray-worker";
          image = "ray:2.9.0";
          resources = ("cpu", "2") ∷ ("nvidia.com/gpu", "1") ∷ [];
        };
      }
      ∷ record {
        group_name = "negative";
        replicas = negsuc 0;
        min_replicas = negsuc 1;
        max_replicas = pos 1;
        container = record {
          name = "ray-worker";
          image = "ray:2.9.0";
          resources = ("cpu", "2") ∷ ("nvidia.com/gpu", "1") ∷ [];
        };
      }
      ∷ [];
}

built-typed : build_typed parse params ≡ ok built
unfolding build_typed
built-typed = refl

build_typed-AreBuilt_example :
    (built.name ≡ params.name)
    × (built.namespace ≡ params.namespace)
    × AreBuilt params.worker_groups built.worker_groups
build_typed-AreBuilt_example = build_typed-AreBuilt parse params built built-typed

abbrev submit : JobSubmitParams
submit = record {
  namespace = "team";
  name = "demo";
  entrypoint = "python main.py";
  existing_cluster = "";
  cluster_spec = some (record {
    ray_version = "2.9.0";
    image = "ray:2.9.0";
    head_resources = record { cpu = "1"; memory = ""; gpu = "" };
    worker_groups = group ∷ [];
    enable_autoscaling = false;
  });
  runtime_env_yaml = "";
  metadata = [];
  shutdown_after_job_finishes = some false;
  raw_spec = end;
  dry_run = false;
}

abbrev convert : RayJobObject → Converted
convert o = fields (one "spec" (obj (one "entrypoint" (str o.entrypoint))))

abbrev base : Fields
base =
    one "spec" (
      obj (field "entrypoint" (str "python main.py") (one "shutdownAfterJobFinishes" (bool false))))

base-built : build_job_base parse convert submit ≡ ok base
unfolding build_job_base ray_mcp.Json.as_obj get ray_mcp.Json.set
base-built = refl

build_job_base-Says_example : Says base false
build_job_base-Says_example = build_job_base-Says parse convert submit base false base-built refl

-- A connection to client `k`, and none.
abbrev connects : ℕ → Dialing ℕ ℕ
connects k = record {
  client_config = λ rules. made 7;
  add_ray = none;
  add_core = none;
  new_k8s = λ config. made k;
}

abbrev unreadable : Dialing ℕ ℕ
unreadable = record (connects 0) { client_config = λ rules. failed "no such file" }

abbrev raw_config : LoadingRules → Attempt String
raw_config rules = made "kind-dev"

abbrev history : List (Dialing ℕ ℕ)
history = unreadable ∷ connects 1 ∷ unreadable ∷ connects 2 ∷ []

abbrev cfg : Config
cfg = record {
  transport = "stdio";
  context = "";
  kubeconfig = "";
  default_namespace = "team";
  allow_all_namespaces = false;
  ray_access = "auto";
  allow_mutations = false;
  allow_destructive = false;
  allow_raw_spec = true;
  log_level = "info";
  http_addr = "";
  auth_mode = "none";
  auth_token = "";
  ray_dashboard_auth = "";
}

abbrev start : Client ℕ ℕ
start = new_client raw_config cfg

-- Client 1 is kept through a failure and a second connection.
kept_one : kept_all cfg none history ≡ some (1, 7)
unfolding ray_mcp.Kube.Connect.dial
kept_one = refl

run_connects_once_example :
    Follows cfg none history (run history start).0
    × ((run history start).1.k8s ≡ client_of (kept_all cfg none history))
    × (context_name (run history start).1 ≡ context_name start)
run_connects_once_example = run_connects_once raw_config cfg history
