-- ===== src/Kube.antt =====
-- The KubeRay adapter, internal/adapters/kuberay: what its files share.
--
-- The Kubernetes API is a parameter: what a read answers, an error being known by the tests of
-- k8s.io/apimachinery that the adapter makes and by its text. `connect` is the error of
-- `ensureClient`, if any. A time is a number of nanoseconds, 0 the zero time.
pub mod Clusters
pub mod Jobs
pub mod Services
pub mod Phases
pub mod Events
pub mod Connect
pub mod Create
pub mod Bases
pub mod Shutdown
use Prim.Native.String.{◌++◌}
use ray_mcp.Prelude.{
  ℕ, suc, ◌-◌, String, Bool, true, false, ◌||◌, Option, none, some, List, [], ◌∷◌, map, leb, ltb,
  nat_eq, ◌==◌, if◌then◌else◌,
}
use ray_mcp.Prelude.Int.{ℤ, pos, negsuc}
use ray_mcp.Prelude.Text.{quote}
use ray_mcp.Errors.{
  Kind, ray_cluster, ray_job, ray_service, kind_text, Error, not_found, forbidden, conflict,
  timeout, other, Result, ok, err,
}
use ray_mcp.Json.{Fields}
use ray_mcp.Types.{Page, ListOptions}

pub record K8sError : Type 0 where
  pub is_not_found : Bool
  pub is_forbidden : Bool
  pub is_conflict : Bool
  pub is_deadline : Bool
  pub is_timeout : Bool
  pub is_server_timeout : Bool
  pub text : String

pub data Reply (A : Type 0) : Type 0 where
  answer : A → Reply A
  refused : K8sError → Reply A

unfoldable pub resource_for : Kind → String
resource_for ray_cluster = "rayclusters"
resource_for ray_job = "rayjobs"
resource_for ray_service = "rayservices"

unfoldable pub map_k8s_error : K8sError → String → Kind → String → String → Error
unfolding resource_for quote
map_k8s_error e verb kind ns name =
    if e.is_not_found
    then not_found (some kind) ns name
    else if e.is_forbidden
    then forbidden verb (resource_for kind) ns
    else if e.is_conflict
    then conflict kind ns name e.text
    else if e.is_deadline || e.is_timeout || e.is_server_timeout
    then timeout (verb ++ " " ++ kind_text kind)
    else other (
        verb
        ++ " "
        ++ kind_text kind
        ++ " "
        ++ quote name
        ++ " in namespace "
        ++ quote ns
        ++ ": "
        ++ e.text)

abbrev pub default_list_limit : ℕ
default_list_limit = 50

pub record ListRequest : Type 0 where
  pub limit : ℕ
  pub namespace : String
  pub continue : Option String

abbrev pub limit_or : ℕ → ℤ → ℕ
limit_or d (negsuc n) = d
limit_or d (pos n) = if nat_eq n 0 then d else n

unfoldable pub list_request : String → ListOptions → ListRequest
list_request ns opts = record {
  limit = limit_or default_list_limit opts.limit;
  namespace = if opts.all_namespaces then "" else ns;
  continue = if opts.continue == "" then none else some opts.continue;
}

unfoldable pub listed : {A B : Type 0} → Kind → String → (A → B) → Reply (Page A) → Result (Page B)
unfolding map_k8s_error
listed kind ns row (refused e) = err (map_k8s_error e "list" kind ns "")
listed kind ns row (answer page) =
    ok (record { items = map row page.items; continue = page.continue })

-- The body that ListClusters, ListJobs and ListServices share.
unfoldable pub list_page :
    {A B : Type 0}
    → Option Error
    → (ListRequest → Reply (Page A))
    → Kind
    → (A → B)
    → String
    → ListOptions
    → Result (Page B)
unfolding list_request listed
list_page (some e) ask kind row ns opts = err e
list_page none ask kind row ns opts = listed kind ns row (ask (list_request ns opts))

-- The full object as a map, or the converter's error.
pub data Converted : Type 0 where
  fields : Fields → Converted
  unconvertible : String → Converted

abbrev pub with_raw : {A : Type 0} → Kind → String → (Option Fields → A) → Converted → Result A
with_raw kind name detail (fields raw) = ok (detail (some raw))
with_raw kind name detail (unconvertible e) =
    err (other ("convert " ++ kind_text kind ++ " " ++ quote name ++ " to unstructured: " ++ e))

unfoldable pub gotten :
    {A B : Type 0} → Kind → String → String → (A → Result B) → Reply A → Result B
unfolding map_k8s_error
gotten kind ns name detail (refused e) = err (map_k8s_error e "get" kind ns name)
gotten kind ns name detail (answer a) = detail a

-- The body that GetCluster, GetJob and GetService share.
unfoldable pub get_object :
    {A B : Type 0}
    → Option Error
    → (String → String → Reply A)
    → Kind
    → (A → Result B)
    → String
    → String
    → Result B
unfolding gotten
get_object (some e) ask kind detail ns name = err e
get_object none ask kind detail ns name = gotten kind ns name detail (ask ns name)

-- The time since the creation, 0 where that is not stamped.
unfoldable pub age_of : ℕ → ℕ → ℤ
age_of now created =
    if nat_eq created 0
    then pos 0
    else if leb created now
    then pos (now - created)
    else negsuc (created - now - 1)

pub record Condition : Type 0 where
  pub type : String
  pub status : String
  pub reason : String
  pub message : String

-- `meta.FindStatusCondition`
unfoldable pub find_condition : String → List Condition → Option Condition
find_condition type [] = none
find_condition type (c ∷ cs) =
    let rest = find_condition type cs in if c.type == type then some c else rest

abbrev pub condition_is_true : Option Condition → Bool
condition_is_true none = false
condition_is_true (some c) = c.status == "True"

-- `meta.IsStatusConditionTrue`
unfoldable pub is_true : String → List Condition → Bool
unfolding find_condition
is_true type cs = condition_is_true (find_condition type cs)
