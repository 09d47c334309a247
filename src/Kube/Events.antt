-- ===== src/Kube/Events.antt =====
-- internal/adapters/kuberay/events.go: the bounded slice of a cluster's events. A message is its bytes
-- here.
pub mod Stable
pub mod Order
pub mod Cut
use ray_mcp.Prelude.{
  ℕ, zero, suc, String, Bool, true, false, not, ◌&&◌, ◌||◌, Option, none, some, List, [], ◌∷◌, ◌++◌,
  map, length, leb, ltb, nat_eq, ◌==◌, if◌then◌else◌,
}
use ray_mcp.Prelude.Int.{ℤ, pos, negsuc, ltb_ℤ}
use ray_mcp.Prelude.Utf8.{bytes}
use ray_mcp.Errors.{Kind, ray_cluster, ray_job, ray_service, Error, Result, ok, err}
use ray_mcp.Kube.{Reply, answer, refused, map_k8s_error, limit_or}

abbrev pub default_event_limit : ℕ
default_event_limit = 25

abbrev pub max_message_len : ℕ
max_message_len = 250

pub record Series : Type 0 where
  pub count : ℤ
  pub last_observed_time : ℕ

-- A core/v1 Event.
pub record CoreEvent : Type 0 where
  pub involved_object : String
  pub type : String
  pub reason : String
  pub message : List ℕ
  pub count : ℤ
  pub series : Option Series
  pub last_timestamp : ℕ
  pub event_time : ℕ
  pub first_timestamp : ℕ

-- The domain's Event.
pub record Event : Type 0 where
  pub type : String
  pub reason : String
  pub message : List ℕ
  pub count : ℤ
  pub last_seen : ℕ

abbrev pub count_of : Option Series → ℤ → ℤ
count_of none count = count
count_of (some s) count = if ltb_ℤ (pos 0) s.count then s.count else count

unfoldable pub event_count : CoreEvent → ℤ
event_count ev = count_of ev.series ev.count

abbrev pub observed : Option Series → ℕ
observed none = 0
observed (some s) = s.last_observed_time

unfoldable pub event_last_seen : CoreEvent → ℕ
event_last_seen ev =
    if not (nat_eq ev.last_timestamp 0)
    then ev.last_timestamp
    else if not (nat_eq (observed ev.series) 0)
    then observed ev.series
    else if not (nat_eq ev.event_time 0)
    then ev.event_time
    else ev.first_timestamp

abbrev pub take {ℓ} : {A : Type ℓ} → ℕ → List A → List A
take zero xs = []
take (suc n) [] = []
take (suc n) (x ∷ xs) = x ∷ take n xs

abbrev pub ellipsis : List ℕ
ellipsis = 226 ∷ 128 ∷ 166 ∷ []

unfoldable pub truncate_message : List ℕ → List ℕ
truncate_message msg =
    if leb (length msg) max_message_len then msg else take max_message_len msg ++ ellipsis

unfoldable pub to_event : CoreEvent → Event
unfolding truncate_message event_count event_last_seen
to_event ev = record {
  type = ev.type;
  reason = ev.reason;
  message = truncate_message ev.message;
  count = event_count ev;
  last_seen = event_last_seen ev;
}

abbrev pub is_warning : Event → Bool
is_warning ev = ev.type == "Warning"

-- The comparison of the sort.
abbrev pub before : Event → Event → Bool
before a b =
    if is_warning a
    then (if is_warning b then ltb b.last_seen a.last_seen else true)
    else if is_warning b
    then false
    else ltb b.last_seen a.last_seen

unfoldable pub insert_event : Event → List Event → List Event
insert_event x [] = x ∷ []
insert_event x (y ∷ ys) =
    let rest = insert_event x ys in if before y x then y ∷ rest else x ∷ y ∷ ys

-- `sort.SliceStable`
unfoldable pub sort_events : List Event → List Event
unfolding insert_event
sort_events [] = []
sort_events (x ∷ xs) = insert_event x (sort_events xs)

unfoldable pub bound_events : List Event → ℕ → List Event
unfolding sort_events
bound_events events limit = take limit (sort_events events)

unfoldable pub is_target : List String → String → Bool
is_target [] name = false
is_target (t ∷ ts) name = t == name || is_target ts name

unfoldable pub relevant : List String → List CoreEvent → List Event
unfolding is_target to_event
relevant targets [] = []
relevant targets (ev ∷ evs) =
    let rest = relevant targets evs in
    if is_target targets ev.involved_object then to_event ev ∷ rest else rest

abbrev pub bounded :
    String → String → ℤ → List String → Reply (List CoreEvent) → Result (List Event)
bounded ns name limit targets (refused e) =
    err (map_k8s_error e "list events for" ray_cluster ns name)
bounded ns name limit targets (answer evs) =
    ok (bound_events (relevant targets evs) (limit_or default_event_limit limit))

abbrev pub among :
    String → String → ℤ → Reply (List String) → Reply (List CoreEvent) → Result (List Event)
among ns name limit (refused e) evs = err (map_k8s_error e "list" ray_cluster ns name)
among ns name limit (answer pods) evs = bounded ns name limit (name ∷ pods) evs

abbrev pub connected : Option Error → Result (List Event) → Result (List Event)
connected (some e) r = err e
connected none r = r

-- `pods` answers the names of the pods that bear the cluster's label, `evs` the namespace's first 500 events.
unfoldable pub events :
    Option Error
    → Reply (List String)
    → Reply (List CoreEvent)
    → Kind
    → String
    → String
    → ℤ
    → Result (List Event)
unfolding bound_events relevant map_k8s_error
events connect pods evs ray_job ns name limit = ok []
events connect pods evs ray_service ns name limit = ok []
events connect pods evs ray_cluster ns name limit = connected connect (among ns name limit pods evs)
