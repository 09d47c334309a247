-- ===== src/Dash.antt =====
-- The client of the Ray dashboard, internal/adapters/rayapi/client.go.
--
-- The packages net/http, net/url and encoding/json are parameters: what the request answers, how a URL
-- is parsed, escaped and resolved, and how a body decodes. A body is its bytes; `Ending` is what its
-- stream gives after them. A Go time is its nanoseconds since the zero time, in the year 1.
pub mod Logs
pub mod Failures
pub mod Wired
use Prim.Native.String.{◌++◌}
use ray_mcp.Prelude.{
  ℕ, zero, suc, ◌+◌, ◌-◌, ◌*◌, String, Bool, true, false, ◌||◌, Option, none, some, List, [], ◌∷◌,
  length, leb, ltb, nat_eq, ◌==◌, if◌then◌else◌,
}
use ray_mcp.Prelude.Int.{ℤ, pos, negsuc}
use ray_mcp.Prelude.Text.{show_nat}
use ray_mcp.Prelude.Utf8.{bytes}
use ray_mcp.Errors.{Error, not_found, unreachable, timeout, Result, ok, err}
use ray_mcp.Types.{RayJobStatus, LogOptions, Endpoint}
use ray_mcp.Dash.Logs.{BoundedLogs, bound_logs}

-- 4 MiB
abbrev pub read_ceiling : ℕ
read_ceiling = 4194304

abbrev pub dashboard_path_prefix : String
dashboard_path_prefix = "/api/jobs/"

-- A value, or the text of a package's error.
pub data Parsed (A : Type 0) : Type 0 where
  parsed : A → Parsed A
  malformed : String → Parsed A

pub data Ending : Type 0 where
  eof past_deadline : Ending
  broken : String → Ending

-- An error of `Do`: a `url.Error` around its cause and with a text of its own, or another.
pub data TransportError : Type 0 where
  url_error : Option String → String → TransportError
  plain_error : String → TransportError

pub data Exchange : Type 0 where
  unsendable : String → Exchange
  deadline_exceeded : Exchange
  failed : TransportError → Exchange
  responded : ℕ → List ℕ → Ending → Exchange

pub record JobDetails : Type 0 where
  pub submission_id : String
  pub status : String
  pub message : String
  pub start_time : Option ℤ
  pub end_time : Option ℤ

pub record Packages : Type 0 where
  pub parse_url : String → Parsed String
  pub path_escape : String → String
  pub resolve_reference : String → String → String
  pub request : String → Option String → Exchange
  pub decode_status : List ℕ → Parsed JobDetails
  pub decode_logs : List ℕ → Parsed String

pub record Client : Type 0 where
  pub dash_auth : String

unfoldable pub job_path : Packages → String → String → String
job_path w job_id suffix =
    let p = dashboard_path_prefix ++ w.path_escape job_id in
    if suffix == "" then p else p ++ "/" ++ suffix

unfoldable pub resolved : Packages → String → Parsed String → Parsed String
resolved w base (malformed e) = malformed ("build job path: " ++ e)
resolved w base (parsed ref) = parsed (w.resolve_reference base ref)

unfoldable pub based : Packages → String → String → Parsed String → Parsed String
unfolding job_path resolved
based w job_id suffix (malformed e) = malformed ("parse endpoint URL: " ++ e)
based w job_id suffix (parsed base) = resolved w base (w.parse_url (job_path w job_id suffix))

unfoldable pub job_url : Packages → String → String → String → Parsed String
unfolding based
job_url w base_url job_id suffix = based w job_id suffix (w.parse_url base_url)

unfoldable pub dial_reason : TransportError → String
dial_reason (url_error (some cause) text) = cause
dial_reason (url_error none text) = text
dial_reason (plain_error text) = text

unfoldable pub take : ℕ → List ℕ → List ℕ
take zero xs = []
take (suc n) [] = []
take (suc n) (x ∷ xs) = x ∷ take n xs

-- `io.ReadAll` of a limited reader: the end of the stream is not seen behind the limit.
unfoldable pub read_all : Endpoint → String → List ℕ → Ending → Result (List ℕ)
unfolding take
read_all e op body ending =
    if leb read_ceiling (length body) then ok (take read_ceiling body) else elim ending [
      | eof ↦ ok body
      | past_deadline ↦ err (timeout op)
      | broken reason ↦ err (unreachable e.base_url ("read response: " ++ reason))
    ]

unfoldable pub handle_response : Endpoint → String → String → Exchange → Result (List ℕ)
unfolding dial_reason read_all show_nat
handle_response e job_id op (unsendable reason) = err (unreachable e.base_url reason)
handle_response e job_id op deadline_exceeded = err (timeout op)
handle_response e job_id op (failed reason) = err (unreachable e.base_url (dial_reason reason))
handle_response e job_id op (responded code body ending) =
    if nat_eq code 404
    then err (not_found none "" job_id)
    else if ltb code 200 || leb 300 code
    then err (unreachable e.base_url ("dashboard returned HTTP " ++ show_nat code))
    else read_all e op body ending

abbrev pub auth_header : Client → Option String
auth_header c = if c.dash_auth == "" then none else some c.dash_auth

unfoldable pub send :
    Packages → Client → Endpoint → String → String → Parsed String → Result (List ℕ)
unfolding handle_response
send w c e job_id op (malformed reason) = err (unreachable e.base_url reason)
send w c e job_id op (parsed url) = handle_response e job_id op (w.request url (auth_header c))

unfoldable pub get : Packages → Client → Endpoint → String → String → String → Result (List ℕ)
unfolding job_url send
get w c e job_id suffix op = send w c e job_id op (job_url w e.base_url job_id suffix)

-- The milliseconds from the zero time to the epoch of Unix.
abbrev pub epoch_ms : ℕ
epoch_ms = 62135596800000

-- `time.UnixMilli`; what stands before the zero time is not told from it.
abbrev pub unix_milli : ℤ → ℕ
unix_milli (pos n) = (epoch_ms + n) * 1000000
unix_milli (negsuc n) = (epoch_ms - suc n) * 1000000

unfoldable pub millis_to_time : Option ℤ → ℕ
millis_to_time none = 0
millis_to_time (some ms) = unix_milli ms

unfoldable pub live_status : Endpoint → String → Parsed JobDetails → Result RayJobStatus
unfolding millis_to_time
live_status e job_id (malformed reason) =
    err (unreachable e.base_url ("decode job status: " ++ reason))
live_status e job_id (parsed d) =
    if d.status == ""
    then err (unreachable e.base_url "dashboard returned a response with no job status")
    else ok (record {
      job_id = job_id;
      status = d.status;
      message = d.message;
      started_at = millis_to_time d.start_time;
      ended_at = millis_to_time d.end_time;
    })

unfoldable pub decoded_status : Packages → Endpoint → String → Result (List ℕ) → Result RayJobStatus
unfolding live_status
decoded_status w e job_id (err x) = err x
decoded_status w e job_id (ok body) = live_status e job_id (w.decode_status body)

unfoldable pub job_status : Packages → Client → Endpoint → String → Result RayJobStatus
unfolding get decoded_status
job_status w c e job_id = decoded_status w e job_id (get w c e job_id "" "JobStatus")

unfoldable pub tail_of : Endpoint → LogOptions → Parsed String → Result BoundedLogs
unfolding bound_logs
tail_of e opts (malformed reason) = err (unreachable e.base_url ("decode job logs: " ++ reason))
tail_of e opts (parsed logs) = ok (bound_logs (bytes logs) opts)

unfoldable pub decoded_logs :
    Packages → Endpoint → LogOptions → Result (List ℕ) → Result BoundedLogs
unfolding tail_of
decoded_logs w e opts (err x) = err x
decoded_logs w e opts (ok body) = tail_of e opts (w.decode_logs body)

unfoldable pub job_logs : Packages → Client → Endpoint → String → LogOptions → Result BoundedLogs
unfolding get decoded_logs
job_logs w c e job_id opts = decoded_logs w e opts (get w c e job_id "logs" "JobLogs")
