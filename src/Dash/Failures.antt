-- ===== src/Dash/Failures.antt =====
-- How the reads of internal/adapters/rayapi/client.go fail, and what a job's read makes of it.
use Prim.Native.String.{◌++◌}
use ray_mcp.Prelude.{
  ℕ, ◌<◌, ◌≡◌, inl, inr, refl, String, true, false, ◌||◌, none, List, length, leb, ltb, nat_eq,
  ◌==◌, arith, Bool-cases,
}
use ray_mcp.Errors.{not_found, unreachable, timeout, Result, ok, err}
use ray_mcp.Types.{RayJobStatus, LogOptions, Endpoint}
use ray_mcp.Dash.{
  read_ceiling, Parsed, parsed, malformed, Ending, eof, past_deadline, broken, Exchange, unsendable,
  deadline_exceeded, failed, responded, Packages, Client, JobDetails, job_url, take, read_all,
  handle_response, send, get, auth_header, live_status, decoded_status, job_status, decoded_logs,
  tail_of, job_logs,
}

-- How a read about a job may end.
pub data Ends {A : Type 0} (job_id op : String) : Result A → Type 0 where
  answered : (a : A) → Ends job_id op (ok a)
  out_of_reach : (place reason : String) → Ends job_id op (err (unreachable place reason))
  too_late : Ends job_id op (err (timeout op))
  unknown_job : Ends job_id op (err (not_found none "" job_id))

read_all-Ends :
    (e : Endpoint) (job_id op : String) (body : List ℕ) (ending : Ending)
    → Ends job_id op (read_all e op body ending)
unfolding read_all
read_all-Ends e job_id op body ending = elim (Bool-cases (leb read_ceiling (length body))) [
  | inl h ↦ rw h (answered _)
  | inr h ↦ rw h (at_end ending)
]
  where
    at_end :
        (n : Ending)
        → Ends job_id op (elim n [
          | eof ↦ ok body
          | past_deadline ↦ err (timeout op)
          | broken reason ↦ err (unreachable e.base_url ("read response: " ++ reason))
        ])
    at_end eof = answered body
    at_end past_deadline = too_late
    at_end (broken reason) = out_of_reach e.base_url ("read response: " ++ reason)

handle_response-Ends :
    (e : Endpoint) (job_id op : String) (x : Exchange)
    → Ends job_id op (handle_response e job_id op x)
unfolding handle_response
handle_response-Ends e job_id op (unsendable reason) = out_of_reach e.base_url reason
handle_response-Ends e job_id op deadline_exceeded = too_late
handle_response-Ends e job_id op (failed reason) = out_of_reach e.base_url _
handle_response-Ends e job_id op (responded code body ending) =
    elim (Bool-cases (nat_eq code 404)) [
      | inl h ↦ rw h unknown_job
      | inr h ↦ elim (Bool-cases (ltb code 200 || leb 300 code)) [
        | inl g ↦ rw (h, g) (out_of_reach e.base_url _)
        | inr g ↦ rw (h, g) (read_all-Ends e job_id op body ending)
      ]
    ]

send-Ends :
    (w : Packages) (c : Client) (e : Endpoint) (job_id op : String) (url : Parsed String)
    → Ends job_id op (send w c e job_id op url)
unfolding send
send-Ends w c e job_id op (malformed reason) = out_of_reach e.base_url reason
send-Ends w c e job_id op (parsed url) =
    handle_response-Ends e job_id op (w.request url (auth_header c))

live_status-Ends :
    (e : Endpoint) (job_id op : String) (d : Parsed JobDetails)
    → Ends job_id op (live_status e job_id d)
unfolding live_status
live_status-Ends e job_id op (malformed reason) = out_of_reach e.base_url _
live_status-Ends e job_id op (parsed d) = elim (Bool-cases (d.status == "")) [
  | inl h ↦ rw h (out_of_reach e.base_url _)
  | inr h ↦ rw h (answered _)
]

decoded_status-Ends :
    (w : Packages) (e : Endpoint) (job_id op : String) (r : Result (List ℕ))
    → Ends job_id op r
    → Ends job_id op (decoded_status w e job_id r)
unfolding decoded_status
decoded_status-Ends w e job_id op _ (answered body) =
    live_status-Ends e job_id op (w.decode_status body)
decoded_status-Ends w e job_id op _ (out_of_reach place reason) = out_of_reach place reason
decoded_status-Ends w e job_id op _ too_late = too_late
decoded_status-Ends w e job_id op _ unknown_job = unknown_job

pub job_status-Ends :
    (w : Packages) (c : Client) (e : Endpoint) (job_id : String)
    → Ends job_id "JobStatus" (job_status w c e job_id)
unfolding job_status get
job_status-Ends w c e job_id =
    decoded_status-Ends w e job_id "JobStatus" _
      (send-Ends w c e job_id "JobStatus" (job_url w e.base_url job_id ""))

-- A live status has the id that was asked for and a status that is not empty.
live_status-ok :
    (e : Endpoint) (job_id : String) (d : Parsed JobDetails) (s : RayJobStatus)
    → live_status e job_id d ≡ ok s
    → (s.job_id ≡ job_id) × (s.status == "" ≡ false)
unfolding live_status
live_status-ok e job_id (malformed reason) s h = ground arith
live_status-ok e job_id (parsed d) s h = elim (Bool-cases (d.status == "")) [
  | inl g ↦ ground (arith, g, h)
  | inr g ↦ ground (arith, g, h)
]

decoded_status-ok :
    (w : Packages) (e : Endpoint) (job_id : String) (r : Result (List ℕ)) (s : RayJobStatus)
    → decoded_status w e job_id r ≡ ok s
    → (s.job_id ≡ job_id) × (s.status == "" ≡ false)
unfolding decoded_status
decoded_status-ok w e job_id (ok body) s h = live_status-ok e job_id (w.decode_status body) s h
decoded_status-ok w e job_id (err x) s h = ground arith

pub job_status-ok :
    (w : Packages) (c : Client) (e : Endpoint) (job_id : String) (s : RayJobStatus)
    → job_status w c e job_id ≡ ok s
    → (s.job_id ≡ job_id) × (s.status == "" ≡ false)
unfolding job_status
job_status-ok w c e job_id s h = decoded_status-ok w e job_id (get w c e job_id "" "JobStatus") s h

leb-true : (m n : ℕ) → m < n → leb m n ≡ true
leb-true m n h = ground arith

-- A log buffer whose answer is longer than the ceiling is read up to the ceiling: where the decoder
-- refuses the cut answer, no tail is given, whatever the options ask for.
long_logs_lost :
    (w : Packages) (c : Client) (e : Endpoint) (job_id url reason : String) (opts : LogOptions)
    (body : List ℕ) (ending : Ending)
    → job_url w e.base_url job_id "logs" ≡ parsed url
    → w.request url (auth_header c) ≡ responded 200 body ending
    → read_ceiling < length body
    → w.decode_logs (take read_ceiling body) ≡ malformed reason
    → job_logs w c e job_id opts ≡ err (unreachable e.base_url ("decode job logs: " ++ reason))
unfolding job_logs get send handle_response read_all decoded_logs tail_of
long_logs_lost w c e job_id url reason opts body ending at sent long cut =
    simp (at, sent, leb-true read_ceiling (length body) long, cut) refl
