-- ===== src/Control.antt =====
-- src/waitctl.py, the client of the wait daemon: what it sends, in order, and what it makes of the
-- answers. The service, the clock and the lock are functions of what has happened so far.
use wait_skill.Prelude.{
  ℕ, Bool, true, false, not, ◌&&◌, ◌||◌, String, Option, none, some, List, [], ◌∷◌, ◌==◌, Result,
  ok, err, elem, leb, nat_eq, zero, suc, ◌+◌, if◌then◌else◌,
}
use wait_skill.Watch.Arguments.{validate_job_argv}
pub mod Commands
pub mod Versions
pub mod Ends
pub mod Started
mod Tests

pub data Request : Type 0 where
  ping shutdown list dashboard : Request
  submit : (argv : List String) (cwd : String) → Request
  show cancel : (watch_id : String) → Request
  follow : (watch_id : String) (timeout : ℕ) → Request
  state_command : (name : String) (argv : List String) (cwd : String) → Request

-- What has happened, the last event first: requests, the start of a service, and pauses.
pub data Event : Type 0 where
  sent : Request → Event
  spawned slept : Event

abbrev pub History : Type 0
History = List Event

-- What is read of a response.
pub record Response : Type 0 where
  pub ok : Bool
  pub code : ℕ
  pub protocol_version : ℕ
  pub service_fingerprint : String
  pub watch_id : String
  pub state : String
  pub query_status : String
  pub lock_status : String
  pub event : Option String

-- No response stands for an exception of `request`: for an `OSError`, or where `is_malformed` for
-- the `ValueError` or `TypeError` of an answer that is not a JSON object. `protocol_version` and
-- `service_fingerprint` are the constants of src/protocol.py.
pub record World : Type 0 where
  pub answer : History → Request → Option Response
  pub is_malformed : History → Request → Bool
  pub time : History → ℕ
  pub is_unlocked : History → Bool
  pub protocol_version : ℕ
  pub service_fingerprint : String
  pub cwd : String

pub data ControlError : Type 0 where
  no_answer version_mismatch not_started bad_argv bad_timeout not_stopped no_fuel : ControlError
  startup_failed : (event : String) → ControlError
  not_verified : (watch_id : String) → ControlError

abbrev pub Outcome : Type 0
Outcome = Result ControlError Response × History

-- 5 seconds, in milliseconds.
abbrev pub five_seconds : ℕ
five_seconds = 5000

abbrev pub answered : Option Response → Result ControlError Response
answered none = err no_answer
answered (some r) = ok r

-- `request`
abbrev pub request : World → Request → History → Outcome
request w q h = (answered (w.answer h q), sent q ∷ h)

abbrev pub service_matches : World → Response → Bool
service_matches w r =
    nat_eq r.protocol_version w.protocol_version && r.service_fingerprint == w.service_fingerprint

abbrev pub is_match : World → Option Response → Bool
is_match w none = false
is_match w (some r) = service_matches w r

-- A ping without a response in `start_daemon`, which goes on behind an `OSError` alone.
abbrev unless_malformed : World → History → Outcome → Outcome
unless_malformed w h go_on = if w.is_malformed h ping then (err no_answer, sent ping ∷ h) else go_on

-- The loop of `start_daemon`, until the service answers or the time is up.
unfoldable pub await_daemon : World → (deadline fuel : ℕ) → History → Outcome
await_daemon w deadline zero h = (err no_fuel, h)
await_daemon w deadline (suc fuel) h =
    let rest = await_daemon w deadline fuel (slept ∷ sent ping ∷ h) in
    if leb deadline (w.time h) then (err not_started, h) else elim (w.answer h ping) [
      | none ↦ unless_malformed w h rest
      | some r ↦ if service_matches w r then (ok r, sent ping ∷ h) else rest
    ]

unfoldable pub start_daemon : World → (fuel : ℕ) → History → Outcome
start_daemon w fuel h =
    let started = spawned ∷ sent ping ∷ h in
    elim (w.answer h ping) [
      | none ↦ unless_malformed w h (await_daemon w (w.time started + five_seconds) fuel started)
      | some r ↦ (if service_matches w r then ok r else err version_mismatch, sent ping ∷ h)
    ]

-- `wait_for_daemon_stop`
unfoldable pub wait_for_daemon_stop :
    World → (deadline fuel : ℕ) → History → Option ControlError × History
wait_for_daemon_stop w deadline zero h = (some no_fuel, h)
wait_for_daemon_stop w deadline (suc fuel) h =
    let rest = wait_for_daemon_stop w deadline fuel (slept ∷ h) in
    if w.is_unlocked h
    then (none, h)
    else if leb deadline (w.time h)
    then (some not_stopped, h)
    else rest

abbrev stopped : Result ControlError Response → Option ControlError × History → Outcome
stopped answer (none, h) = (answer, h)
stopped answer (some e, h) = (err e, h)

unfoldable pub stop_daemon : World → (fuel : ℕ) → History → Outcome
stop_daemon w fuel h =
    let h' = sent shutdown ∷ h in
    elim (w.answer h shutdown) [
      | none ↦ (err no_answer, h')
      | some r ↦ stopped (ok r) (wait_for_daemon_stop w (w.time h' + five_seconds) fuel h')
    ]

abbrev pub forwarded_args : List String → List String
forwarded_args [] = []
forwarded_args (value ∷ values) = if value == "--" then values else value ∷ values

unfoldable pub validate_start_argv : List String → Result ControlError (List String)
validate_start_argv values = elim (validate_job_argv (forwarded_args values)) [
  | ok _ ↦ ok (forwarded_args values)
  | err e ↦ err bad_argv
]

-- What a record says about the start of its watch.
pub data Startup : Type 0 where
  failed : (event : String) → Startup
  verified unknown : Startup

abbrev failed_events : List String
failed_events = "start_failed" ∷ "watcher_failed" ∷ "already_watching" ∷ []

abbrev is_verified : Response → Bool
is_verified r =
    r.query_status == "verified"
    && ((r.state == "active" && r.lock_status == "held") || not (r.state == "active"))

abbrev unless_failed : Response → Startup
unless_failed r = if is_verified r then verified else unknown

unfoldable pub startup_of : Response → Startup
startup_of r = elim r.event [
  | none ↦ unless_failed r
  | some event ↦ if elem event failed_events then failed event else unless_failed r
]

-- The loop of `verify_start`; `response` is that of the submission.
unfoldable pub verify_start : World → (response : Response) (deadline fuel : ℕ) → History → Outcome
verify_start w response deadline zero h = (err no_fuel, h)
verify_start w response deadline (suc fuel) h =
    let id = response.watch_id in
    let h' = sent (show id) ∷ h in
    let rest = verify_start w response deadline fuel (slept ∷ h') in
    elim (w.answer h (show id)) [
      | none ↦ (err no_answer, h')
      | some r ↦ elim (startup_of r) [
        | failed event ↦ (err (startup_failed event), h')
        | verified ↦ (ok response, h')
        | unknown ↦
            if leb deadline (w.time h')
            then (
              elim (w.answer h' (cancel id)) [
                | none ↦ err no_answer
                | some c ↦ err (not_verified id)
              ],
              sent (cancel id) ∷ h',
            )
            else rest
      ]
    ]
