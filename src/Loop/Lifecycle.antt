-- ===== src/Loop/Lifecycle.antt =====
-- src/loop.py, the transitions of `LoopState`, and the commands that make them. A transition takes
-- what it reads from the clock and `uuid` as arguments, in the order of the calls.
use wait_skill.Prelude.{
  ◌==◌, ℕ, ◌+◌, Bool, true, false, not, ◌&&◌, ◌||◌, String, [], ◌∷◌, ◌++◌, Option, none, some,
  Result, ok, ◌>>=◌, ◌>>◌, raise_if, raise_unless, ltb, leb, if◌then◌else◌,
}
use Prim.Native.Nat.{min}
use wait_skill.Goal.State.{Client}
use wait_skill.Loop.State.{
  given, LoopState, active, completed, cancelled, running, waiting, LoopError, not_running,
  not_expired, already_completed, goal_closed, not_waiting, wrong_event, goal_pair, goal_required,
  is_active, is_completed, is_running, is_waiting, is_text, GoalFiles, goal_is_open, validate,
}

unfoldable pub append_event : String → Option ℕ → Option String → (at : ℕ) → LoopState → LoopState
append_event operation iteration id at s = record s {
  events =
      s.events ++ record { at = at; operation = operation; iteration = iteration; id = id } ∷ [];
}

unfoldable pub cancel : (at : ℕ) → LoopState → Result LoopError LoopState
cancel at s = do
  raise_if (is_completed s.status) already_completed
  let s' = record s { status = cancelled; phase = none; next_run_at = none; watch_id = none }
  ok (append_event "cancel" none none at s')

-- `isinstance(limit, int) and iteration >= limit`
abbrev pub at_limit : Option ℕ → ℕ → Bool
at_limit none n = false
at_limit (some l) n = leb l n

-- The state behind a run, before it is decided how the loop goes on.
unfoldable pub record_run : (summary : String) (now : ℕ) → LoopState → LoopState
record_run summary now s = record s {
  runs = s.runs ++ record { iteration = s.iteration; summary = summary; completed_at = now } ∷ [];
}

unfoldable pub end_loop : (at : ℕ) → LoopState → LoopState
end_loop at s =
    append_event "finish" (some s.iteration) none at
      (record s { status = completed; phase = none; next_run_at = none; watch_id = none })

unfoldable pub schedule : (token : String) (now at : ℕ) → LoopState → LoopState
schedule token now at s = append_event "schedule" (some s.iteration) (some token) at (record s {
  phase = some waiting;
  next_run_at = some (min (now + s.interval_seconds) s.deadline_at);
  watch_id = some token;
})

unfoldable pub complete :
    GoalFiles → (summary token : String) (now at : ℕ) → LoopState → Result LoopError LoopState
complete files summary token now at s = do
  raise_unless (is_active s.status && is_running s.phase) not_running
  if not (goal_is_open files s)
      then cancel now s
      else (if leb s.deadline_at now || at_limit s.max_iterations s.iteration
          then ok (end_loop at (record_run summary now s))
          else ok (schedule token now at (record_run summary now s)))

-- The text that `due` returns.
pub data Due : Type 0 where
  is_done is_cancelled is_stale is_expired is_ready must_wait : Due

-- `now >= next_run_at`
abbrev pub is_past : Option ℕ → ℕ → Bool
is_past none now = false
is_past (some t) now = leb t now

unfoldable pub due : (watch_id : String) (now : ℕ) → LoopState → Due
due watch_id now s = elim s.status [
  | completed ↦ is_done
  | cancelled ↦ is_cancelled
  | active ↦
      if not (is_waiting s.phase) || not (is_text s.watch_id watch_id)
      then is_stale
      else if leb s.deadline_at now
      then is_expired
      else if is_past s.next_run_at now
      then is_ready
      else must_wait
]

unfoldable pub require_active_wait :
    GoalFiles → (event_id : String) → LoopState → Result LoopError (Unit {0})
require_active_wait files event_id s = do
  raise_unless (goal_is_open files s) goal_closed
  raise_unless (is_active s.status && is_waiting s.phase) not_waiting
  raise_unless (is_text s.watch_id event_id) wrong_event

unfoldable pub expire_now : (event_id : String) (at : ℕ) → LoopState → LoopState
expire_now event_id at s = append_event "expire" none (some event_id) at (record s {
  status = completed;
  phase = none;
  next_run_at = none;
  watch_id = none;
  last_event_id = some event_id;
})

unfoldable pub begin_now : (event_id : String) (at : ℕ) → LoopState → LoopState
begin_now event_id at s =
    append_event "begin" (some (s.iteration + 1)) (some event_id) at (record s {
      iteration = s.iteration + 1;
      phase = some running;
      next_run_at = none;
      watch_id = none;
      last_event_id = some event_id;
    })

-- The state, and whether the event had been consumed before.
unfoldable pub begin :
    GoalFiles → (event_id : String) (now at : ℕ) → LoopState → Result LoopError (LoopState × Bool)
begin files event_id now at s = if is_text s.last_event_id event_id then ok (s, true) else (do
  require_active_wait files event_id s
  if leb s.deadline_at now
      then ok (expire_now event_id at s, false)
      else ok (begin_now event_id at s, false))

unfoldable pub expire :
    GoalFiles → (event_id : String) (now at : ℕ) → LoopState → Result LoopError (LoopState × Bool)
expire files event_id now at s = if is_text s.last_event_id event_id then ok (s, true) else (do
  require_active_wait files event_id s
  raise_if (ltb now s.deadline_at) not_expired
  ok (expire_now event_id at s, false))

-- The arguments of `init`; `goal_state` is the resolved path of the goal's file.
pub record LoopSpec : Type 0 where
  pub task : String
  pub event_note : String
  pub client : Client
  pub session : String
  pub remote : Option String
  pub no_notify : Bool
  pub interval : ℕ
  pub duration : ℕ
  pub max_iterations : Option ℕ
  pub goal_state : Option String
  pub goal_node : Option String

unfoldable pub first_state : LoopSpec → (now : ℕ) → LoopState
first_state a now = record {
  task = a.task;
  event_note = some a.event_note;
  client = a.client;
  session = a.session;
  remote = a.remote;
  no_notify = a.no_notify;
  interval_seconds = a.interval;
  deadline_at = now + a.duration;
  max_iterations = a.max_iterations;
  status = active;
  phase = some running;
  iteration = 1;
  next_run_at = none;
  watch_id = none;
  last_event_id = none;
  runs = [];
  events = record { at = now; operation = "init"; iteration = none; id = none } ∷ [];
  goal = none;
}

abbrev is_named : Option String → Bool
is_named none = false
is_named (some s) = not (s == "")

abbrev differ : Bool → Bool → Bool
differ true b = not b
differ false b = b

-- A goal monitor names both the goal and the node, and both are open.
unfoldable pub link_goal :
    GoalFiles → (goal_state goal_node : Option String) → LoopState → Result LoopError LoopState
link_goal files (some state) (some node) s = do
  raise_unless (is_named (some node)) goal_pair
  let s' = record s { goal = some (record { state = state; node = node }) }
  raise_unless (goal_is_open files s') goal_required
  ok s'
link_goal files goal_state goal_node s = do
  raise_if (differ (given goal_state) (is_named goal_node)) goal_pair
  ok s

-- A loop is checked when it is made, and again when it is written.
unfoldable pub init : GoalFiles → LoopSpec → (now : ℕ) → Result LoopError LoopState
init files a now = do
  let s = first_state a now
  validate s
  s' ← link_goal files a.goal_state a.goal_node s
  validate s'
  ok s'

pub data Command : Type 0 where
  complete_command : (summary token : String) (now at : ℕ) → Command
  begin_command expire_command : (event_id : String) (now at : ℕ) → Command
  cancel_command : (at : ℕ) → Command

unfoldable pub run : GoalFiles → Command → LoopState → Result LoopError LoopState
run files (complete_command summary token now at) s = complete files summary token now at s
run files (begin_command event_id now at) s = do r ← begin files event_id now at s; ok r.0
run files (expire_command event_id now at) s = do r ← expire files event_id now at s; ok r.0
run files (cancel_command at) s = cancel at s
