-- ===== src/Loop/State.antt =====
-- src/loop.py, the persisted state of a loop and its validation. Times are natural numbers of a
-- unit small enough for the clock. The checks of JSON types are held by the types of the model.
use wait_skill.Prelude.{
  if◌then◌else◌, ℕ, Bool, true, false, not, ◌&&◌, ◌||◌, String, List, [], ◌∷◌, Option, none, some,
  Result, ◌>>◌, raise_if, raise_unless, ltb, ◌==◌,
}
use wait_skill.Prelude.Text.{blank}
use wait_skill.Prelude.Dict.{lookup}
use wait_skill.Goal.State.{Client, GoalState, client_name, is_open, status_in}
use wait_skill.Goal.State
use wait_skill.Goal.Checks.{is_single_line}

pub data Status : Type 0 where
  active completed cancelled : Status

pub data Phase : Type 0 where
  running waiting : Phase

-- The goal node that a monitor belongs to.
pub record Owner : Type 0 where
  pub state : String
  pub node : String

pub record Run : Type 0 where
  pub iteration : ℕ
  pub summary : String
  pub completed_at : ℕ

pub record LoopEvent : Type 0 where
  pub at : ℕ
  pub operation : String
  pub iteration : Option ℕ
  pub id : Option String

pub record LoopState : Type 0 where
  pub task : String
  pub event_note : Option String
  pub client : Client
  pub session : String
  pub remote : Option String
  pub no_notify : Bool
  pub interval_seconds : ℕ
  pub deadline_at : ℕ
  pub max_iterations : Option ℕ
  pub status : Status
  pub phase : Option Phase
  pub iteration : ℕ
  pub next_run_at : Option ℕ
  pub watch_id : Option String
  pub last_event_id : Option String
  pub runs : List Run
  pub events : List LoopEvent
  pub goal : Option Owner

-- One constructor for each message of `LoopError`.
pub data LoopError : Type 0 where
  bad_owner bad_task bad_note bad_session missing_phase extra_phase bad_interval : LoopError
  bad_deadline bad_iteration bad_limit bad_wait stray_wait : LoopError
  not_running not_expired already_completed goal_closed not_waiting wrong_event : LoopError
  state_exists goal_pair goal_required : LoopError

abbrev pub is_active : Status → Bool
is_active active = true
is_active _ = false

abbrev pub is_completed : Status → Bool
is_completed completed = true
is_completed _ = false

abbrev pub is_running : Option Phase → Bool
is_running (some running) = true
is_running _ = false

abbrev pub is_waiting : Option Phase → Bool
is_waiting (some waiting) = true
is_waiting _ = false

abbrev pub given {ℓ} : {A : Type ℓ} → Option A → Bool
given none = false
given (some _) = true

-- `value is not None and value == text`
abbrev pub is_text : Option String → String → Bool
is_text none s = false
is_text (some t) s = t == s

abbrev nonempty : String → Bool
nonempty s = not (s == "")

abbrev owner_ok : Option Owner → Bool
owner_ok none = true
owner_ok (some o) = nonempty o.state && nonempty o.node

abbrev note_ok : Option String → Bool
note_ok none = true
note_ok (some note) = is_single_line note

abbrev limit_ok : Option ℕ → Bool
limit_ok none = true
limit_ok (some n) = ltb 0 n

abbrev watch_ok : Option String → Bool
watch_ok none = false
watch_ok (some w) = nonempty w

-- What the task, its owner and its session must be.
unfoldable pub validate_identity : LoopState → Result LoopError (Unit {0})
validate_identity s = do
  raise_unless (owner_ok s.goal) bad_owner
  raise_if (blank s.task) bad_task
  raise_unless (note_ok s.event_note) bad_note
  raise_if (blank s.session) bad_session

-- A loop has a phase while it is active.
unfoldable pub validate_phase : LoopState → Result LoopError (Unit {0})
validate_phase s = do
  raise_if (is_active s.status && not (given s.phase)) missing_phase
  raise_if (not (is_active s.status) && given s.phase) extra_phase

unfoldable pub validate_numbers : LoopState → Result LoopError (Unit {0})
validate_numbers s = do
  raise_unless (ltb 0 s.interval_seconds) bad_interval
  raise_unless (ltb 0 s.deadline_at) bad_deadline
  raise_unless (ltb 0 s.iteration) bad_iteration
  raise_unless (limit_ok s.max_iterations) bad_limit

-- A waiting loop, and no other, has a watch and a next run.
unfoldable pub validate_wait : LoopState → Result LoopError (Unit {0})
validate_wait s =
    if is_active s.status && is_waiting s.phase
    then raise_unless (watch_ok s.watch_id && given s.next_run_at) bad_wait
    else raise_if (given s.watch_id || given s.next_run_at) stray_wait

unfoldable pub validate : LoopState → Result LoopError (Unit {0})
validate s = do validate_identity s; validate_phase s; validate_numbers s; validate_wait s

-- The file of a goal, as far as it can be read and holds a state.
abbrev pub GoalFiles : Type 0
GoalFiles = String → Option GoalState

-- A linked monitor belongs to one unfinished node of an open goal of the same session.
abbrev owns_open : GoalState → LoopState → String → Bool
owns_open goal s id = elim (lookup id goal.nodes) [
  | none ↦ false
  | some n ↦
      is_open goal.status
      && (status_in (State.pending ∷ State.running ∷ State.waiting ∷ []) n.status
          && (client_name goal.client == client_name s.client && is_text goal.thread s.session))
]

unfoldable pub goal_is_open : GoalFiles → LoopState → Bool
goal_is_open files s = elim s.goal [
  | none ↦ true
  | some o ↦ elim (files o.state) [ none ↦ false | some goal ↦ owns_open goal s o.node ]
]
