-- ===== src/Watch/Owner.antt =====
-- src/runtime.py, whether a watch still owns the wait that a goal or a loop has on file.
use wait_skill.Prelude.{
  Bool, true, false, ◌&&◌, not, String, Option, none, some, ◌==◌, if◌then◌else◌,
}
use wait_skill.Prelude.Dict.{lookup}
use wait_skill.Goal.State.{
  Client, GoalNode, GoalState, WaitMetadata, client_name, same_status, is_prepared,
}
use wait_skill.Goal.State
use wait_skill.Loop.State.{LoopState, GoalFiles, goal_is_open, is_active, is_waiting, is_text}

-- The options of a watcher that the checks read.
pub record WatchArgs : Type 0 where
  pub client : Client
  pub thread : Option String
  pub no_notify : Bool
  pub event_id : Option String
  pub goal_state : Option String
  pub goal_node : Option String
  pub loop_state : Option String

pub data WatchPhase : Type 0 where
  is_prepared_watch is_active_watch is_invalid : WatchPhase

-- `wait` is the wait of the watch.
abbrev pub is_own : WatchArgs → WaitMetadata → Bool
is_own a w =
    is_text a.event_id w.watch_id
    && (client_name w.client == client_name a.client && is_text a.thread w.thread)

abbrev pub phase_of : GoalNode → WaitMetadata → WatchPhase
phase_of n w =
    if same_status n.status State.running && is_prepared w.phase
    then is_prepared_watch
    else if same_status n.status State.waiting && not (is_prepared w.phase)
    then is_active_watch
    else is_invalid

abbrev pub node_phase : WatchArgs → GoalNode → WatchPhase
node_phase a n = elim n.wait [
  | none ↦ is_invalid
  | some w ↦ if is_own a w then phase_of n w else is_invalid
]

-- The phase of the wait in a goal that has been read.
abbrev pub read_phase : WatchArgs → Option GoalState → WatchPhase
read_phase a none = is_invalid
read_phase a (some goal) = elim a.goal_node [
  | none ↦ is_invalid
  | some id ↦ elim (lookup id goal.nodes) [ none ↦ is_invalid | some n ↦ node_phase a n ]
]

-- It is called where `args.goal_state` is given.
unfoldable pub goal_wait_phase : GoalFiles → WatchArgs → WatchPhase
goal_wait_phase files a = elim a.goal_state [
  | none ↦ is_invalid
  | some path ↦ read_phase a (files path)
]

abbrev pub is_active_phase : WatchPhase → Bool
is_active_phase is_active_watch = true
is_active_phase _ = false

unfoldable pub goal_wait_is_current : GoalFiles → WatchArgs → Bool
goal_wait_is_current files a = is_active_phase (goal_wait_phase files a)

-- The file of a loop, as far as it can be read and holds a state.
abbrev pub LoopFiles : Type 0
LoopFiles = String → Option LoopState

abbrev pub same_text : Option String → Option String → Bool
same_text none none = true
same_text (some s) t = is_text t s
same_text none _ = false

unfoldable pub loop_wait_is_current : GoalFiles → LoopFiles → (path : String) → WatchArgs → Bool
loop_wait_is_current files loops path a = elim (loops path) [
  | none ↦ false
  | some s ↦
      is_active s.status
      && (is_waiting s.phase
          && (same_text s.watch_id a.event_id
              && (client_name s.client == client_name a.client
                  && (is_text a.thread s.session && goal_is_open files s))))
]

unfoldable pub watch_is_current : GoalFiles → LoopFiles → WatchArgs → Bool
watch_is_current files loops a = elim a.goal_state [
  | some path ↦ goal_wait_is_current files a
  | none ↦ elim a.loop_state [ some path ↦ loop_wait_is_current files loops path a | none ↦ true ]
]

-- The options that a watcher of a prepared wait gets.
abbrev pub goal_watch : GoalState → (path id token : String) → WatchArgs
goal_watch g path id token = record {
  client = g.client;
  thread = g.thread;
  no_notify = false;
  event_id = some token;
  goal_state = some path;
  goal_node = some id;
  loop_state = none;
}
