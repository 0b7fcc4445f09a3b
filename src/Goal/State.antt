-- ===== src/Goal/State.antt =====
-- src/goal.py, the persisted schema: the typed dicts of one goal, and the errors of its operations.
-- A key that a dict may lack is an option, and so is a value that may be null.
use wait_skill.Prelude.{ℕ, String, Bool, true, false, Option, List, any}
use wait_skill.Prelude.Dict.{Dict}

pub data Client : Type 0 where
  claude codewiz codex copilot cursor : Client

pub data Kind : Type 0 where
  agent local external : Kind

pub data NodeStatus : Type 0 where
  pending dispatching running waiting completed failed cancelled : NodeStatus

pub data GoalStatus : Type 0 where
  opened paused finished stopped : GoalStatus

pub data WaitEvent : Type 0 where
  exited start_failed interrupted ready terminal timeout query_failed : WaitEvent

-- The phase of a wait and of an assignment.
pub data Phase : Type 0 where
  prepared active : Phase

pub record WaitMetadata : Type 0 where
  pub label : String
  pub client : Client
  pub thread : String
  pub log_file : String
  pub lock_file : String
  pub startup_file : String
  pub since : String
  pub watch_id : String
  pub phase : Phase
  pub event_note : Option String

pub record WatchEvent : Type 0 where
  pub event_id : String
  pub event : WaitEvent
  pub status : Option String
  pub at : String

pub record Assignment : Type 0 where
  pub phase : Phase
  pub dispatch_token : String
  pub prepared_at : String
  pub agent_id : Option String
  pub assigned_at : Option String

pub record Attempt : Type 0 where
  pub outcome : String
  pub result : Option String
  pub failed_at : String
  pub started_at : Option String
  pub assignment : Option Assignment
  pub last_event : Option WatchEvent

pub record Verification : Type 0 where
  pub summary : String
  pub checks : List String
  pub verified_at : String

-- A value in the details of an event.
pub data Detail : Type 0 where
  text : String → Detail
  texts : List String → Detail
  optional_text : Option String → Detail
  event_name : WaitEvent → Detail
  node_kind : Kind → Detail

pub record GoalEvent : Type 0 where
  pub seq : ℕ
  pub at : String
  pub operation : String
  pub source : Option String
  pub node_id : Option String
  pub details : Option (Dict Detail)

pub record GoalNode : Type 0 where
  pub title : String
  pub kind : Kind
  pub depends_on : List String
  pub status : NodeStatus
  pub acceptance : List String
  pub read_only : Bool
  pub write_paths : List String
  pub inputs : Dict String
  pub expected_artifacts : List String
  pub artifacts : List String
  pub result : Option String
  pub wait : Option WaitMetadata
  pub last_event : Option WatchEvent
  pub assignment : Option Assignment
  pub attempts : List Attempt
  pub started_at : Option String
  pub completed_at : Option String
  pub failed_at : Option String

pub record GoalState : Type 0 where
  pub objective : String
  pub status : GoalStatus
  pub client : Client
  pub thread : Option String
  pub verification : Option Verification
  pub created_at : String
  pub updated_at : String
  pub nodes : Dict GoalNode
  pub events : List GoalEvent
  pub result : Option String
  pub completed_at : Option String

-- What a message is about: a field of the state, of a node, of an event or of an attempt.
pub data Label : Type 0 where
  plain : String → Label
  of_node : String → String → Label
  of_event : ℕ → String → Label
  of_attempt : String → ℕ → String → Label

-- One constructor for each message of `GoalError`. `key_error` and `type_error` are Python's own
-- exceptions, which the code would raise on a state that no validation has passed.
pub data Error : Type 0 where
  not_text not_texts not_text_map empty_list : Label → Error
  invalid_event_note wait_not_external wait_wrong_status wait_missing : String → Error
  unverified_nodes verification_missing result_not_finished : Error
  invalid_node_id read_only_writes missing_dependencies foreign_inputs : String → Error
  started_early dispatching_not_agent missing_artifacts completed_at_early : String → Error
  artifacts_early result_early failed_at_early assignment_not_agent : String → Error
  assignment_has_agent assignment_wrong_phase : String → Error
  no_init bad_details : Error
  bad_sequence : ℕ → Error
  bad_outcome : String → ℕ → Error
  cycle unknown_node node_exists not_ready conflicts unresolved_dispatch : String → Error
  goal_not_open : GoalStatus → Error
  not_editable unknown_dependencies : Error
  wrong_kind : String → Kind → Error
  wrong_status : String → NodeStatus → Error
  not_prepared token_mismatch agent_only_options already_waiting already_active : String → Error
  watch_mismatch no_wait no_receipt receipt_mismatch receipt_expired lock_lost : String → Error
  event_reused dispatch_first duplicate_inputs : String → Error
  no_nodes incomplete_nodes not_verified : Error
  state_exists state_missing : String → Error
  key_error type_error : String → Error
  out_of_fuel : Error

abbrev pub same_status : NodeStatus → NodeStatus → Bool
same_status pending pending = true
same_status dispatching dispatching = true
same_status running running = true
same_status waiting waiting = true
same_status completed completed = true
same_status failed failed = true
same_status cancelled cancelled = true
same_status _ _ = false

-- `status in {...}`
abbrev pub status_in : List NodeStatus → NodeStatus → Bool
status_in statuses s = any (same_status s) statuses

abbrev pub is_agent : Kind → Bool
is_agent agent = true
is_agent _ = false

abbrev pub is_external : Kind → Bool
is_external external = true
is_external _ = false

abbrev pub is_prepared : Phase → Bool
is_prepared prepared = true
is_prepared active = false

abbrev pub is_open : GoalStatus → Bool
is_open opened = true
is_open _ = false

abbrev pub is_paused : GoalStatus → Bool
is_paused paused = true
is_paused _ = false

abbrev pub is_finished : GoalStatus → Bool
is_finished finished = true
is_finished _ = false

abbrev pub same_event : WaitEvent → WaitEvent → Bool
same_event exited exited = true
same_event start_failed start_failed = true
same_event interrupted interrupted = true
same_event ready ready = true
same_event terminal terminal = true
same_event timeout timeout = true
same_event query_failed query_failed = true
same_event _ _ = false

abbrev pub client_name : Client → String
client_name claude = "claude"
client_name codewiz = "codewiz"
client_name codex = "codex"
client_name copilot = "copilot"
client_name cursor = "cursor"
