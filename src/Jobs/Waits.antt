-- ===== src/Jobs/Waits.antt =====
-- src/goal.py, `prepared_wait_argv` and the submission of `submit_prepared_wait`: the watcher that
-- a goal asks for.
use wait_skill.Prelude.{
  Bool, true, false, not, ◌&&◌, String, Option, none, some, List, [], ◌∷◌, ◌++◌, Result, ok, ◌≡◌,
  refl, ap, arith, inl, inr, Bool-cases, map, leb, length, ◌||◌, elem,
}
use wait_skill.Goal.State.{
  Client, WaitMetadata, client_name, claude, codewiz, codex, copilot, cursor,
}
use wait_skill.Prelude.Text.{blank, has_line_break, nonempty}
use wait_skill.Watch.Delivery.{validate_codex_resume_args}
use wait_skill.Jobs.Submit.{insert_options}
use wait_skill.Jobs.Pairs.{insert_options-flat}
use wait_skill.Jobs.Options.{Given, JobError, last_of, values_of, value_of}
use wait_skill.Jobs.Parse.{
  Outside, Job, all_acceptable, is_acceptable, job_of, check_job, parse_job_args, client_of,
  has_same_path, is_bad_event_id,
}
use wait_skill.Jobs.Pairs.{
  flat, are_pairs, is_pair, given_by, parse_args-flat, parse_job_args-flat, absolute_wait_argv-flat,
  resolved,
}
pub mod Parsed
pub mod Registered
pub mod Prepared
pub mod Submitted

-- `wait["event_note"]` fails when there is no note.
unfoldable pub prepared_wait_argv : WaitMetadata → (state node_id : String) → Option (List String)
prepared_wait_argv w state node_id = elim w.event_note [
  | none ↦ none
  | some note ↦ some (
      "--label"
      ∷ w.label
      ∷ "--event-note"
      ∷ note
      ∷ "--client"
      ∷ client_name w.client
      ∷ "--session"
      ∷ w.thread
      ∷ "--event-id"
      ∷ w.watch_id
      ∷ "--goal-state"
      ∷ state
      ∷ "--goal-node"
      ∷ node_id
      ∷ "--log-file"
      ∷ w.log_file
      ∷ "--lock-file"
      ∷ w.lock_file
      ∷ "--startup-file"
      ∷ w.startup_file
      ∷ [])
]

abbrev remote_argv : Option String → List String
remote_argv none = []
remote_argv (some remote) = "--remote" ∷ remote ∷ []

-- `submit_argv`
unfoldable pub submit_argv :
    WaitMetadata
    → (state node_id timeout : String) (remote : Option String) (program : List String)
    → Option (List String)
submit_argv w state node_id timeout remote program = elim (prepared_wait_argv w state node_id) [
  | none ↦ none
  | some argv ↦
      some ((argv ++ "--timeout" ∷ timeout ∷ []) ++ (remote_argv remote ++ "--" ∷ program))
]

abbrev pub wait_pairs :
    WaitMetadata → (note state node_id timeout : String) → List String → List (String × String)
wait_pairs w note state node_id timeout remotes =
    ("--label", w.label)
    ∷ ("--event-note", note)
    ∷ ("--client", client_name w.client)
    ∷ ("--session", w.thread)
    ∷ ("--event-id", w.watch_id)
    ∷ ("--goal-state", state)
    ∷ ("--goal-node", node_id)
    ∷ ("--log-file", w.log_file)
    ∷ ("--lock-file", w.lock_file)
    ∷ ("--startup-file", w.startup_file)
    ∷ ("--timeout", timeout)
    ∷ map (λ r. ("--remote", r)) remotes

abbrev pub wait_job :
    WaitMetadata → (note state node_id : String) → (remote : Option String) → List String → Job
wait_job w note state node_id remote program = record {
  watch = record {
    client = w.client;
    thread = some w.thread;
    no_notify = false;
    event_id = some w.watch_id;
    goal_state = some state;
    goal_node = some node_id;
    loop_state = none;
  };
  label = w.label;
  event_note = some note;
  remote = remote;
  resume_args = [];
  lock_file = some w.lock_file;
  log_file = some w.log_file;
  startup_file = some w.startup_file;
  command = program;
}
