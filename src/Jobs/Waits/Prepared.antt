-- ===== src/Jobs/Waits/Prepared.antt =====
-- src/goal.py, `command_wait`, against src/waitd.py, `submit`, and src/runtime.py,
-- `goal_wait_phase`: the watcher that is submitted for a prepared wait.
use wait_skill.Prelude.{String, some}
use wait_skill.Goal.State.{GoalState, WaitMetadata}
use wait_skill.Goal.State

-- What `prepare_external_wait` has stored.
abbrev pub prepared_for :
    GoalState
    → (absolute : String → String)
      (label note log_file lock_file startup_file thread token now : String)
    → WaitMetadata
prepared_for g absolute label note log_file lock_file startup_file thread token now = record {
  label = label;
  client = g.client;
  thread = thread;
  log_file = absolute log_file;
  lock_file = absolute lock_file;
  startup_file = absolute startup_file;
  since = now;
  watch_id = token;
  phase = State.prepared;
  event_note = some note;
}
