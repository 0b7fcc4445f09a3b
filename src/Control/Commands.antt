-- ===== src/Control/Commands.antt =====
-- src/waitctl.py, `main`: the commands, what they send, and the exit code.
use wait_skill.Prelude.{
  ℕ, ◌&&◌, String, none, some, List, ◌∷◌, Result, ok, err, nat_eq, ◌+◌, if◌then◌else◌,
}
use wait_skill.Control.{
  World, ping, list, dashboard, submit, show, cancel, follow, state_command, History, sent,
  Response, ControlError, no_answer, bad_timeout, Outcome, request, start_daemon, stop_daemon,
  verify_start, validate_start_argv, forwarded_args, five_seconds,
}

pub data Command : Type 0 where
  start_watch : (argv : List String) → Command
  follow_watch : (watch_id : String) (timeout : ℕ) → Command
  daemon_start daemon_status daemon_stop show_dashboard list_watches : Command
  show_watch cancel_watch : (watch_id : String) → Command
  run_state : (name : String) (argv : List String) → Command

-- What a command does once the service has been found or started.
abbrev pub behind_daemon : World → (fuel : ℕ) → History → (next : History → Outcome) → Outcome
behind_daemon w fuel h next = elim (start_daemon w fuel h).0 [
  | err e ↦ (err e, (start_daemon w fuel h).1)
  | ok _ ↦ next (start_daemon w fuel h).1
]

-- The submission of a watch, and the verification of its start.
unfoldable pub submit_watch : World → (fuel : ℕ) (argv : List String) → History → Outcome
submit_watch w fuel argv h =
    let h' = sent (submit argv w.cwd) ∷ h in
    elim (w.answer h (submit argv w.cwd)) [
      | none ↦ (err no_answer, h')
      | some r ↦ if r.ok then verify_start w r (w.time h' + five_seconds) fuel h' else (ok r, h')
    ]

-- The body of `main`.
unfoldable pub run_command : World → (fuel : ℕ) → Command → History → Outcome
run_command w fuel (follow_watch id timeout) h =
    if nat_eq timeout 0 then (err bad_timeout, h) else request w (follow id timeout) h
run_command w fuel daemon_start h = start_daemon w fuel h
run_command w fuel daemon_status h = request w ping h
run_command w fuel daemon_stop h = stop_daemon w fuel h
run_command w fuel (start_watch values) h = elim (validate_start_argv values) [
  | err e ↦ (err e, h)
  | ok argv ↦ behind_daemon w fuel h (submit_watch w fuel argv)
]
run_command w fuel show_dashboard h = behind_daemon w fuel h (request w dashboard)
run_command w fuel list_watches h = behind_daemon w fuel h (request w list)
run_command w fuel (show_watch id) h = behind_daemon w fuel h (request w (show id))
run_command w fuel (cancel_watch id) h = behind_daemon w fuel h (request w (cancel id))
run_command w fuel (run_state name argv) h =
    behind_daemon w fuel h (request w (state_command name (forwarded_args argv) w.cwd))

-- The exit code of `main`.
unfoldable pub exit_code : Result ControlError Response → ℕ
exit_code (ok r) = if r.ok && nat_eq r.code 0 then 0 else 2
exit_code (err e) = 2
