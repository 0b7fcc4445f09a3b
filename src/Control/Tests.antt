-- ===== src/Control/Tests.antt =====
-- A client whose service has to be started, and whose watch is verified at the second look.
use wait_skill.Prelude.{
  ◌≡◌, refl, Bool, true, false, String, Option, none, some, List, [], ◌∷◌, ℕ, suc, ◌≤◌, ok,
  if◌then◌else◌, arith,
}
use wait_skill.Prelude.{elem}
use wait_skill.Watch.Arguments.{validate_job_argv, split_argv, partition, is_legacy}
use wait_skill.Control.{
  Request, ping, submit, show, Event, sent, spawned, slept, History, World, Response, start_daemon,
  await_daemon, verify_start, validate_start_argv, startup_of,
}
use wait_skill.Control.Commands.{run_command, start_watch, submit_watch}
use wait_skill.Control.Versions.{is_versioned, run_command-is_versioned}
use wait_skill.Control.Ends.{runs_out, enough, run_command-ends}
use wait_skill.Control.Started.{is_settled, start_watch-is_settled}

abbrev sleeps : History → ℕ
sleeps [] = 0
sleeps (slept ∷ h) = suc (sleeps h)
sleeps (e ∷ h) = sleeps h

abbrev has_spawned : History → Bool
has_spawned [] = false
has_spawned (spawned ∷ h) = true
has_spawned (e ∷ h) = has_spawned h

abbrev reply : (query_status : String) → Response
reply query = record {
  ok = true;
  code = 0;
  protocol_version = 7;
  service_fingerprint = "f";
  watch_id = "w1";
  state = "active";
  query_status = query;
  lock_status = "held";
  event = none;
}

abbrev answers : History → Request → Option Response
answers (slept ∷ h) (show id) = some (reply "verified")
answers h (show id) = some (reply "pending")
answers h _ = if has_spawned h then some (reply "pending") else none

abbrev world : World
world = record {
  answer = answers;
  time = sleeps;
  is_malformed = λ h q. false;
  is_unlocked = λ h. false;
  protocol_version = 7;
  service_fingerprint = "f";
  cwd = "/work";
}

sleeps_mono : (e : Event) (h : History) → sleeps h ≤ sleeps (e ∷ h)
sleeps_mono slept h = omega arith
sleeps_mono spawned h = omega arith
sleeps_mono (sent q) h = omega arith

abbrev watch_argv : List String
watch_argv = "--" ∷ "--label" ∷ "x" ∷ "--" ∷ "make" ∷ []

run_command-is_versioned_example :
    is_versioned world (run_command world enough (start_watch watch_argv) []).1 ≡ true
run_command-is_versioned_example = run_command-is_versioned world enough (start_watch watch_argv)

run_command-ends_example : runs_out (run_command world enough (start_watch watch_argv) []).0 ≡ false
run_command-ends_example =
    run_command-ends world sleeps_mono (λ h. omega arith) (start_watch watch_argv) []

start_watch-is_settled_example :
    is_settled world
      (run_command world enough (start_watch watch_argv) []).0
      (run_command world enough (start_watch watch_argv) []).1
    ≡ true
start_watch-is_settled_example = start_watch-is_settled world enough watch_argv []

start_watch_run : run_command world 9 (start_watch watch_argv) [] ≡ (
  ok (reply "pending"),
  sent (show "w1")
      ∷ slept
      ∷ sent (show "w1")
      ∷ sent (submit ("--label" ∷ "x" ∷ "--" ∷ "make" ∷ []) "/work")
      ∷ sent ping
      ∷ spawned
      ∷ sent ping
      ∷ [],
)
unfolding run_command start_daemon await_daemon submit_watch verify_start validate_start_argv
    startup_of validate_job_argv split_argv partition elem is_legacy
start_watch_run = refl
