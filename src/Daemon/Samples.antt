-- ===== src/Daemon/Samples.antt =====
-- A small watch for codex, and what its runs meet.
use wait_skill.Prelude.{ℕ, true, false, none, some, List, [], nat_eq, drop, take, if◌then◌else◌}
use wait_skill.Goal.State.{codex}
use wait_skill.Daemon.State.{
  Action, Entry, Disk, WatchResult, Phase, queued, exit, unlocked, settle,
}
use wait_skill.Daemon.State
use wait_skill.Daemon.Delivery.{Surroundings, CommandEnd, exited, killed}
use wait_skill.Daemon.Program.{Options, World, exits, new_result}
use wait_skill.Daemon.Watch.{run_watch}

abbrev pub options : Options
options = record {
  client = codex;
  notifies = true;
  has_lock_file = true;
  has_goal = false;
  limit = some 3;
  timeout = none;
  wake_ack_timeout = 5;
}

-- The first attempt meets a busy client, and the second reaches it.
abbrev ends : ℕ → CommandEnd
ends k = if nat_eq k 1 then exited (exit 75) "" else exited (exit 0) ""

abbrev pub busy_first : Surroundings
busy_first = record {
  stops = λ k. false;
  has_endpoint = λ k. true;
  command_end = ends;
  clock = λ k. 100;
  says_unavailable = λ text. false;
}

-- The first attempt is killed at its timeout.
abbrev pub killed_first : Surroundings
killed_first = record busy_first { command_end = λ k. killed }

abbrev pub world : Surroundings → World
world s = record {
  gets_lock = true;
  rounds = [];
  started_at = 10;
  stops_first = false;
  stops_later = [];
  program_end = exits (exit 0);
  stops_after = false;
  surroundings = s;
  delivered_now = 20;
  goal_still_waits = false;
  cancelled_at_ack = false;
}

abbrev pub entry : Entry
entry = record {
  active = true;
  phase = queued;
  result = none;
  code = none;
  deadline_at = 50;
  wake_ack_deadline_at = none;
  lock_status = unlocked;
}

abbrev pub result : WatchResult
result = new_result State.exited (some (exit 0))

abbrev pub submitted_disk : Disk
submitted_disk = record { entry = entry; log = none }

-- The service is killed behind the save of the first attempt's end.
abbrev pub first_part : List Action
first_part = take 11 (run_watch options (world busy_first) false submitted_disk)

abbrev pub first_rest : List Action
first_rest = drop 11 (run_watch options (world busy_first) false submitted_disk)

abbrev pub killed_disk : Disk
killed_disk = settle first_part submitted_disk

abbrev pub second_part : List Action
second_part = take 5 (run_watch options (world busy_first) false killed_disk)

abbrev pub second_rest : List Action
second_rest = drop 5 (run_watch options (world busy_first) false killed_disk)
