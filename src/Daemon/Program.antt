-- ===== src/Daemon/Program.antt =====
-- src/waitd.py, the parts of `_watch`: the activation of a goal's wait, and the waiting program.
use wait_skill.Prelude.{
  ℕ, Bool, true, false, not, ◌&&◌, Option, none, some, List, [], ◌∷◌, if◌then◌else◌, leb, any,
}
use wait_skill.Goal.State.{Client}
use wait_skill.Watch.Owner.{WatchPhase, is_prepared_watch, is_active_watch, is_invalid}
use wait_skill.Daemon.State
use wait_skill.Daemon.State.{
  Exit, Notification, WatchResult, Entry, Action, save_record, save_log, execute, persist, Event,
  Phase, activating, queued, running, querying, notifying, awaiting_ack, finalizing, native_pending,
  attempting, unconfirmed, ended, held, released, exit_notify_failed, exit_already_watching,
  exit_activation_cancelled, exit_timeout,
}
use wait_skill.Daemon.Delivery.{Surroundings, Done}

-- One round of `_activate_goal_wait`: the cancellation, the phase of the wait on file, the time
-- that remains, and whether a cancellation ends the pause.
pub record Round : Type 0 where
  pub cancelled : Bool
  pub phase : WatchPhase
  pub remaining : ℕ
  pub interrupted : Bool

pub data Activation : Type 0 where
  active cancelled timeout unfinished : Activation

unfoldable pub activate_goal_wait : List Round → Activation
activate_goal_wait [] = unfinished
activate_goal_wait (round ∷ rounds) =
    let rest = activate_goal_wait rounds in
    if round.cancelled then cancelled else elim round.phase [
      | is_active_watch ↦ active
      | is_invalid ↦ cancelled
      | is_prepared_watch ↦
          if leb round.remaining 0 then timeout else if round.interrupted then cancelled else rest
    ]

-- How the waiting program ends, when nothing stops it.
pub data ProgramEnd : Type 0 where
  start_fails times_out : ProgramEnd
  exits : Exit → ProgramEnd

-- The options of a watch that decide its steps.
pub record Options : Type 0 where
  pub client : Client
  pub notifies : Bool
  pub has_lock_file : Bool
  pub has_goal : Bool
  pub limit : Option ℕ
  pub timeout : Option ℕ
  pub wake_ack_timeout : ℕ

-- What one run of `_watch` meets. `stops_first` and `stops_later` are the checks of
-- `_execute_program` before its first pause and in its later rounds; `stops_after` is the check
-- behind the program.
pub record World : Type 0 where
  pub gets_lock : Bool
  pub rounds : List Round
  pub started_at : ℕ
  pub stops_first : Bool
  pub stops_later : List Bool
  pub program_end : ProgramEnd
  pub stops_after : Bool
  pub surroundings : Surroundings
  pub delivered_now : ℕ
  pub goal_still_waits : Bool
  pub cancelled_at_ack : Bool

abbrev pub new_result : Event → Option Exit → WatchResult
new_result event code = record {
  event = event;
  exit_code = code;
  notification = none;
  notification_attempts = 0;
  notification_exit_code = none;
  available_at = none;
  delivered_at = none;
}

abbrev starts : ProgramEnd → Bool
starts start_fails = false
starts _ = true

abbrev result_of : ProgramEnd → WatchResult
result_of start_fails = new_result State.start_failed none
result_of times_out = new_result State.timeout none
result_of (exits code) = new_result State.exited (some code)

-- A program that has not finished in time is not started; one that is stopped at once is not
-- started either.
unfoldable pub execute_program : World → Entry → Done WatchResult
execute_program w e =
    let e1 = if starts w.program_end then record e { phase = querying } else e in
    let saved = if starts w.program_end then save_record e1 ∷ [] else [] in
    if leb e.deadline_at w.started_at
    then record { actions = []; entry = e; value = new_result State.timeout none }
    else if w.stops_first
    then record { actions = []; entry = e; value = new_result State.cancelled none }
    else record {
      actions = execute ∷ saved;
      entry = e1;
      value =
          if any (λ b. b) w.stops_later
          then new_result State.cancelled none
          else result_of w.program_end;
    }

abbrev code_of : Event → ℕ
code_of State.exited = 0
code_of State.timeout = exit_timeout
code_of _ = 1

abbrev pub recovered : Option WatchResult → WatchResult
recovered none = new_result State.interrupted none
recovered (some r) = r

-- The phases before the program is started.
abbrev pub is_early : Phase → Bool
is_early activating = true
is_early queued = true
is_early _ = false

-- The result of the program is saved, with what is to be done about it.
unfoldable pub settle_result : Options → World → WatchResult → Entry → Done (WatchResult × ℕ)
settle_result o w r e =
    let stopped = w.stops_after in
    let r1 = if stopped then record r { event = State.cancelled } else r in
    let code = if stopped then exit_activation_cancelled else code_of r.event in
    let notifies = o.notifies && not stopped in
    let r2 =
      if notifies
      then record r1 { notification = some State.pending; notification_attempts = 0 }
      else r1 in
    let e1 = record e { phase = if notifies then notifying else finalizing; code = some code } in
    record { actions = persist r2 e1; entry = record e1 { result = some r2 }; value = (r2, code) }
