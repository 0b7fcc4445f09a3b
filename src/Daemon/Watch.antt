-- ===== src/Daemon/Watch.antt =====
-- src/waitd.py, `_watch` and `_run_watch`: one run of a watch, from the phase on disk to its end.
use wait_skill.Prelude.{
  ℕ, ◌+◌, Bool, true, false, ◌&&◌, Option, none, some, List, [], ◌∷◌, ◌++◌, if◌then◌else◌,
}
use wait_skill.Watch.Delivery.{notification_limits}
use wait_skill.Daemon.State
use wait_skill.Daemon.State.{
  Notification, WatchResult, Entry, Disk, Action, save_record, save_log, persist, Phase, activating,
  queued, running, querying, notifying, awaiting_ack, finalizing, native_pending, attempting,
  started, completed, unconfirmed, ended, held, released, exit_notify_failed, exit_already_watching,
  exit_activation_cancelled,
}
use wait_skill.Daemon.Delivery.{Done, behind, deliver, mark}
use wait_skill.Daemon.Program.{
  Activation, active, cancelled, timeout, unfinished, activate_goal_wait, Options, World,
  new_result, execute_program, recovered, settle_result,
}

-- How a run of a watch ends: with a result and a code, by an exception, or not within its rounds.
pub data Ending : Type 0 where
  returned : WatchResult → ℕ → Ending
  raised goes_on : Ending

abbrev pub is_delivered : Option Notification → Bool
is_delivered (some started) = true
is_delivered (some completed) = true
is_delivered (some native_pending) = true
is_delivered _ = false

abbrev pub is_attempting : Option Notification → Bool
is_attempting (some attempting) = true
is_attempting _ = false

abbrev pub is_native : Option Notification → Bool
is_native (some native_pending) = true
is_native _ = false

abbrev pub or_else : Option ℕ → ℕ → ℕ
or_else none n = n
or_else (some m) n = m

-- The time to which a goal may acknowledge the wake; none where the result lacks a time.
abbrev ack_deadline : Options → World → WatchResult → Option ℕ
ack_deadline o w r =
    if is_native r.notification
    then elim r.available_at [
      | none ↦ none
      | some t ↦ some (t + (notification_limits o.client o.limit o.timeout).1)
    ]
    else some (or_else r.delivered_at w.delivered_now + o.wake_ack_timeout)

abbrev pub finish : WatchResult → ℕ → Entry → Done Ending
finish r code e = record { actions = save_log r ∷ []; entry = e; value = returned r code }

-- Behind `_wake_goal`, which waits and writes nothing.
unfoldable pub acknowledge : World → WatchResult → ℕ → Entry → Done Ending
acknowledge w r code e =
    let lost = is_native r.notification && w.goal_still_waits in
    let r1 =
      if lost
      then mark (if w.cancelled_at_ack then State.cancelled else ended unconfirmed) r
      else r in
    let code1 =
      if lost
      then (if w.cancelled_at_ack then exit_activation_cancelled else exit_notify_failed)
      else code in
    let e1 = record e { phase = finalizing; code = some code1 } in
    behind (persist r1 e1) (finish r1 code1 (record e1 { result = some r1 }))

abbrev pub is_reached : Option ℕ → Bool
is_reached none = true
is_reached (some code) = false

abbrev pub waiting_record : Options → World → WatchResult → ℕ → Entry → Entry
waiting_record o w r code e = record e {
  phase = awaiting_ack;
  code = some code;
  result = some r;
  wake_ack_deadline_at = ack_deadline o w r;
}

abbrev pub over_record : WatchResult → ℕ → Entry → Entry
over_record r code e = record e { phase = finalizing; code = some code; result = some r }

-- Behind `_deliver`: the wait for the goal, or the end.
unfoldable pub conclude : Options → World → Option ℕ → WatchResult → ℕ → Entry → Done Ending
conclude o w delivery r code e =
    let code1 = or_else delivery code in
    if is_reached delivery && o.has_goal
    then behind (save_record (waiting_record o w r code1 e) ∷ [])
        (acknowledge w r code1 (waiting_record o w r code1 e))
    else behind (save_record (over_record r code1 e) ∷ []) (finish r code1 (over_record r code1 e))

-- An attempt that was under way when the service stopped is not repeated.
unfoldable pub notify_client : Options → World → WatchResult → ℕ → Entry → Done Ending
notify_client o w r code e =
    let r1 = mark (ended unconfirmed) r in
    let e1 = record e { phase = finalizing; code = some exit_notify_failed } in
    let d = deliver w.surroundings o.client o.limit o.timeout r e in
    if is_attempting r.notification
    then behind (persist r1 e1) (finish r1 exit_notify_failed (record e1 { result = some r1 }))
    else if is_delivered r.notification
    then conclude o w none r code e
    else behind d.actions (conclude o w d.value.0 d.value.1 code d.entry)

-- The steps from the saved result on, in the phase of the record.
unfoldable pub proceed : Phase → Options → World → WatchResult → ℕ → Entry → Done Ending
proceed notifying o w r code e = notify_client o w r code e
proceed awaiting_ack o w r code e = acknowledge w r code e
proceed _ o w r code e = finish r code e

-- The program has given a result, now or before the service stopped.
unfoldable pub with_result : Options → World → WatchResult → Entry → Done Ending
with_result o w r e =
    let s = settle_result o w r e in
    behind s.actions (proceed s.entry.phase o w s.value.0 s.value.1 s.entry)

unfoldable pub start_program : Options → World → Entry → Done Ending
start_program o w e =
    let e1 = record e { phase = running } in
    let p = execute_program w e1 in
    behind (save_record e1 ∷ p.actions) (with_result o w p.value p.entry)

unfoldable pub give_up : State.Event → Entry → Done Ending
give_up event e =
    let r = new_result event none in
    let e1 = record e { phase = finalizing; code = some exit_activation_cancelled } in
    record {
      actions = persist r e1;
      entry = record e1 { result = some r };
      value = returned r exit_activation_cancelled;
    }

unfoldable pub activate_by : Options → World → Entry → Activation → Done Ending
activate_by o w e active =
    let e1 = record e { phase = queued } in behind (save_record e1 ∷ []) (start_program o w e1)
activate_by o w e cancelled = give_up State.activation_cancelled e
activate_by o w e timeout = give_up State.activation_timeout e
activate_by o w e unfinished = record { actions = []; entry = e; value = goes_on }

unfoldable pub activate : Options → World → Entry → Done Ending
activate o w e = activate_by o w e (activate_goal_wait w.rounds)

-- A later phase goes on from the result and the code on file.
unfoldable pub take_up : Option WatchResult → Option ℕ → Options → World → Entry → Done Ending
take_up (some r) (some code) o w e = proceed e.phase o w r code e
take_up _ _ o w e = record { actions = []; entry = e; value = raised }

unfoldable pub steps : Phase → Options → World → Option WatchResult → Entry → Done Ending
steps activating o w log e = activate o w e
steps queued o w log e = start_program o w e
steps running o w log e = with_result o w (recovered log) e
steps querying o w log e = with_result o w (recovered log) e
steps _ o w log e = take_up e.result e.code o w e

-- The lock is held around the steps.
unfoldable pub with_lock : (has_lock_file gets_lock : Bool) → Options → World → Disk → Done Ending
with_lock false gets_lock o w d = steps d.entry.phase o w d.log d.entry
with_lock true false o w d = record {
  actions = [];
  entry = d.entry;
  value = returned (new_result State.already_watching none) exit_already_watching;
}
with_lock true true o w d =
    let e1 = record d.entry { lock_status = held } in
    let inside = steps e1.phase o w d.log e1 in
    let out = record inside.entry { lock_status = released } in
    record {
      actions = save_record e1 ∷ (inside.actions ++ save_record out ∷ []);
      entry = out;
      value = inside.value;
    }

unfoldable pub watch : Options → World → Disk → Done Ending
watch o w d = with_lock o.has_lock_file w.gets_lock o w d

-- The last save of `_run_watch`, unless the watch has been cancelled meanwhile.
unfoldable pub last_save : (was_cancelled : Bool) → Ending → Entry → List Action
last_save false (returned r code) e =
    save_record (record e { active = false; code = some code; result = some r }) ∷ []
last_save _ _ e = []

unfoldable pub run_watch : Options → World → (was_cancelled : Bool) → Disk → List Action
run_watch o w was_cancelled d =
    let run = watch o w d in run.actions ++ last_save was_cancelled run.value run.entry
