-- ===== src/Daemon/State.antt =====
-- src/waitd.py, what a watch keeps on disk: its record in the registry and its result log. The
-- texts of a result, and the times and labels of a record, are left out where no step reads them.
use wait_skill.Prelude.{ℕ, Bool, false, Option, some, List, [], ◌∷◌, nat_eq}

-- The return code of a process: a number, or the signal that ended it.
pub data Exit : Type 0 where
  exit signal : ℕ → Exit

-- Why a delivery did not succeed.
pub data Failure : Type 0 where
  unconfirmed notification_unavailable busy failed : Failure

-- The values of `result["notification"]`.
pub data Notification : Type 0 where
  pending attempting native_pending started completed cancelled : Notification
  ended retrying : Failure → Notification

pub data Event : Type 0 where
  exited timeout start_failed cancelled interrupted already_watching : Event
  activation_cancelled activation_timeout : Event

pub record WatchResult : Type 0 where
  pub event : Event
  pub exit_code : Option Exit
  pub notification : Option Notification
  pub notification_attempts : ℕ
  pub notification_exit_code : Option Exit
  pub available_at : Option ℕ
  pub delivered_at : Option ℕ

pub data Phase : Type 0 where
  activating queued running querying notifying awaiting_ack finalizing : Phase

pub data LockStatus : Type 0 where
  unlocked held released : LockStatus

-- A record of the registry. `active` is whether its state is "active"; what else the registry itself
-- reads of it is left out.
pub record Entry : Type 0 where
  pub active : Bool
  pub phase : Phase
  pub result : Option WatchResult
  pub code : Option ℕ
  pub deadline_at : ℕ
  pub wake_ack_deadline_at : Option ℕ
  pub lock_status : LockStatus

-- What a watch does that others can see: it writes its log, saves the registry with its record,
-- starts its program, or starts the command of one attempt to notify.
pub data Action : Type 0 where
  save_log : WatchResult → Action
  save_record : Entry → Action
  execute : Action
  notify : ℕ → Action

pub record Disk : Type 0 where
  pub entry : Entry
  pub log : Option WatchResult

abbrev pub apply : Action → Disk → Disk
apply (save_log r) d = record d { log = some r }
apply (save_record e) d = record d { entry = e }
apply execute d = d
apply (notify k) d = d

-- The files after some actions.
abbrev pub settle : List Action → Disk → Disk
settle [] d = d
settle (a ∷ acts) d = settle acts (apply a d)

-- The exit codes of src/runtime.py.
abbrev pub exit_notify_failed : ℕ
exit_notify_failed = 70

abbrev pub exit_notify_unconfirmed : ℕ
exit_notify_unconfirmed = 71

abbrev pub exit_already_watching : ℕ
exit_already_watching = 75

abbrev pub exit_activation_cancelled : ℕ
exit_activation_cancelled = 76

abbrev pub exit_timeout : ℕ
exit_timeout = 124

-- `code == n`, for a return code that may be missing.
abbrev pub exit_is : Option Exit → ℕ → Bool
exit_is (some (exit m)) n = nat_eq m n
exit_is _ n = false

-- `_persist_result`: the log, then the registry.
abbrev pub persist : WatchResult → Entry → List Action
persist r e = save_log r ∷ save_record (record e { result = some r }) ∷ []
