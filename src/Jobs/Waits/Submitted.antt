-- ===== src/Jobs/Waits/Submitted.antt =====
-- src/goal.py, `submit_prepared_wait`: the submission of a prepared wait, and how it is rolled back.
use wait_skill.Prelude.{
  ℕ, zero, suc, ◌+◌, Bool, true, false, String, Option, none, some, List, [], ◌∷◌, Result, ok, err,
  leb, if◌then◌else◌,
}
use wait_skill.Goal.State.{GoalState, WaitMetadata, Error}
use wait_skill.Goal.Waits.{Receipt, startup_receipt_deadline, abort_external_wait}
use wait_skill.Goal.Store.{GoalFile, StoreError, edit}
use wait_skill.Jobs.Waits.{submit_argv}
pub mod RolledBack

-- The answer of the service: an `OSError`, a refusal, or that the watch is registered.
pub data Answer : Type 0 where
  no_service refusal registered : Answer

-- The file of the receipt.
pub data ReceiptFile : Type 0 where
  no_receipt unreadable_receipt : ReceiptFile
  receipt : Receipt → ReceiptFile

-- What the submission meets; `pauses` counts those that it has made. `goal_file` is what others
-- have made of the goal's file by then.
pub record Desk : Type 0 where
  pub answer : List String → Answer
  pub receipt_file : (path : String) (pauses : ℕ) → ReceiptFile
  pub time : (pauses : ℕ) → ℕ
  pub goal_file : (pauses : ℕ) → GoalFile
  pub is_same : GoalState → GoalState → Bool
  pub source : String
  pub now : String

pub data Reason : Type 0 where
  no_note submission_failed submission_refused receipt_missing receipt_unreadable no_fuel : Reason
  receipt_refused : Error → Reason

pub data Rollback : Type 0 where
  rolled_back : Rollback
  rollback_failed : StoreError → Rollback

-- The end of the submission, with the goal's file.
pub data Submitted : Type 0 where
  accepted : (activation_deadline : ℕ) → Submitted
  failed : Reason → Rollback → GoalFile → Submitted
  crashed : Reason → Submitted

abbrev pub rolled : Reason → Result StoreError GoalState × GoalFile → Submitted
rolled reason (ok g, file) = failed reason rolled_back file
rolled reason (err e, file) = failed reason (rollback_failed e) file

-- `fail`
unfoldable pub roll_back : Desk → (id watch_id : String) (pauses : ℕ) → Reason → Submitted
roll_back d id watch_id pauses reason =
    rolled reason
      (edit d.is_same d.source d.now (abort_external_wait id watch_id d.now) (d.goal_file pauses))

-- The receipt is checked once it has been read.
unfoldable pub check_receipt :
    Desk → WaitMetadata → (id : String) (pauses : ℕ) → Receipt → Submitted
check_receipt d w id pauses r = elim (startup_receipt_deadline r w id w.watch_id) [
  | ok t ↦ accepted t
  | err e ↦ roll_back d id w.watch_id pauses (receipt_refused e)
]

unfoldable pub await_receipt :
    Desk → WaitMetadata → (id : String) (deadline fuel pauses : ℕ) → Submitted
await_receipt d w id deadline zero pauses = crashed no_fuel
await_receipt d w id deadline (suc fuel) pauses =
    let rest = await_receipt d w id deadline fuel (suc pauses) in
    elim (d.receipt_file w.startup_file pauses) [
      | no_receipt ↦
          if leb deadline (d.time pauses)
          then roll_back d id w.watch_id pauses receipt_missing
          else rest
      | unreadable_receipt ↦ roll_back d id w.watch_id pauses receipt_unreadable
      | receipt r ↦ check_receipt d w id pauses r
    ]

-- RECEIPT_WAIT_SECONDS, in milliseconds.
abbrev pub receipt_wait : ℕ
receipt_wait = 10000

unfoldable pub submit_prepared_wait :
    Desk
    → (fuel : ℕ) → WaitMetadata
    → (state id timeout : String) → Option String
    → List String
    → Submitted
submit_prepared_wait d fuel w state id timeout remote program =
    elim (submit_argv w state id timeout remote program) [
      | none ↦ crashed no_note
      | some argv ↦ elim (d.answer argv) [
        | no_service ↦ roll_back d id w.watch_id 0 submission_failed
        | refusal ↦ roll_back d id w.watch_id 0 submission_refused
        | registered ↦ await_receipt d w id (d.time 0 + receipt_wait) fuel 0
      ]
    ]
