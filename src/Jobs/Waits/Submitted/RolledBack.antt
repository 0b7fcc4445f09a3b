-- ===== src/Jobs/Waits/Submitted/RolledBack.antt =====
-- src/goal.py, `submit_prepared_wait`: how a submission ends, and what is then on file.
use wait_skill.Prelude.{◌≡◌, ℕ, Bool, true, false, String, Option, none, some, Result, ok}
use wait_skill.Prelude.Dict.{lookup}
use wait_skill.Goal.State.{GoalState, GoalNode, WaitMetadata, Error}
use wait_skill.Goal.State
use wait_skill.Goal.Waits.{Receipt, abort_external_wait, startup_receipt_deadline}
use wait_skill.Goal.Store.{held}
use wait_skill.Jobs.Waits.Submitted.{
  Desk, receipt, rolled_back, rollback_failed, Submitted, accepted, failed, crashed,
}

abbrev pub waits_not : Option GoalNode → Bool
waits_not none = true
waits_not (some n) = elim n.wait [ none ↦ true | some w ↦ false ]

-- The submission is accepted with a receipt that matches the wait; or it is rolled back, and the goal on file has no wait at the node;
-- or the rollback has failed, and the file is as others have left it.
abbrev pub IsSettled : Desk → WaitMetadata → (id : String) → Submitted → Type 0
IsSettled d w id (accepted t) =
    (pauses : ℕ) × (r : Receipt) × (d.receipt_file w.startup_file pauses ≡ receipt r)
    × (startup_receipt_deadline r w id w.watch_id ≡ ok t)
IsSettled d w id (failed reason rolled_back file) =
    (g : GoalState) × (file ≡ held g) × (waits_not (lookup id g.nodes) ≡ true)
IsSettled d w id (failed reason (rollback_failed e) file) =
    (pauses : ℕ) × (file ≡ d.goal_file pauses)
IsSettled d w id (crashed reason) = ⊥

module _ (d : Desk) (w : WaitMetadata) (id : String)
    (sound : (x y : GoalState) → d.is_same x y ≡ true → x ≡ y) where
  abbrev abort : GoalState → Result Error GoalState
  abort = abort_external_wait id w.watch_id d.now
