-- ===== src/Goal/Exclusion/Waits.antt =====
-- The external wait of a node follows the abstract account.
use wait_skill.Prelude.{
  Bool, ◌≡◌, refl, String, Option, none, some, ok, arith, inl, inr, Option-cases, Bool-cases,
  Result-cases, ℕ, subst,
}
use wait_skill.Prelude.Dict.{Dict, lookup}
use wait_skill.Goal.State.{
  NodeStatus, WaitEvent, WaitMetadata, WatchEvent, GoalNode, GoalState, running, waiting, prepared,
  active,
}
use wait_skill.Goal.Paths.{Folding}
use wait_skill.Goal.Queries.{get_node, LockTest}
use wait_skill.Goal.Graph.{record_event, set_node}
use wait_skill.Goal.Waits.{
  Receipt, is_repeated, deliver, prepare_external_wait, activate_external_wait, abort_external_wait,
  wake_node,
}
use wait_skill.Goal.Exclusion.Moves.{scope, go_on, Change, keep, move}

module _ (fold : Folding) (id : String) (g : GoalState) where
  pub prepare_external_wait-Change :
      (absolute : String → String) (label event_note log_file lock_file startup_file : String)
      (token now later : String) (r : GoalState × String)
      → prepare_external_wait absolute id label event_note log_file lock_file startup_file token now
          later g
        ≡ ok r
      → Change fold g.nodes r.0.nodes
  unfolding prepare_external_wait get_node record_event set_node
  prepare_external_wait-Change absolute label note log lock startup token now later r h =
      elim (Option-cases (lookup id g.nodes)) [
        | inl e ↦ ground arith
        | inr (n, e) ↦ elim (Option-cases g.thread) [
          | inl none_set ↦ ground arith
          | inr (thread, given) ↦
              let w : WaitMetadata = record {
                label = label;
                client = g.client;
                thread = thread;
                log_file = absolute log;
                lock_file = absolute lock;
                startup_file = absolute startup;
                since = now;
                watch_id = token;
                phase = prepared;
                event_note = some note;
              } in
              let b : GoalNode = record n { wait = some w } in
              move id n b e (go_on (scope refl refl refl) (ground arith) (ground arith) (λ d. d))
                (ground arith)
        ]
      ]

  pub activate_external_wait-Change :
      (read_receipt : String → Option Receipt) (held : LockTest) (time : ℕ) (watch_id now : String)
      (g' : GoalState)
      → activate_external_wait read_receipt held time id watch_id now g ≡ ok g'
      → Change fold g.nodes g'.nodes
  unfolding activate_external_wait get_node record_event set_node
  activate_external_wait-Change read_receipt held time watch_id now g' h =
      elim (Option-cases (lookup id g.nodes)) [
        | inl e ↦ ground arith
        | inr (n, e) ↦ elim (Option-cases n.wait) [
          | inl unset ↦ ground arith
          | inr (w, waits) ↦
              move id n (record n { wait = some (record w { phase = active }); status = waiting }) e
                (go_on (scope refl refl refl) (ground arith) refl (λ d. cc)) (ground arith)
        ]
      ]

  pub abort_external_wait-Change :
      (watch_id now : String) (g' : GoalState)
      → abort_external_wait id watch_id now g ≡ ok g'
      → Change fold g.nodes g'.nodes
  unfolding abort_external_wait get_node record_event set_node
  abort_external_wait-Change watch_id now g' h = elim (Option-cases (lookup id g.nodes)) [
    | inl e ↦ ground arith
    | inr (n, e) ↦
        move id n (record n { status = running; wait = none }) e
          (go_on (scope refl refl refl) (ground arith) refl (λ d. cc)) (ground arith)
  ]

  pub deliver-Change :
      (event_id : String) (event : WaitEvent) (external_status : Option String) (now later : String)
      (n : GoalNode) (g' : GoalState)
      → lookup id g.nodes ≡ some n
      → deliver id event_id event external_status now later n g ≡ ok g'
      → Change fold g.nodes g'.nodes
  unfolding deliver record_event set_node
  deliver-Change event_id event external_status now later n g' e h =
      let woken : WatchEvent = record {
        event_id = event_id;
        event = event;
        status = external_status;
        at = now;
      } in
      move id n (record n { last_event = some woken; status = running; wait = none }) e
        (go_on (scope refl refl refl) (ground arith) refl (λ d. cc)) (ground arith)

  pub wake_node-Change :
      (event_id : String) (event : WaitEvent) (external_status : Option String) (now later : String)
      (r : GoalState × NodeStatus × Bool)
      → wake_node id event_id event external_status now later g ≡ ok r
      → Change fold g.nodes r.0.nodes
  unfolding wake_node get_node
  wake_node-Change event_id event external_status now later r h =
      elim (Option-cases (lookup id g.nodes)) [
        | inl e ↦ ground arith
        | inr (n, e) ↦ elim (Bool-cases (is_repeated n.last_event event_id)) [
          | inl again ↦ keep (ground arith)
          | inr fresh ↦
              elim (Result-cases (deliver id event_id event external_status now later n g)) [
                | inl (g', p) ↦
                    subst (λ (ms : Dict GoalNode). Change fold g.nodes ms) (ground arith)
                      (deliver-Change event_id event external_status now later n g' e p)
                | inr (x, p) ↦ ground arith
              ]
        ]
      ]
