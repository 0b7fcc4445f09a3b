-- ===== src/Goal/Exclusion/Ends.antt =====
-- Completing, failing and retrying a node follow the abstract account.
use wait_skill.Prelude.{
  ◌≡◌, refl, String, List, [], ◌∷◌, none, some, ok, arith, inl, inr, Option-cases, ◌++◌, dedupe,
}
use wait_skill.Prelude.Dict.{lookup}
use wait_skill.Goal.State.{Attempt, GoalNode, GoalState, pending, completed, failed}
use wait_skill.Goal.Paths.{Folding}
use wait_skill.Goal.Queries.{get_node}
use wait_skill.Goal.Graph.{record_event, set_node}
use wait_skill.Goal.Lifecycle.{complete_node, fail_node, retry_node}
use wait_skill.Goal.Exclusion.Moves.{scope, complete, leave, Change, move}

module _ (fold : Folding) (id : String) (g : GoalState) where
  pub complete_node-Change :
      (summary : String) (artifacts : List String) (now later : String) (g' : GoalState)
      → complete_node id summary artifacts now later g ≡ ok g'
      → Change fold g.nodes g'.nodes
  unfolding complete_node get_node record_event set_node
  complete_node-Change summary artifacts now later g' h = elim (Option-cases (lookup id g.nodes)) [
    | inl e ↦ ground arith
    | inr (n, e) ↦
        let b : GoalNode = record n {
          status = completed;
          result = some summary;
          artifacts = dedupe artifacts;
          completed_at = some now;
        } in
        move id n b e (complete (scope refl refl refl) (ground arith) refl) (ground arith)
  ]

  pub fail_node-Change :
      (summary now later : String) (g' : GoalState)
      → fail_node id summary now later g ≡ ok g'
      → Change fold g.nodes g'.nodes
  unfolding fail_node get_node record_event set_node
  fail_node-Change summary now later g' h = elim (Option-cases (lookup id g.nodes)) [
    | inl e ↦ ground arith
    | inr (n, e) ↦
        let b : GoalNode = record n {
          status = failed;
          result = some summary;
          failed_at = some now;
          wait = none;
        } in
        move id n b e (leave (ground arith) refl refl) (ground arith)
  ]

  pub retry_node-Change :
      (now : String) (g' : GoalState) → retry_node id now g ≡ ok g' → Change fold g.nodes g'.nodes
  unfolding retry_node get_node record_event set_node
  retry_node-Change now g' h = elim (Option-cases (lookup id g.nodes)) [
    | inl e ↦ ground arith
    | inr (n, e) ↦ elim (Option-cases n.failed_at) [
      | inl absent ↦ ground arith
      | inr (failed_at, f) ↦
          let a : Attempt = record {
            outcome = "failed";
            result = n.result;
            failed_at = failed_at;
            started_at = n.started_at;
            assignment = n.assignment;
            last_event = n.last_event;
          } in
          let b : GoalNode = record n {
            attempts = n.attempts ++ a ∷ [];
            status = pending;
            result = none;
            wait = none;
            last_event = none;
            assignment = none;
            started_at = none;
            failed_at = none;
          } in
          move id n b e (leave (ground arith) refl refl) (ground arith)
    ]
  ]
