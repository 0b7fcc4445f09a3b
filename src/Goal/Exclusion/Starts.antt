-- ===== src/Goal/Exclusion/Starts.antt =====
-- Editing, reserving, starting and releasing a node follow the abstract account.
use wait_skill.Prelude.{
  true, false, ◌≡◌, refl, String, List, Option, none, some, ok, arith, inl, inr, Option-cases,
  Bool-cases, Result-cases,
}
use wait_skill.Prelude.Dict.{lookup}
use wait_skill.Goal.State.{
  Assignment, GoalNode, GoalState, is_agent, pending, dispatching, running, prepared,
}
use wait_skill.Goal.Paths.{Folding}
use wait_skill.Goal.Queries.{get_node}
use wait_skill.Goal.Graph.{record_event, set_node, edit_node}
use wait_skill.Goal.Agents.{
  has_dispatch, check_startable, prepare_agent, attach_agent, check_local, start_node, abort_agent,
}
use wait_skill.Goal.Exclusion.Moves.{
  empty_of_test, scope, SameScope, Move, begin, go_on, leave, Change, move, is_live,
}

module _ (fold : Folding) (id : String) (g : GoalState) where
  -- What the shared checks of a start establish.
  check_startable-Move :
      (n b : GoalNode)
      → SameScope n b
      → check_startable fold id n g ≡ ok tt
      → has_dispatch g ≡ false
      → is_live b ≡ true
      → Move fold g.nodes n b
  unfolding check_startable
  check_startable-Move n b kept h quiet live =
      begin kept (ground arith) (empty_of_test _ (ground arith)) (empty_of_test _ (ground arith))
        live

  pub prepare_agent-Change :
      (token now later : String) (r : GoalState × String)
      → prepare_agent fold id token now later g ≡ ok r
      → Change fold g.nodes r.0.nodes
  unfolding prepare_agent get_node record_event set_node
  prepare_agent-Change token now later r h = elim (Option-cases (lookup id g.nodes)) [
    | inl e ↦ ground arith
    | inr (n, e) ↦
        let a : Assignment = record {
          phase = prepared;
          dispatch_token = token;
          prepared_at = now;
          agent_id = none;
          assigned_at = none;
        } in
        let b : GoalNode = record n { status = dispatching; assignment = some a } in
        move id n b e
          (check_startable-Move n b (scope refl refl refl) (ground arith) (ground arith) refl)
          (ground arith)
  ]

  -- Both branches of `start_node` hand over a node that may begin to run.
  attach_agent-Move :
      (n m : GoalNode) (agent_id token : Option String) (now started : String)
      → attach_agent id n agent_id token now ≡ ok m
      → Move fold g.nodes n (record m { status = running; started_at = some started })
  unfolding attach_agent
  attach_agent-Move n m agent_id token now started h =
      go_on (scope (ground arith) (ground arith) (ground arith)) (ground arith) refl (λ e. cc)

  check_local-Move :
      (n m : GoalNode) (agent_id token : Option String) (started : String)
      → check_local fold id n agent_id token g ≡ ok m
      → Move fold g.nodes n (record m { status = running; started_at = some started })
  unfolding check_local
  check_local-Move n m agent_id token started h =
      check_startable-Move n _ (scope (ground arith) (ground arith) (ground arith)) (ground arith)
        (ground arith) refl

  pub start_node-Change :
      (agent_id token : Option String) (now started at : String) (g' : GoalState)
      → start_node fold id agent_id token now started at g ≡ ok g'
      → Change fold g.nodes g'.nodes
  unfolding start_node get_node record_event set_node
  start_node-Change agent_id token now started at g' h = elim (Option-cases (lookup id g.nodes)) [
    | inl e ↦ ground arith
    | inr (n, e) ↦ elim (Bool-cases (is_agent n.kind)) [
      | inl k ↦ elim (Result-cases (attach_agent id n agent_id token now)) [
        | inl (m, p) ↦
            move id n (record m { status = running; started_at = some started }) e
              (attach_agent-Move n m agent_id token now started p) (ground arith)
        | inr (x, p) ↦ ground arith
      ]
      | inr k ↦ elim (Result-cases (check_local fold id n agent_id token g)) [
        | inl (m, p) ↦
            move id n (record m { status = running; started_at = some started }) e
              (check_local-Move n m agent_id token started p) (ground arith)
        | inr (x, p) ↦ ground arith
      ]
    ]
  ]

  pub abort_agent-Change :
      (token now : String) (g' : GoalState)
      → abort_agent id token now g ≡ ok g'
      → Change fold g.nodes g'.nodes
  unfolding abort_agent get_node record_event set_node
  abort_agent-Change token now g' h = elim (Option-cases (lookup id g.nodes)) [
    | inl e ↦ ground arith
    | inr (n, e) ↦
        move id n (record n { status = pending; assignment = none }) e
          (leave (ground arith) refl refl) (ground arith)
  ]

  pub edit_node-Change :
      (title : String) (deps acceptance : List String) (now : String) (g' : GoalState)
      → edit_node id title deps acceptance now g ≡ ok g'
      → Change fold g.nodes g'.nodes
  unfolding edit_node get_node record_event set_node
  edit_node-Change title deps acceptance now g' h = elim (Option-cases (lookup id g.nodes)) [
    | inl e ↦ ground arith
    | inr (n, e) ↦
        move id n (record n { title = title; depends_on = deps; acceptance = acceptance }) e
          (leave (ground arith) (ground arith) (ground arith)) (ground arith)
  ]
