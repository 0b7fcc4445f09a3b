-- ===== src/Goal/Exclusion/Refinement.antt =====
-- Every command of src/goal.py changes the nodes as the abstract account allows.
use wait_skill.Prelude.{
  false, ◌≡◌, refl, String, [], ◌∷◌, ◌++◌, Option, none, some, ok, arith, dedupe, >>=-eq-ok, inl,
  inr, Result-cases, subst, eq_iff,
}
use wait_skill.Prelude.Dict.{Dict, lookup, insert, contains, lookup-insert, contains-eq-lookup}
use wait_skill.Goal.State.{GoalNode, GoalState, pending}
use wait_skill.Goal.Paths.{Folding}
use wait_skill.Goal.Queries.{get_node}
use wait_skill.Goal.Graph.{
  record_event, set_node, NodeSpec, add_node, attach, find_target, new_node,
}
use wait_skill.Goal.Agents.{prepare_agent}
use wait_skill.Goal.Waits.{prepare_external_wait, wake_node}
use wait_skill.Goal.Lifecycle.{verify, pause, resume, cancel, finish}
use wait_skill.Goal.Commands.{
  Command, add_command, edit_command, prepare_agent_command, abort_agent_command, start_command,
  wait_command, activate_wait_command, abort_wait_command, wake_command, complete_command,
  fail_command, retry_command, verify_command, pause_command, resume_command, cancel_command,
  finish_command, Host, run, to_dict,
}
use wait_skill.Goal.Exclusion.Moves.{Change, keep, move, grow, stop, leave, Changes, here, next}
use wait_skill.Goal.Exclusion.Starts.{
  prepare_agent-Change, start_node-Change, abort_agent-Change, edit_node-Change,
}
use wait_skill.Goal.Exclusion.Waits.{
  prepare_external_wait-Change, activate_external_wait-Change, abort_external_wait-Change,
  wake_node-Change,
}
use wait_skill.Goal.Exclusion.Ends.{complete_node-Change, fail_node-Change, retry_node-Change}

one : {fold : Folding} {ns ms : Dict GoalNode} → Change fold ns ms → Changes fold ns ms
one c = next here c

module _ (fold : Folding) (id : String) (spec : NodeSpec) where
  find_target-eq-some :
      (g : GoalState) (before : Option String) (at : String) (n : GoalNode)
      → find_target before g.nodes ≡ ok (some (at, n))
      → (lookup at g.nodes ≡ some n) × (n.status ≡ pending)
  unfolding find_target get_node
  find_target-eq-some g before at n h = ground arith

  lookup_behind_new :
      (g : GoalState) (at : String) (n : GoalNode)
      → contains id g.nodes ≡ false
      → lookup at g.nodes ≡ some n
      → lookup at (insert id (new_node spec) g.nodes) ≡ some n
  lookup_behind_new g at n fresh e = ground (
    arith,
    lookup-insert id at (new_node spec) g.nodes,
    contains-eq-lookup id g.nodes,
    eq_iff id at,
  )

  -- The new node, and the target that may come to depend on it.
  attach-Changes :
      (g : GoalState) (target : Option (String × GoalNode)) (before : Option String)
      → contains id g.nodes ≡ false
      → find_target before g.nodes ≡ ok target
      → Changes fold g.nodes (attach id target (set_node id (new_node spec) g)).nodes
  unfolding attach set_node new_node
  attach-Changes g none before fresh found = one (grow id (new_node spec) fresh refl refl)
  attach-Changes g (some (at, n)) before fresh found =
      let (here_now, waiting_now) = find_target-eq-some g before at n found in
      let n' : GoalNode = record n { depends_on = dedupe (n.depends_on ++ id ∷ []) } in
      next (one (grow id (new_node spec) fresh refl refl)) (
        move at n n' (lookup_behind_new g at n fresh here_now)
          (leave (ground arith) (ground arith) (ground arith)) refl)

  add_node-Changes :
      (before reason : Option String) (now : String) (g g' : GoalState)
      → add_node id spec before reason now g ≡ ok g'
      → Changes fold g.nodes g'.nodes
  unfolding add_node record_event
  add_node-Changes before reason now g g' h = elim (Result-cases (find_target before g.nodes)) [
    | inl (target, found) ↦
        subst (Changes fold g.nodes) (ground arith)
          (attach-Changes g target before (ground arith) found)
    | inr (x, e) ↦ ground arith
  ]

-- Whenever a command succeeds, the nodes after it come from the nodes before it by a sequence of
-- the abstract changes: the nodes are as they were, one existing node makes a move that its status
-- allows, a pending node with a new identifier is added, or all unfinished nodes are cancelled.
pub run-Changes :
    (h : Host) (c : Command) (g g' : GoalState)
    → run h c g ≡ ok g'
    → Changes h.fold g.nodes g'.nodes
unfolding run
run-Changes h (add_command id spec inputs before reason now) g g' e =
    let named = to_dict [] inputs in
    add_node-Changes h.fold id (record spec { inputs = named }) before reason now g g'
      (ground arith)
run-Changes h (edit_command id title depends_on acceptance now) g g' e =
    one (edit_node-Change h.fold id g title depends_on acceptance now g' e)
run-Changes h (prepare_agent_command id token now later) g g' e =
    let (r, p, q) = >>=-eq-ok (prepare_agent h.fold id token now later g) _ e in
    subst (Changes h.fold g.nodes) (ground arith)
      (one (prepare_agent-Change h.fold id g token now later r p))
run-Changes h (abort_agent_command id dispatch_token now) g g' e =
    one (abort_agent-Change h.fold id g dispatch_token now g' e)
run-Changes h (start_command id agent_id dispatch_token now started at) g g' e =
    one (start_node-Change h.fold id g agent_id dispatch_token now started at g' e)
run-Changes h (wait_command id spec token now later) g g' e =
    let (r, p, q) =
      >>=-eq-ok
        (prepare_external_wait h.absolute id spec.label spec.event_note spec.log_file spec.lock_file
          spec.startup_file token now later g)
        _ e in
    subst (Changes h.fold g.nodes) (ground arith) (
      one (
        prepare_external_wait-Change h.fold id g h.absolute spec.label spec.event_note spec.log_file
          spec.lock_file spec.startup_file token now later r p))
run-Changes h (activate_wait_command time id watch_id now) g g' e =
    one (activate_external_wait-Change h.fold id g h.read_receipt h.held time watch_id now g' e)
run-Changes h (abort_wait_command id watch_id now) g g' e =
    one (abort_external_wait-Change h.fold id g watch_id now g' e)
run-Changes h (wake_command id event_id event external_status now later) g g' e =
    let (r, p, q) = >>=-eq-ok (wake_node id event_id event external_status now later g) _ e in
    subst (Changes h.fold g.nodes) (ground arith)
      (one (wake_node-Change h.fold id g event_id event external_status now later r p))
run-Changes h (complete_command id summary artifacts now later) g g' e =
    one (complete_node-Change h.fold id g summary artifacts now later g' e)
run-Changes h (fail_command id summary now later) g g' e =
    one (fail_node-Change h.fold id g summary now later g' e)
run-Changes h (retry_command id now) g g' e = one (retry_node-Change h.fold id g now g' e)
run-Changes h (verify_command summary checks now later) g g' e =
    one (keep (unfold verify record_event in ground arith))
run-Changes h (pause_command now) g g' e = one (keep (unfold pause record_event in ground arith))
run-Changes h (resume_command now) g g' e = one (keep (unfold resume record_event in ground arith))
run-Changes h (cancel_command now) g g' e = one (stop (unfold cancel record_event in ground arith))
run-Changes h (finish_command summary now later) g g' e =
    one (keep (unfold finish record_event in ground arith))
