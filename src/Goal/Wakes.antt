-- ===== src/Goal/Wakes.antt =====
-- `wake_node` of src/goal.py, by which an external wait ends, with an event that is repeated.
use wait_skill.Prelude.{
  ◌≡◌, refl, arith, Bool, true, String, Option, none, some, ok, Option-cases, inl, inr, eq_refl,
  Bool-cases, ap, ◌∙◌,
}
use wait_skill.Prelude.Dict.{Dict, lookup, insert, lookup-insert}
use wait_skill.Goal.State.{
  WatchEvent, WaitEvent, NodeStatus, GoalNode, GoalState, same_event, exited, start_failed,
  interrupted, ready, terminal, timeout, query_failed,
}
use wait_skill.Goal.State
use wait_skill.Goal.Queries.{get_node}
use wait_skill.Goal.Graph.{record_event, set_node}
use wait_skill.Goal.Waits.{wake_node, deliver, is_repeated, same_option}

pub lookup-insert_same :
    (id : String) (n : GoalNode) (nodes : Dict GoalNode) → lookup id (insert id n nodes) ≡ some n
lookup-insert_same id n nodes = ground (arith, lookup-insert id id n nodes, eq_refl id)

same_event_refl : (event : WaitEvent) → same_event event event ≡ true
same_event_refl exited = refl
same_event_refl start_failed = refl
same_event_refl interrupted = refl
same_event_refl ready = refl
same_event_refl terminal = refl
same_event_refl timeout = refl
same_event_refl query_failed = refl

same_option_refl : (status : Option String) → same_option status status ≡ true
same_option_refl none = refl
same_option_refl (some s) = eq_refl s

-- An event that `wake_node` has accepted is known from then on: to deliver it again, with the same
-- kind and status and at any time, changes nothing, and is reported as a duplicate with the status
-- of the node.
pub wake-twice :
    (id event_id : String) (event : WaitEvent) (external_status : Option String)
    (now later now' later' : String) (g g' : GoalState) (status : NodeStatus) (known : Bool)
    → wake_node id event_id event external_status now later g ≡ ok (g', status, known)
    → wake_node id event_id event external_status now' later' g' ≡ ok (g', status, true)
unfolding wake_node deliver get_node record_event set_node
wake-twice id event_id event external_status now later now' later' g g' status known h =
    elim (Option-cases (lookup id g.nodes)) [
      | inl e ↦ ground arith
      | inr (n, e) ↦
          let w : WatchEvent = record {
            event_id = event_id;
            event = event;
            status = external_status;
            at = now;
          } in
          let b : GoalNode = record n {
            last_event = some w;
            status = State.running;
            wait = none;
          } in
          elim (Bool-cases (is_repeated n.last_event event_id)) [
            | inl old ↦ ground arith
            | inr new ↦
                let stored : g'.nodes ≡ insert id b g.nodes = ground arith in
                let own_id = eq_refl event_id in
                let found : lookup id g'.nodes ≡ some b =
                  ap (lookup id) stored ∙ lookup-insert_same id b g.nodes in
                ground (arith, own_id, same_event_refl event, same_option_refl external_status)
          ]
    ]
