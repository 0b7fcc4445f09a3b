-- ===== src/Goal/Exclusion/Reachable.antt =====
-- The states that src/goal.py reaches: a new goal, and what the commands make of it.
use wait_skill.Prelude.{◌≡◌, String, [], Option, ok, arith, subst, sym}
use wait_skill.Goal.State.{Client, GoalState}
use wait_skill.Goal.Paths.{Folding}
use wait_skill.Goal.Graph.{create, record_event}
use wait_skill.Goal.Commands.{Command, Host, run}
use wait_skill.Goal.Exclusion.Apart.{IsExclusive, Changes-IsExclusive, nil-IsExclusive}
use wait_skill.Goal.Exclusion.Backed.{IsBacked, Changes-IsBacked, nil-IsBacked}
use wait_skill.Goal.Exclusion.Refinement.{run-Changes}

-- The surroundings may differ from one command to the next, but for the table of case folding.
pub data Reachable (fold : Folding) : GoalState → Type 0 where
  created :
      {g : GoalState} (objective : String) (thread : Option String) (client : Client)
      (now later : String)
      → create objective thread client now later ≡ ok g
      → Reachable fold g
  ran :
      {g g' : GoalState} (h : Host) (c : Command)
      → Reachable fold g
      → h.fold ≡ fold
      → run h c g ≡ ok g'
      → Reachable fold g'

create-nodes :
    (objective : String) (thread : Option String) (client : Client) (now later : String)
    (g : GoalState)
    → create objective thread client now later ≡ ok g
    → g.nodes ≡ []
unfolding create record_event
create-nodes objective thread client now later g h = ground arith

-- In every state that the commands reach from a new goal, two different nodes that are dispatching,
-- running or waiting have no conflicting write scopes, and at most one node is dispatching.
pub Reachable-IsExclusive :
    (fold : Folding) (g : GoalState) → Reachable fold g → IsExclusive fold g.nodes
Reachable-IsExclusive fold g (created objective thread client now later e) =
    subst (IsExclusive fold) (sym (create-nodes objective thread client now later g e))
      (nil-IsExclusive fold)
Reachable-IsExclusive fold g' (ran {g} h c r same e) =
    Changes-IsExclusive fold g.nodes (Reachable-IsExclusive fold g r)
      (rw same at (run-Changes h c g g' e))

-- In every state that the commands reach from a new goal, each node that is dispatching, running,
-- waiting or completed has all the nodes that it depends on completed.
pub Reachable-IsBacked : (fold : Folding) (g : GoalState) → Reachable fold g → IsBacked g.nodes
Reachable-IsBacked fold g (created objective thread client now later e) =
    subst IsBacked (sym (create-nodes objective thread client now later g e)) nil-IsBacked
Reachable-IsBacked fold g' (ran {g} h c r same e) =
    Changes-IsBacked fold g.nodes (Reachable-IsBacked fold g r)
      (rw same at (run-Changes h c g g' e))
