-- ===== src/Goal/Tests/Reached.antt =====
-- A run of a goal, and what holds of the states that it reaches.
use wait_skill.Prelude.{refl, none, some, [], ◌∷◌}
use wait_skill.Goal.State.{codex, agent, local, external, running, waiting}
use wait_skill.Goal.Commands.{
  add_command, start_command, wait_command, activate_wait_command, complete_command,
  prepare_agent_command,
}
use wait_skill.Goal.Exclusion.Apart.{IsExclusive}
use wait_skill.Goal.Exclusion.Backed.{IsBacked}
use wait_skill.Goal.Exclusion.Reachable.{
  Reachable, created, ran, Reachable-IsExclusive, Reachable-IsBacked,
}
use wait_skill.Goal.Exclusion.Moves.{Changes}
use wait_skill.Goal.Exclusion.Refinement.{run-Changes}
use wait_skill.Goal.Queries.{nodes_with_status, ready_nodes}
use wait_skill.Goal.Ready.{IsChosen, ready_nodes-IsChosen}
use wait_skill.Goal.Samples.{
  program, ascii_fold, host, spec, new_goal, goal_one, goal_two, goal_three, goal_started,
  goal_both, goal_prepared, goal_waiting, goal_reported, goal_closing, wait_spec,
}

reached_new : Reachable ascii_fold new_goal
unfolding program
reached_new = created "ship it" (some "session") codex "t0" "t1" refl

reached_one : Reachable ascii_fold goal_one
unfolding program
reached_one =
    ran host (add_command "deploy" (spec external [] ("/srv/a" ∷ [])) [] none none "t2") reached_new
      refl refl

reached_two : Reachable ascii_fold goal_two
unfolding program
reached_two =
    ran host (add_command "report" (spec local [] ("/srv/b" ∷ [])) [] none none "t3") reached_one
      refl refl

reached_three : Reachable ascii_fold goal_three
unfolding program
reached_three =
    ran host (add_command "close" (spec agent ("report" ∷ []) ("/srv/c" ∷ [])) [] none none "t4")
      reached_two refl refl

reached_started : Reachable ascii_fold goal_started
unfolding program
reached_started = ran host (start_command "deploy" none none "t5" "t6" "t7") reached_three refl refl

reached_both : Reachable ascii_fold goal_both
unfolding program
reached_both = ran host (start_command "report" none none "t8" "t9" "t10") reached_started refl refl

reached_prepared : Reachable ascii_fold goal_prepared
unfolding program
reached_prepared =
    ran host (wait_command "deploy" wait_spec "w1" "t11" "t12") reached_both refl refl

reached_waiting : Reachable ascii_fold goal_waiting
unfolding program
reached_waiting = ran host (activate_wait_command 50 "deploy" "w1" "t13") reached_prepared refl refl

reached_reported : Reachable ascii_fold goal_reported
unfolding program
reached_reported =
    ran host (complete_command "report" "done" [] "t14" "t15") reached_waiting refl refl

reached_closing : Reachable ascii_fold goal_closing
unfolding program
reached_closing =
    ran host (prepare_agent_command "close" "d1" "t16" "t17") reached_reported refl refl

-- One node waits while another is being dispatched.
Reachable-IsExclusive_example : IsExclusive ascii_fold goal_closing.nodes
Reachable-IsExclusive_example = Reachable-IsExclusive ascii_fold goal_closing reached_closing

Reachable-IsBacked_example : IsBacked goal_closing.nodes
Reachable-IsBacked_example = Reachable-IsBacked ascii_fold goal_closing reached_closing

run-Changes_example : Changes ascii_fold goal_reported.nodes goal_closing.nodes
unfolding program
run-Changes_example =
    run-Changes host (prepare_agent_command "close" "d1" "t16" "t17") goal_reported goal_closing
      refl

-- Two nodes are ready here.
ready_nodes-IsChosen_example :
    IsChosen ascii_fold goal_three.nodes
      (nodes_with_status (running ∷ waiting ∷ []) goal_three.nodes)
      (ready_nodes ascii_fold goal_three)
ready_nodes-IsChosen_example = ready_nodes-IsChosen ascii_fold goal_three
