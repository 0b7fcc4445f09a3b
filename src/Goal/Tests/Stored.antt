-- ===== src/Goal/Tests/Stored.antt =====
-- The file of a small goal, which is created and edited.
use wait_skill.Prelude.{◌≡◌, refl, remove, true, false, String, List, [], ◌∷◌, Result}
use wait_skill.Goal.State.{GoalState, Error}
use wait_skill.Goal.Commands.{run, cancel_command, wait_command}
use wait_skill.Goal.Samples.{program, host, wait_spec, goal_both}
use wait_skill.Goal.Store.{no_file, create_file}
use wait_skill.Goal.Store.Kept.{loads, edits, create-edits-loads}

abbrev changes : List (String × String × (GoalState → Result Error GoalState))
changes =
    ("agent", "t30", run host (wait_command "deploy" wait_spec "w1" "t11" "t12"))
    ∷ ("user", "t31", run host (cancel_command "t32"))
    ∷ []

create-edits-loads_example :
    loads (edits (λ x y. false) changes (create_file goal_both no_file).1) ≡ true
unfolding program create_file remove
create-edits-loads_example = create-edits-loads (λ x y. false) goal_both no_file changes refl refl
