-- ===== src/Loop/Tests.antt =====
-- A run of a loop, and what holds of the states that it reaches.
use wait_skill.Prelude.{
  ◌≡◌, refl, true, false, ok, arith, if◌then◌else◌, leb, ◌+◌, ℕ, String, none, some,
}
use wait_skill.Loop.State.{validate, LoopState, active, completed, running}
use wait_skill.Loop.Lifecycle.{
  complete_command, begin_command, begin, expire, expire_now, due, is_ready, is_expired, must_wait,
}
use wait_skill.Loop.Bounds.{Reachable, created, ran, IsBounded, Reachable-IsBounded}
use wait_skill.Loop.Valid.{run-validate}
use wait_skill.Loop.Wakes.{is_due, begin-twice, due-begin, due-expire, complete-due}
use wait_skill.Loop.Samples.{loop_program, goal_files, monitor, loop_new, loop_waiting, loop_second}

reached_new : Reachable loop_new
unfolding loop_program
reached_new = created goal_files monitor 1000 refl

reached_waiting : Reachable loop_waiting
unfolding loop_program
reached_waiting = ran goal_files (complete_command "not yet" "w1" 1050 1051) reached_new refl

reached_second : Reachable loop_second
unfolding loop_program
reached_second = ran goal_files (begin_command "w1" 1111 1112) reached_waiting refl

Reachable-IsBounded_example : IsBounded loop_second
Reachable-IsBounded_example = Reachable-IsBounded loop_second reached_second

run-validate_example : validate loop_second ≡ ok tt
unfolding loop_program
run-validate_example =
    run-validate goal_files (begin_command "w1" 1111 1112) loop_waiting loop_second refl refl refl

begin-twice_example :
    (begin goal_files "w1" 1200 1201 loop_second ≡ ok (loop_second, true))
    × (expire goal_files "w1" 1200 1201 loop_second ≡ ok (loop_second, true))
unfolding loop_program
begin-twice_example =
    begin-twice goal_files goal_files "w1" 1111 1112 1200 1201 loop_waiting (loop_second, false)
      refl

due-begin_example :
    (s' : LoopState) × (begin goal_files "w1" 1111 1112 loop_waiting ≡ ok (s', false))
    × (s'.status ≡ (if leb 1600 1111 then completed else active))
    × (s'.phase ≡ (if leb 1600 1111 then none else some running))
    × (s'.iteration ≡ (if leb 1600 1111 then 1 else 2))
    × (s'.last_event_id ≡ some "w1")
    × (s'.watch_id ≡ none)
    × (s'.next_run_at ≡ none)
    × ((token : String) (later : ℕ) → is_due (due token later s') ≡ false)
    × (s'.runs ≡ loop_waiting.runs)
    × (s'.deadline_at ≡ 1600)
unfolding loop_program
due-begin_example =
    due-begin goal_files "w1" 1110 1111 1112 loop_waiting (omega arith) refl refl refl

due-expire_example :
    expire goal_files "w1" 1601 1602 loop_waiting ≡ ok (expire_now "w1" 1602 loop_waiting, false)
unfolding loop_program
due-expire_example =
    due-expire goal_files "w1" 1600 1601 1602 loop_waiting (omega arith) refl refl refl

complete-due_example :
    due "w1" 1100 loop_waiting
    ≡ (if leb 1600 1100 then is_expired else if leb (1050 + 60) 1100 then is_ready else must_wait)
unfolding loop_program
complete-due_example =
    complete-due goal_files "not yet" "w1" 1050 1051 1100 loop_new loop_waiting refl refl
