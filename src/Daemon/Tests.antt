-- ===== src/Daemon/Tests.antt =====
-- Runs of a small watch for codex.
use wait_skill.Prelude.{
  ℕ, ◌≤◌, true, false, ◌≡◌, refl, List, [], ◌∷◌, ◌++◌, none, some, arith, take-drop,
}
use wait_skill.Goal.State.{codex}
use wait_skill.Daemon.State.{Disk, Action, settle, ended, unconfirmed, notifying}
use wait_skill.Daemon.Delivery.{deliver, retry_delay, attempts_from, follow_up, verdict}
use wait_skill.Daemon.Program.{execute_program, settle_result}
use wait_skill.Daemon.Watch.{
  run_watch, watch, with_lock, steps, start_program, with_result, take_up, proceed, notify_client,
  conclude, last_save,
}
use wait_skill.Daemon.Once.{executions}
use wait_skill.Daemon.Crashes.{Life, submitted, ran, Life-executions}
use wait_skill.Daemon.Numbers.{sent, Rises}
use wait_skill.Daemon.Sent.{Life-Rises}
use wait_skill.Watch.Delivery.{notification_limits}
use wait_skill.Daemon.Unconfirmed.{deliver-Rises}
use wait_skill.Daemon.Replay.{codex_options, notifying_disk, notification_of, unconfirmed-Life}
use wait_skill.Daemon.Success.{Reaches, deliver-Reaches, is_retry}
use wait_skill.Daemon.Pauses.{retry_delay-bounds}
use wait_skill.Daemon.Samples.{
  options, world, busy_first, killed_first, entry, result, submitted_disk, first_part, first_rest,
  killed_disk, second_part, second_rest,
}

only_one : (j : ℕ) → j ≡ 1 → is_retry (verdict busy_first codex (busy_first.command_end j)) ≡ true
unfolding verdict
only_one j h = rw h refl

-- Killed behind the first attempt, and later behind the end of the second.
killed-Life : Life options submitted_disk killed_disk first_part
unfolding run_watch watch with_lock steps start_program execute_program with_result settle_result
    take_up proceed notify_client deliver notification_limits attempts_from follow_up verdict
    conclude last_save
killed-Life =
    ran (world busy_first) false first_part first_rest submitted refl
      (take-drop 11 (run_watch options (world busy_first) false submitted_disk)) refl refl

taken_up-Life :
    Life options submitted_disk (settle second_part killed_disk) (first_part ++ second_part)
unfolding run_watch watch with_lock steps start_program execute_program with_result settle_result
    take_up proceed notify_client deliver notification_limits attempts_from follow_up verdict
    conclude last_save
taken_up-Life =
    ran (world busy_first) false second_part second_rest killed-Life refl
      (take-drop 5 (run_watch options (world busy_first) false killed_disk)) refl refl

Life-executions_example : executions (first_part ++ second_part) ≤ 1
Life-executions_example =
    Life-executions options submitted_disk (settle second_part killed_disk)
      (first_part ++ second_part) taken_up-Life

Life-Rises_example : Rises 0 (sent (first_part ++ second_part)) 3
unfolding notification_limits
Life-Rises_example =
    Life-Rises options submitted_disk (settle second_part killed_disk) (first_part ++ second_part)
      refl (omega arith) taken_up-Life

-- Both attempts are in that life.
both_sent : sent (first_part ++ second_part) ≡ 1 ∷ 2 ∷ []
unfolding run_watch watch with_lock steps start_program execute_program with_result settle_result
    take_up proceed notify_client deliver notification_limits attempts_from follow_up verdict
    conclude last_save
both_sent = refl

deliver-Rises_example :
    Rises 0 (sent (deliver killed_first codex (some 3) none result entry).actions) 1
deliver-Rises_example = deliver-Rises killed_first 1 (some 3) none result entry refl (omega arith)

unconfirmed-Life_example :
    (d : Disk) × (before : List Action) × Life
      (codex_options 1 false none 5)
      (notifying_disk entry result 0 none)
      d
      before
    × (sent before ≡ 1 ∷ [])
    × (notification_of d.entry.result ≡ some (ended unconfirmed))
    × (notification_of d.log ≡ some (ended unconfirmed))
    × (d.entry.active ≡ true)
    × (d.entry.phase ≡ notifying)
    × (again : List Action) × (rest : List Action) × (again ++ rest
        ≡ run_watch (codex_options 1 false none 5) (world busy_first) false d)
    × (sent again ≡ 2 ∷ [])
unconfirmed-Life_example =
    unconfirmed-Life 1 0 5 false none (world killed_first) (world busy_first) entry result none refl
      refl refl refl refl refl refl

deliver-Reaches_example : Reaches codex 0 2 (deliver busy_first codex (some 3) none result entry)
unfolding notification_limits verdict
deliver-Reaches_example =
    deliver-Reaches busy_first codex (some 3) none result entry 1 "" refl (omega arith)
      (λ j above upto. (refl, refl)) (λ j above under. only_one j (omega (arith, above, under)))
      refl

retry_delay-bounds_example :
    (30 ≤ retry_delay 30 3) × ((retry_delay 30 3 ≤ retry_delay 30 4) × (retry_delay 30 3 ≤ 300))
retry_delay-bounds_example = retry_delay-bounds 30 3 (omega arith)
