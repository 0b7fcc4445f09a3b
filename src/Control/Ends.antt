-- ===== src/Control/Ends.antt =====
-- src/waitctl.py: the loops of the client, and their fuel.
use wait_skill.Prelude.{
  ◌≡◌, refl, ap, sym, ◌∙◌, Bool, true, false, String, Option, none, some, List, ◌∷◌, ℕ, zero, suc,
  ◌+◌, ◌≤◌, Result, ok, err, arith, inl, inr, Option-cases, Result-cases,
}
use wait_skill.Watch.Arguments.{validate_job_argv}
use wait_skill.Control.{
  Request, ping, shutdown, list, dashboard, submit, show, cancel, state_command, Event, History,
  sent, spawned, slept, World, Response, Outcome, ControlError, no_fuel, await_daemon, start_daemon,
  wait_for_daemon_stop, stop_daemon, verify_start, validate_start_argv, forwarded_args, request,
  five_seconds,
}
use wait_skill.Control.Commands.{
  submit_watch, run_command, Command, behind_daemon, follow_watch, daemon_start, daemon_status,
  daemon_stop, start_watch, show_dashboard, list_watches, show_watch, cancel_watch, run_state,
}

-- The fuel has run out.
abbrev is_spent : ControlError → Bool
is_spent no_fuel = true
is_spent _ = false

abbrev pub runs_out : Result ControlError Response → Bool
runs_out (ok r) = false
runs_out (err e) = is_spent e

abbrev pub stops_short : Option ControlError → Bool
stops_short none = false
stops_short (some e) = is_spent e

abbrev pub enough : ℕ
enough = suc five_seconds

module _ (w : World) (goes_on : (e : Event) (h : History) → w.time h ≤ w.time (e ∷ h))
    (passes : (h : History) → suc (w.time h) ≤ w.time (slept ∷ h)) where
  await_daemon-ends :
      (deadline k : ℕ) (h : History)
      → deadline ≤ w.time h + k
      → runs_out (await_daemon w deadline (suc k) h).0 ≡ false
  unfolding await_daemon
  await_daemon-ends deadline zero h near = ground (arith, near)
  await_daemon-ends deadline (suc k) h near =
      let later = sent ping ∷ h in
      let more =
        await_daemon-ends deadline k (slept ∷ later)
          (omega (arith, near, goes_on (sent ping) h, passes later)) in
      ground (arith, more)

  start_daemon-ends : (h : History) → runs_out (start_daemon w enough h).0 ≡ false
  unfolding start_daemon
  start_daemon-ends h =
      let started = spawned ∷ sent ping ∷ h in
      let more =
        await_daemon-ends (w.time started + five_seconds) five_seconds started (omega arith) in
      ground (arith, more)

  wait_for_daemon_stop-ends :
      (deadline k : ℕ) (h : History)
      → deadline ≤ w.time h + k
      → stops_short (wait_for_daemon_stop w deadline (suc k) h).0 ≡ false
  unfolding wait_for_daemon_stop
  wait_for_daemon_stop-ends deadline zero h near = ground (arith, near)
  wait_for_daemon_stop-ends deadline (suc k) h near =
      let more = wait_for_daemon_stop-ends deadline k (slept ∷ h) (omega (arith, near, passes h)) in
      ground (arith, more)

  stop_daemon-ends : (h : History) → runs_out (stop_daemon w enough h).0 ≡ false
  unfolding stop_daemon
  stop_daemon-ends h =
      let h' = sent shutdown ∷ h in
      let more =
        wait_for_daemon_stop-ends (w.time h' + five_seconds) five_seconds h' (omega arith) in
      ground (arith, more)

  verify_start-ends :
      (response : Response) (deadline k : ℕ) (h : History)
      → deadline ≤ w.time h + k
      → runs_out (verify_start w response deadline (suc k) h).0 ≡ false
  unfolding verify_start
  verify_start-ends response deadline zero h near =
      let later = goes_on (sent (show response.watch_id)) h in ground (arith, near, later)
  verify_start-ends response deadline (suc k) h near =
      let h' = sent (show response.watch_id) ∷ h in
      let more =
        verify_start-ends response deadline k (slept ∷ h')
          (omega (arith, near, goes_on (sent (show response.watch_id)) h, passes h')) in
      ground (arith, more)

  submit_watch-ends :
      (argv : List String) (h : History) → runs_out (submit_watch w enough argv h).0 ≡ false
  unfolding submit_watch
  submit_watch-ends argv h =
      let h' = sent (submit argv w.cwd) ∷ h in
      elim (Option-cases (w.answer h (submit argv w.cwd))) [
        | inl e ↦ ground (arith, e)
        | inr (r, e) ↦
            let more =
              verify_start-ends r (w.time h' + five_seconds) five_seconds h' (omega arith) in
            ground (arith, e, more)
      ]

  behind_daemon-ends :
      (h : History) (next : History → Outcome)
      → ((k : History) → runs_out (next k).0 ≡ false)
      → runs_out (behind_daemon w enough h next).0 ≡ false
  behind_daemon-ends h next ends =
      let more = ends (start_daemon w enough h).1 in
      let started = start_daemon-ends h in
      elim (Result-cases (start_daemon w enough h).0) [
        | inr (e, fails) ↦ rw (behind_daemon, fails) (ap runs_out (sym fails) ∙ started)
        | inl (r, runs) ↦ rw (behind_daemon, runs) more
      ]

  request-ends : (q : Request) (h : History) → runs_out (request w q h).0 ≡ false
  request-ends q h = ground arith

  -- Every command of the client ends within its fuel, whatever the service answers, when the clock
  -- does not go back and each pause takes a millisecond at least.
  pub run_command-ends : (c : Command) (h : History) → runs_out (run_command w enough c h).0 ≡ false
  unfolding run_command validate_start_argv
  run_command-ends (follow_watch id timeout) h = ground arith
  run_command-ends daemon_start h = start_daemon-ends h
  run_command-ends daemon_status h = request-ends ping h
  run_command-ends daemon_stop h = stop_daemon-ends h
  run_command-ends (start_watch values) h =
      elim (Result-cases (validate_job_argv (forwarded_args values))) [
        | inr (e, refused) ↦ rw (run_command, refused) refl
        | inl (done, accepted) ↦
            rw (run_command, accepted)
              (behind_daemon-ends h (submit_watch w enough (forwarded_args values))
                (submit_watch-ends (forwarded_args values)))
      ]
  run_command-ends show_dashboard h =
      behind_daemon-ends h (request w dashboard) (request-ends dashboard)
  run_command-ends list_watches h = behind_daemon-ends h (request w list) (request-ends list)
  run_command-ends (show_watch id) h =
      behind_daemon-ends h (request w (show id)) (request-ends (show id))
  run_command-ends (cancel_watch id) h =
      behind_daemon-ends h (request w (cancel id)) (request-ends (cancel id))
  run_command-ends (run_state name argv) h =
      let q = state_command name (forwarded_args argv) w.cwd in
      behind_daemon-ends h (request w q) (request-ends q)
