-- ===== src/Control/Versions.antt =====
-- src/waitctl.py: requests, and the version of the service that gets them.
use wait_skill.Prelude.{
  ◌≡◌, refl, Bool, true, false, not, ◌&&◌, ◌||◌, String, List, [], ◌∷◌, ℕ, zero, suc, ◌+◌, ok, leb,
  arith, inl, inr, Bool-cases, Option-cases, Result-cases,
}
use wait_skill.Control.{
  Request, ping, shutdown, list, dashboard, submit, show, cancel, follow, state_command, History,
  sent, spawned, slept, World, Response, Outcome, is_match, await_daemon, start_daemon,
  wait_for_daemon_stop, stop_daemon, verify_start, startup_of, failed, verified, unknown,
  validate_start_argv, forwarded_args, request, five_seconds,
}
use wait_skill.Control.Commands.{
  submit_watch, run_command, Command, behind_daemon, follow_watch, daemon_start, daemon_status,
  daemon_stop, start_watch, show_dashboard, list_watches, show_watch, cancel_watch, run_state,
}

-- Requests that are for a service of the client's version.
abbrev pub needs_match : Request → Bool
needs_match ping = false
needs_match shutdown = false
needs_match (follow id timeout) = false
needs_match _ = true

-- A ping has been answered by a service of the client's version.
abbrev pub has_match : World → History → Bool
has_match w [] = false
has_match w (sent ping ∷ h) = is_match w (w.answer h ping) || has_match w h
has_match w (e ∷ h) = has_match w h

-- Each request for a service of the client's version follows such an answer.
abbrev pub is_versioned : World → History → Bool
is_versioned w [] = true
is_versioned w (sent q ∷ h) = (not (needs_match q) || has_match w h) && is_versioned w h
is_versioned w (e ∷ h) = is_versioned w h

module _ (w : World) where
  await_daemon-is_versioned :
      (deadline fuel : ℕ) (h : History)
      → is_versioned w h ≡ true
      → is_versioned w (await_daemon w deadline fuel h).1 ≡ true
  unfolding await_daemon
  await_daemon-is_versioned deadline zero h good = good
  await_daemon-is_versioned deadline (suc fuel) h good =
      let more = await_daemon-is_versioned deadline fuel (slept ∷ sent ping ∷ h) good in
      elim (Option-cases (w.answer h ping)) [
        | inl e ↦ ground (arith, e, more, good)
        | inr (r, e) ↦ ground (arith, e, more, good)
      ]

  await_daemon-has_match :
      (deadline fuel : ℕ) (h : History) (r : Response)
      → (await_daemon w deadline fuel h).0 ≡ ok r
      → has_match w (await_daemon w deadline fuel h).1 ≡ true
  unfolding await_daemon
  await_daemon-has_match deadline zero h r found = ground (arith, found)
  await_daemon-has_match deadline (suc fuel) h r found =
      let more = await_daemon-has_match deadline fuel (slept ∷ sent ping ∷ h) r in
      ground (arith, more)

  start_daemon-is_versioned :
      (fuel : ℕ) (h : History)
      → is_versioned w h ≡ true
      → is_versioned w (start_daemon w fuel h).1 ≡ true
  unfolding start_daemon
  start_daemon-is_versioned fuel h good =
      let started = spawned ∷ sent ping ∷ h in
      elim (Option-cases (w.answer h ping)) [
        | inl e ↦
            let more =
              await_daemon-is_versioned (w.time started + five_seconds) fuel started good in
            ground (arith, e, more, good)
        | inr (r, e) ↦ rw (e, start_daemon) good
      ]

  start_daemon-has_match :
      (fuel : ℕ) (h : History) (r : Response)
      → (start_daemon w fuel h).0 ≡ ok r
      → has_match w (start_daemon w fuel h).1 ≡ true
  unfolding start_daemon
  start_daemon-has_match fuel h r found =
      let started = spawned ∷ sent ping ∷ h in
      let later = await_daemon-has_match (w.time started + five_seconds) fuel started r in
      ground (arith, later)

  verify_start-is_versioned :
      (response : Response) (deadline fuel : ℕ) (h : History)
      → has_match w h ≡ true
      → is_versioned w h ≡ true
      → is_versioned w (verify_start w response deadline fuel h).1 ≡ true
  unfolding verify_start
  verify_start-is_versioned response deadline zero h found good = good
  verify_start-is_versioned response deadline (suc fuel) h found good =
      let id = response.watch_id in
      let h' = sent (show id) ∷ h in
      let shown : is_versioned w h' ≡ true = ground (arith, found, good) in
      let more = verify_start-is_versioned response deadline fuel (slept ∷ h') found shown in
      elim (Option-cases (w.answer h (show id))) [
        | inl e ↦ rw (e, verify_start) shown
        | inr (r, e) ↦
            elim (startup_of r)
                as (λ s.
                  startup_of r ≡ s
                  → is_versioned w (verify_start w response deadline (suc fuel) h).1 ≡ true) [
                    | failed event ↦ λ s. rw (verify_start, e, s) shown
                    | verified ↦ λ s. rw (verify_start, e, s) shown
                    | unknown ↦ λ s. elim (Bool-cases (leb deadline (w.time h'))) [
                      | inl late ↦ rw (verify_start, e, s, late) (ground (arith, found, shown))
                      | inr early ↦ rw (verify_start, e, s, early) more
                    ]
                  ]
              refl
      ]

  submit_watch-is_versioned :
      (fuel : ℕ) (argv : List String) (h : History)
      → has_match w h ≡ true
      → is_versioned w h ≡ true
      → is_versioned w (submit_watch w fuel argv h).1 ≡ true
  unfolding submit_watch
  submit_watch-is_versioned fuel argv h found good =
      let h' = sent (submit argv w.cwd) ∷ h in
      let submitted : is_versioned w h' ≡ true = ground (arith, found, good) in
      elim (Option-cases (w.answer h (submit argv w.cwd))) [
        | inl e ↦ rw (submit_watch, e) submitted
        | inr (r, e) ↦ elim (Bool-cases r.ok) [
          | inl said ↦
              let checked =
                verify_start-is_versioned r (w.time h' + five_seconds) fuel h' found submitted in
              ground (arith, e, said, checked)
          | inr unsaid ↦ ground (arith, e, unsaid, submitted)
        ]
      ]

  behind_daemon-is_versioned :
      (fuel : ℕ) (h : History) (next : History → Outcome)
      → is_versioned w h ≡ true
      → ((k : History)
          → has_match w k ≡ true
          → is_versioned w k ≡ true
          → is_versioned w (next k).1 ≡ true)
      → is_versioned w (behind_daemon w fuel h next).1 ≡ true
  behind_daemon-is_versioned fuel h next good goes_on =
      let k = (start_daemon w fuel h).1 in
      let started = start_daemon-is_versioned fuel h good in
      elim (Result-cases (start_daemon w fuel h).0) [
        | inr (e, fails) ↦ rw (behind_daemon, fails) started
        | inl (r, runs) ↦
            rw (behind_daemon, runs) (goes_on k (start_daemon-has_match fuel h r runs) started)
      ]

  wait_for_daemon_stop-is_versioned :
      (deadline fuel : ℕ) (h : History)
      → is_versioned w h ≡ true
      → is_versioned w (wait_for_daemon_stop w deadline fuel h).1 ≡ true
  unfolding wait_for_daemon_stop
  wait_for_daemon_stop-is_versioned deadline zero h good = good
  wait_for_daemon_stop-is_versioned deadline (suc fuel) h good =
      let more = wait_for_daemon_stop-is_versioned deadline fuel (slept ∷ h) good in
      ground (arith, more, good)

  stop_daemon-is_versioned :
      (fuel : ℕ) (h : History)
      → is_versioned w h ≡ true
      → is_versioned w (stop_daemon w fuel h).1 ≡ true
  unfolding stop_daemon
  stop_daemon-is_versioned fuel h good =
      let h' = sent shutdown ∷ h in
      let waited = wait_for_daemon_stop-is_versioned (w.time h' + five_seconds) fuel h' good in
      ground (arith, waited, good)

  one_request :
      (q : Request) (k : History)
      → has_match w k ≡ true
      → is_versioned w k ≡ true
      → is_versioned w (request w q k).1 ≡ true
  one_request q k found good = ground (arith, found, good)

  -- Whatever the service answers, each request of a command other than ping, shutdown and follow
  -- is sent behind a ping that a service of the client's version has answered.
  pub run_command-is_versioned :
      (fuel : ℕ) (c : Command) → is_versioned w (run_command w fuel c []).1 ≡ true
  unfolding run_command
  run_command-is_versioned fuel (follow_watch id timeout) = ground arith
  run_command-is_versioned fuel daemon_start = start_daemon-is_versioned fuel [] refl
  run_command-is_versioned fuel daemon_status = refl
  run_command-is_versioned fuel daemon_stop = stop_daemon-is_versioned fuel [] refl
  run_command-is_versioned fuel (start_watch values) =
      elim (Result-cases (validate_start_argv values)) [
        | inr (e, refused) ↦ rw (run_command, refused) refl
        | inl (argv, accepted) ↦
            rw (run_command, accepted)
              (behind_daemon-is_versioned fuel [] (submit_watch w fuel argv) refl
                (submit_watch-is_versioned fuel argv))
      ]
  run_command-is_versioned fuel show_dashboard =
      behind_daemon-is_versioned fuel [] (request w dashboard) refl (one_request dashboard)
  run_command-is_versioned fuel list_watches =
      behind_daemon-is_versioned fuel [] (request w list) refl (one_request list)
  run_command-is_versioned fuel (show_watch id) =
      behind_daemon-is_versioned fuel [] (request w (show id)) refl (one_request (show id))
  run_command-is_versioned fuel (cancel_watch id) =
      behind_daemon-is_versioned fuel [] (request w (cancel id)) refl (one_request (cancel id))
  run_command-is_versioned fuel (run_state name argv) =
      let q = state_command name (forwarded_args argv) w.cwd in
      behind_daemon-is_versioned fuel [] (request w q) refl (one_request q)
