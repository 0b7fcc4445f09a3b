-- ===== src/Control/Started.antt =====
-- src/waitctl.py, `start`: how a start ends.
use wait_skill.Prelude.{
  ◌≡◌, refl, Bool, true, false, String, Option, none, some, List, ◌∷◌, ℕ, zero, suc, ◌+◌, Result,
  ok, err, eq_refl, ◌==◌, ◌&&◌, not, ◌||◌, arith, inl, inr, Option-cases, Result-cases,
}
use wait_skill.Watch.Arguments.{validate_job_argv}
use wait_skill.Control.{
  ping, spawned, await_daemon, submit, show, cancel, History, sent, slept, World, Response,
  ControlError, no_answer, startup_failed, not_verified, verify_start, startup_of, failed, verified,
  unknown, start_daemon, validate_start_argv, five_seconds, forwarded_args,
}
use wait_skill.Control.Commands.{submit_watch, run_command, behind_daemon, start_watch}

abbrev is_verified_by : Option Response → Bool
is_verified_by none = false
is_verified_by (some r) = elim (startup_of r) [
  | failed event ↦ false
  | verified ↦ true
  | unknown ↦ false
]

-- The last request has shown that watch, as verified.
abbrev pub shows_verified : World → (watch_id : String) → History → Bool
shows_verified w id (sent (show shown) ∷ h) =
    shown == id && is_verified_by (w.answer h (show shown))
shows_verified w id _ = false

-- The last request has cancelled that watch.
abbrev pub ends_cancelled : (watch_id : String) → History → Bool
ends_cancelled id (sent (cancel last) ∷ h) = last == id
ends_cancelled id _ = false

abbrev is_failed_by : (event : String) → Option Response → Bool
is_failed_by event none = false
is_failed_by event (some r) = elim (startup_of r) [
  | failed seen ↦ seen == event
  | verified ↦ false
  | unknown ↦ false
]

-- The last request has shown a watch whose start has failed with that event.
abbrev shows_failed : World → (event : String) → History → Bool
shows_failed w event (sent (show shown) ∷ h) = is_failed_by event (w.answer h (show shown))
shows_failed w event _ = false

abbrev is_absent : Option Response → Bool
is_absent none = true
is_absent (some r) = false

-- The last request has had no answer that can be read.
abbrev is_unanswered : World → History → Bool
is_unanswered w (sent q ∷ h) = is_absent (w.answer h q)
is_unanswered w _ = false

-- What the last request was, by the error that a start ends with.
abbrev is_explained : World → ControlError → History → Bool
is_explained w (not_verified id) h = ends_cancelled id h
is_explained w (startup_failed event) h = shows_failed w event h
is_explained w no_answer h = is_unanswered w h
is_explained w _ h = true

-- What the last request was, by the end of a start.
abbrev pub is_settled : World → Result ControlError Response → History → Bool
is_settled w (ok r) h = not r.ok || shows_verified w r.watch_id h
is_settled w (err e) h = is_explained w e h

abbrev fails_explained : World → Result ControlError Response → History → Bool
fails_explained w (ok r) h = true
fails_explained w (err e) h = is_explained w e h

module _ (w : World) where
  verify_start-is_settled :
      (response : Response) (deadline fuel : ℕ) (h : History)
      → is_settled w
          (verify_start w response deadline fuel h).0
          (verify_start w response deadline fuel h).1
        ≡ true
  unfolding verify_start
  verify_start-is_settled response deadline zero h = refl
  verify_start-is_settled response deadline (suc fuel) h =
      let id = response.watch_id in
      let h' = sent (show id) ∷ h in
      let more = verify_start-is_settled response deadline fuel (slept ∷ h') in
      elim (Option-cases (w.answer h (show id))) [
        | inl e ↦ ground (arith, e)
        | inr (r, e) ↦
            elim (startup_of r)
                as (λ s.
                  startup_of r ≡ s
                  → is_settled w (verify_start w response deadline (suc fuel) h).0
                      (verify_start w response deadline (suc fuel) h).1
                    ≡ true) [
                      | failed event ↦ λ s. ground (arith, e, s, eq_refl event)
                      | verified ↦ λ s. ground (arith, e, s, eq_refl id)
                      | unknown ↦ λ s. ground (arith, e, s, more, eq_refl id)
                    ]
              refl
      ]

  submit_watch-is_settled :
      (fuel : ℕ) (argv : List String) (h : History)
      → is_settled w (submit_watch w fuel argv h).0 (submit_watch w fuel argv h).1 ≡ true
  unfolding submit_watch
  submit_watch-is_settled fuel argv h =
      let h' = sent (submit argv w.cwd) ∷ h in
      elim (Option-cases (w.answer h (submit argv w.cwd))) [
        | inl e ↦ ground (arith, e)
        | inr (r, e) ↦
            let checked = verify_start-is_settled r (w.time h' + five_seconds) fuel h' in
            ground (arith, e, checked)
      ]

  await_daemon-fails_explained :
      (deadline fuel : ℕ) (h : History)
      → fails_explained w (await_daemon w deadline fuel h).0 (await_daemon w deadline fuel h).1
        ≡ true
  unfolding await_daemon
  await_daemon-fails_explained deadline zero h = refl
  await_daemon-fails_explained deadline (suc fuel) h =
      let more = await_daemon-fails_explained deadline fuel (slept ∷ sent ping ∷ h) in
      elim (Option-cases (w.answer h ping)) [
        | inl e ↦ ground (arith, e, more)
        | inr (r, e) ↦ ground (arith, e, more)
      ]

  start_daemon-fails_explained :
      (fuel : ℕ) (h : History)
      → fails_explained w (start_daemon w fuel h).0 (start_daemon w fuel h).1 ≡ true
  unfolding start_daemon
  start_daemon-fails_explained fuel h =
      let started = spawned ∷ sent ping ∷ h in
      let more = await_daemon-fails_explained (w.time started + five_seconds) fuel started in
      elim (Option-cases (w.answer h ping)) [
        | inl e ↦ ground (arith, e, more)
        | inr (r, e) ↦ ground (arith, e, more)
      ]

  -- The last request of a start explains its end: a response that is ok comes behind a record that
  -- shows its watch verified; the error that the start was not verified in time comes behind the
  -- cancellation of the watch; the error that the start has failed with an event comes behind a
  -- record with that event; and the error of an answer that is missing or cannot be read comes
  -- behind a request without such an answer.
  pub start_watch-is_settled :
      (fuel : ℕ) (values : List String) (h : History)
      → is_settled w
          (run_command w fuel (start_watch values) h).0
          (run_command w fuel (start_watch values) h).1
        ≡ true
  unfolding run_command validate_start_argv
  start_watch-is_settled fuel values h =
      elim (Result-cases (validate_job_argv (forwarded_args values))) [
        | inr (e, refused) ↦ rw (run_command, refused) refl
        | inl (done, accepted) ↦ elim (Result-cases (start_daemon w fuel h).0) [
          | inr (e, fails) ↦
              let explained = start_daemon-fails_explained fuel h in
              rw (run_command, accepted, behind_daemon, fails) (rw fails at explained)
          | inl (r, runs) ↦
              rw (run_command, accepted, behind_daemon, runs)
                (submit_watch-is_settled fuel (forwarded_args values) (start_daemon w fuel h).1)
        ]
      ]
