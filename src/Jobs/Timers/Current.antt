-- ===== src/Jobs/Timers/Current.antt =====
-- src/loop.py, `timer_argv`, against src/waitd.py, `submit`, and src/runtime.py,
-- `loop_wait_is_current`.
use wait_skill.Prelude.{ℕ, true, false, String, some, List, [], ◌∷◌, ◌++◌, ok, ◌≡◌, ap, ◌∙◌, arith}
use wait_skill.Prelude.Text.{nonempty-blank, nonempty}
use wait_skill.Loop.State.{
  LoopState, GoalFiles, validate_identity, is_active, is_waiting, goal_is_open,
}
use wait_skill.Watch.Arguments.{absolute_wait_argv}
use wait_skill.Registry.State.{Watcher, submit}
use wait_skill.Watch.Owner.{LoopFiles}
use wait_skill.Jobs.Parse.{
  Outside, Job, all_acceptable, parse_job_args, has_same_path, is_bad_event_id,
}
use wait_skill.Jobs.Submit.{Submission, accepted_job, accepted_job-owned, take_up, take_up-owned}
use wait_skill.Jobs.Pairs.{flat, are_pairs, absolute_wait_argv-flat, validated-flat}
use wait_skill.Jobs.Timers.{
  Clock, timer_argv, timer_pairs, base_pairs, more_pairs, due_argv, id_text,
}
use wait_skill.Jobs.Timers.Parsed.{are_extra, timer_argv-flat}
use wait_skill.Jobs.Timers.Registered.{
  resolved-timer, loop-timer, id-timer, job, parses-timer, parsed-timer,
}
use wait_skill.Jobs.Timers.Extra.{more-extra, accepted-more, session-given, pairs-append}

module _ (o : Outside) (sub : Submission) (c : Clock) (s : LoopState) (path id : String)
    (goals : GoalFiles) (loops : LoopFiles) (saved : loops path ≡ some s)
    (valid : validate_identity s ≡ ok tt) (active : is_active s.status ≡ true)
    (waits : is_waiting s.phase ≡ true) (watched : s.watch_id ≡ some id)
    (open_goal : goal_is_open goals s ≡ true)
    (fits : are_pairs (timer_pairs c s path ++ ("--remote", sub.endpoint) ∷ []) ≡ true)
    (positive : o.is_positive_number (c.timeout s) ≡ true)
    (distinct : has_same_path o.canonical_path []
        (path ∷ c.log path id ∷ c.lock (c.log path id) ∷ [])
      ≡ false)
    (id_ok : is_bad_event_id (some id) ≡ false) (path_kept : sub.within path ≡ path)
    (log_kept : sub.within (c.log path id) ≡ c.log path id)
    (lock_kept : sub.within (c.lock (c.log path id)) ≡ c.lock (c.log path id)) where
  abbrev program : List String
  program = due_argv c path (id_text s)

  abbrev with_remote : List (String × String)
  with_remote = more_pairs s ++ ("--remote", sub.endpoint) ∷ []

  given_id : nonempty id ≡ true
  given_id = nonempty-blank id (ground (arith, id_ok))

  abbrev argv_of : List (String × String) → List String
  argv_of pairs = flat pairs ++ "--" ∷ c.python ∷ program

  fewer : are_pairs (timer_pairs c s path) ≡ true
  fewer = pairs-append (timer_pairs c s path) (("--remote", sub.endpoint) ∷ []) fits

  parses :
      (extra : List (String × String)) (are : are_extra extra ≡ true)
      → all_acceptable o extra ≡ true
      → are_pairs (base_pairs c s path ++ extra) ≡ true
      → parse_job_args o (argv_of (base_pairs c s path ++ extra))
        ≡ ok (job c s path extra are (c.python ∷ program))
  parses extra are accepted fit =
      parses-timer c s path extra are o id program c.python watched accepted positive distinct id_ok
        (session-given s valid) given_id fit

  abbrev taken : Job
  taken = job c s path (more_pairs s) (more-extra s) (c.python ∷ program)

  accepts-timer :
      accepted_job o sub (timer_argv c s path) ≡ ok (taken, argv_of (timer_pairs c s path))
  accepts-timer =
      let extra = more_pairs s in
      let are = more-extra s in
      let accepted = accepted-more o s valid in
      let resolves =
        resolved-timer c s path extra are sub.within path_kept (ground (arith, watched, log_kept))
          (ground (arith, watched, lock_kept)) in
      let same =
        ap (absolute_wait_argv sub.within) (timer_argv-flat c s path)
        ∙ (absolute_wait_argv-flat sub.within (timer_pairs c s path) (c.python ∷ program) fewer
            ∙ ap argv_of resolves) in
      accepted_job-owned o sub (timer_argv c s path) (argv_of (timer_pairs c s path))
        (job c s path extra are ("--" ∷ c.python ∷ program)) taken same
        (validated-flat (timer_pairs c s path) c.python program fewer)
        (parsed-timer c s path extra are o id program c.python watched accepted positive distinct
          id_ok (session-given s valid) given_id fewer)
        (ground (arith, loop-timer c s path extra are ("--" ∷ c.python ∷ program)))
        (parses extra are accepted fewer)

  taken-id : taken.watch.event_id ≡ some id
  taken-id =
      id-timer c s path (more_pairs s) (more-extra s) (c.python ∷ program) ∙ ground (arith, watched)

  -- Its submission is one of the loop's identifier.
  pub take_up-timer :
      (protected : List String) (now : ℕ) (watchers behind : List Watcher)
      → sub.is_ready ≡ true
      → submit protected now id watchers ≡ ok behind
      → take_up o sub protected now (timer_argv c s path) watchers ≡ ok behind
  take_up-timer protected now watchers behind ready done =
      take_up-owned o sub protected now (timer_argv c s path) (argv_of (timer_pairs c s path)) taken
        id watchers behind accepts-timer taken-id ready done
