-- ===== src/Jobs/Timers/Registered.antt =====
-- src/loop.py, `timer_argv`, against src/waitd.py, `submit`: the watcher that is registered for a
-- waiting loop.
use wait_skill.Prelude.{
  true, false, not, String, none, some, List, [], ◌∷◌, ◌++◌, ok, ◌≡◌, refl, ap, ◌∙◌, arith, elem,
  all,
}
use wait_skill.Prelude.Text.{nonempty}
use wait_skill.Loop.State.{LoopState}
use wait_skill.Watch.Arguments.{path_options}
use wait_skill.Jobs.Options.{Given, last_of, value_of, values_of}
use wait_skill.Jobs.Parse.{
  Outside, Job, job_of, all_acceptable, is_acceptable, client_known, client_given, parse_args,
  parse_job_args, check_job, has_same_path, is_bad_event_id,
}
use wait_skill.Jobs.Names.{elem-all}
use wait_skill.Jobs.Pairs.{
  flat, are_pairs, given_by, resolved, parse_args-flat, parse_job_args-flat,
}
use wait_skill.Jobs.Timers.{Clock, base_pairs, id_text}
use wait_skill.Jobs.Timers.Parsed.{
  pushed-append, extra_options, are_extra, others_than, last_of-extra, values_of-extra,
  all_acceptable-pushed, check_job-timer,
}

resolved-extra :
    (within : String → String) (extra : List (String × String))
    → are_extra extra ≡ true
    → resolved within extra ≡ extra
unfolding elem
resolved-extra within [] h = refl
resolved-extra within ((name, value) ∷ extra) h =
    let other =
      elem-all (λ x. not (elem x path_options)) name extra_options refl (ground (arith, h)) in
    let more = resolved-extra within extra (ground (arith, h)) in ground (arith, other, more)

module _ (c : Clock) (s : LoopState) (path : String) (extra : List (String × String))
    (are : are_extra extra ≡ true) where
  abbrev pub all_pairs : List (String × String)
  all_pairs = base_pairs c s path ++ extra

  abbrev base : Given
  base = given_by (base_pairs c s path)

  pub kept :
      (name alias : String)
      → all (others_than name alias) extra_options ≡ true
      → last_of name alias (given_by all_pairs) ≡ last_of name alias base
  kept name alias apart =
      ap (last_of name alias) (pushed-append (base_pairs c s path) extra [])
      ∙ last_of-extra name alias extra base apart are

  pub resolved-timer :
      (within : String → String)
      → within path ≡ path
      → within (c.log path (id_text s)) ≡ c.log path (id_text s)
      → within (c.lock (c.log path (id_text s))) ≡ c.lock (c.log path (id_text s))
      → resolved within all_pairs ≡ all_pairs
  unfolding elem
  resolved-timer within k1 k2 k3 = ground (arith, resolved-extra within extra are)

  acceptable-timer :
      (o : Outside)
      → o.is_positive_number (c.timeout s) ≡ true
      → all_acceptable o extra ≡ true
      → all_acceptable o (given_by all_pairs) ≡ true
  unfolding is_acceptable elem
  acceptable-timer o positive h =
      ap (all_acceptable o) (pushed-append (base_pairs c s path) extra [])
      ∙ all_acceptable-pushed o extra base h (ground (arith, positive, client_known s.client))

  abbrev pub job : List String → Job
  job = job_of (given_by all_pairs) "loop timer"

  label-timer : value_of "--label" (given_by all_pairs) ≡ some "loop timer"
  unfolding last_of
  label-timer = kept "--label" "--label" refl

  pub client-timer : client_given (given_by all_pairs) ≡ s.client
  unfolding last_of
  client-timer = ground (arith, kept "--client" "--client" refl, client_known s.client)

  pub loop-timer : (program : List String) → (job program).watch.loop_state ≡ some path
  unfolding last_of
  loop-timer program = kept "--loop-state" "--loop-state" refl

  pub no_goal-timer : (program : List String) → (job program).watch.goal_state ≡ none
  unfolding last_of
  no_goal-timer program = kept "--goal-state" "--goal-state" refl

  pub thread-timer : (program : List String) → (job program).watch.thread ≡ some s.session
  unfolding last_of
  thread-timer program = kept "--session" "--thread" refl

  pub id-timer : (program : List String) → (job program).watch.event_id ≡ some (id_text s)
  unfolding last_of
  id-timer program = kept "--event-id" "--event-id" refl

  module _ (o : Outside) (id : String) (program : List String) (first : String)
      (watched : s.watch_id ≡ some id) (accepted : all_acceptable o extra ≡ true)
      (positive : o.is_positive_number (c.timeout s) ≡ true)
      (distinct : has_same_path o.canonical_path []
          (path ∷ c.log path id ∷ c.lock (c.log path id) ∷ [])
        ≡ false)
      (id_ok : is_bad_event_id (some id) ≡ false) (own_session : nonempty s.session ≡ true)
      (own_id : nonempty id ≡ true) (fits : are_pairs all_pairs ≡ true) where
    checked : check_job o (job (first ∷ program)) ≡ ok (job (first ∷ program))
    unfolding last_of values_of
    checked =
        check_job-timer o (job (first ∷ program)) path s.session id (c.log path id)
          (c.lock (c.log path id)) refl
          (ap (values_of "--resume-arg") (pushed-append (base_pairs c s path) extra [])
            ∙ values_of-extra "--resume-arg" extra base refl are)
          (no_goal-timer (first ∷ program)) (kept "--goal-node" "--goal-node" refl)
          (kept "--startup-file" "--startup-file" refl) (loop-timer (first ∷ program))
          (thread-timer (first ∷ program)) (id-timer (first ∷ program) ∙ ground (arith, watched))
          (kept "--log-file" "--log-file" refl ∙ ground (arith, watched))
          (kept "--lock-file" "--lock-file" refl ∙ ground (arith, watched)) distinct id_ok
          own_session own_id

    pub parses-timer :
        parse_job_args o (flat all_pairs ++ "--" ∷ first ∷ program) ≡ ok (job (first ∷ program))
    parses-timer =
        parse_job_args-flat o all_pairs "loop timer" first program fits
          (acceptable-timer o positive accepted) label-timer
        ∙ checked

    pub parsed-timer :
        parse_args o (flat all_pairs ++ "--" ∷ first ∷ program) ≡ ok (job ("--" ∷ first ∷ program))
    parsed-timer =
        parse_args-flat o all_pairs "loop timer" first program fits
          (acceptable-timer o positive accepted) label-timer
