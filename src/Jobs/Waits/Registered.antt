-- ===== src/Jobs/Waits/Registered.antt =====
-- src/goal.py, `command_wait`, against src/waitd.py, `submit`, and src/runtime.py,
-- `goal_wait_phase`: from a prepared wait to the watcher that is registered for it.
use wait_skill.Prelude.{
  true, false, ◌||◌, String, Option, none, some, List, [], ◌∷◌, ◌++◌, ok, ◌≡◌, refl, ap, ◌∙◌, arith,
  eq_iff, inl, inr, Bool-cases, elem, if◌then◌else◌,
}
use wait_skill.Prelude.Text.{blank, has_line_break, nonempty}
use wait_skill.Goal.State.{WaitMetadata}
use wait_skill.Watch.Arguments.{absolute_wait_argv}
use wait_skill.Watch.Delivery.{is_codex}
use wait_skill.Jobs.Parse.{
  Outside, parse_args, parse_job_args, check_job, has_same_path, is_bad_event_id,
}
use wait_skill.Jobs.Submit.{Submission, registered_argv, registered_argv-owned, accepted_job-owned}
use wait_skill.Jobs.Pairs.{
  flat, are_pairs, parse_args-flat, parse_job_args-flat, absolute_wait_argv-flat, validated-flat,
}
use wait_skill.Jobs.Waits.{wait_pairs, wait_job, submit_argv}
use wait_skill.Jobs.Waits.Parsed.{
  last_remote, endpoints, few, job_of-waits, label-waits, acceptable-waits, check_job-wait,
  resolved-waits, insert-waits, submit_argv-flat,
}

-- The order in which distinct paths are given does not matter.
same_path_order :
    (f : String → String) (a b c d : String)
    → has_same_path f [] (a ∷ b ∷ c ∷ d ∷ []) ≡ false
    → has_same_path f [] (a ∷ d ∷ b ∷ c ∷ []) ≡ false
unfolding has_same_path elem
same_path_order f a b c d h =
    ground
      (arith, eq_iff (f b) (f d), eq_iff (f d) (f b), eq_iff (f c) (f d), eq_iff (f d) (f c), h)

fewer_endpoints :
    (w : WaitMetadata) (note state node_id timeout endpoint : String) (remote : Option String)
    → are_pairs (wait_pairs w note state node_id timeout (endpoints remote ++ endpoint ∷ [])) ≡ true
    → are_pairs (wait_pairs w note state node_id timeout (endpoints remote)) ≡ true
fewer_endpoints w note state node_id timeout endpoint none fits = ground (arith, fits)
fewer_endpoints w note state node_id timeout endpoint (some r) fits = ground (arith, fits)

nonempty-id : (id : String) → is_bad_event_id (some id) ≡ false → nonempty id ≡ true
unfolding blank
nonempty-id String.[] h = ground (arith, h)
nonempty-id (String.◌∷◌ c id) h = refl

few-endpoints : (remote : Option String) → few (endpoints remote) ≡ true
few-endpoints none = refl
few-endpoints (some r) = refl

few-more :
    (remote : Option String) (endpoint : String) → few (endpoints remote ++ endpoint ∷ []) ≡ true
few-more none endpoint = refl
few-more (some r) endpoint = refl

module _ (o : Outside) (s : Submission) (w : WaitMetadata)
    (note state node_id timeout first : String) (others : List String) (remote : Option String)
    (noted : w.event_note ≡ some note)
    (fits : are_pairs
        (wait_pairs w note state node_id timeout (endpoints remote ++ s.endpoint ∷ []))
      ≡ true)
    (positive : o.is_positive_number timeout ≡ true)
    (single : (blank note || has_line_break note) ≡ false)
    (distinct : has_same_path o.canonical_path []
        (state ∷ w.log_file ∷ w.lock_file ∷ w.startup_file ∷ [])
      ≡ false)
    (id_ok : is_bad_event_id (some w.watch_id) ≡ false) (thread_given : nonempty w.thread ≡ true)
    (node_given : nonempty node_id ≡ true) (state_kept : s.within state ≡ state)
    (log_kept : s.within w.log_file ≡ w.log_file) (lock_kept : s.within w.lock_file ≡ w.lock_file)
    (startup_kept : s.within w.startup_file ≡ w.startup_file) where
  abbrev argv_of : List String → List String
  argv_of remotes = flat (wait_pairs w note state node_id timeout remotes) ++ "--" ∷ first ∷ others

  wait-parses :
      (remotes : List String)
      → few remotes ≡ true
      → are_pairs (wait_pairs w note state node_id timeout remotes) ≡ true
      → parse_job_args o (argv_of remotes)
        ≡ ok (wait_job w note state node_id (last_remote remotes) (first ∷ others))
  wait-parses remotes h are =
      let pairs = wait_pairs w note state node_id timeout remotes in
      parse_job_args-flat o pairs w.label first others are
        (acceptable-waits w note state node_id timeout o remotes h positive single)
        (label-waits w note state node_id timeout remotes h)
      ∙ (ap (check_job o) (job_of-waits w note state node_id timeout remotes (first ∷ others) h)
          ∙ check_job-wait w note state node_id timeout o (last_remote remotes) first others
              (same_path_order o.canonical_path state w.log_file w.lock_file w.startup_file
                distinct)
              id_ok (nonempty-id w.watch_id id_ok) thread_given node_given)

  wait-parsed :
      (remotes : List String)
      → few remotes ≡ true
      → are_pairs (wait_pairs w note state node_id timeout remotes) ≡ true
      → parse_args o (argv_of remotes)
        ≡ ok (wait_job w note state node_id (last_remote remotes) ("--" ∷ first ∷ others))
  wait-parsed remotes h are =
      let pairs = wait_pairs w note state node_id timeout remotes in
      parse_args-flat o pairs w.label first others are
        (acceptable-waits w note state node_id timeout o remotes h positive single)
        (label-waits w note state node_id timeout remotes h)
      ∙ ap ok (job_of-waits w note state node_id timeout remotes ("--" ∷ first ∷ others) h)

  wait-absolute :
      (remotes : List String)
      → few remotes ≡ true
      → are_pairs (wait_pairs w note state node_id timeout remotes) ≡ true
      → absolute_wait_argv s.within (argv_of remotes) ≡ argv_of remotes
  wait-absolute remotes h are =
      absolute_wait_argv-flat s.within (wait_pairs w note state node_id timeout remotes)
        (first ∷ others) are
      ∙ ap (λ pairs. flat pairs ++ "--" ∷ first ∷ others)
          (resolved-waits w note state node_id timeout s.within remotes h state_kept log_kept
            lock_kept startup_kept)

  registered-wait :
      registered_argv o s (argv_of (endpoints remote))
      ≡ ok (
          if is_codex w.client
          then argv_of (endpoints remote ++ s.endpoint ∷ [])
          else argv_of (endpoints remote))
  registered-wait =
      let fewer = fewer_endpoints w note state node_id timeout s.endpoint remote fits in
      let remotes = endpoints remote in
      let count = few-endpoints remote in
      let pairs = wait_pairs w note state node_id timeout remotes in
      registered_argv-owned o s (argv_of remotes) (argv_of remotes)
        (wait_job w note state node_id (last_remote remotes) (first ∷ others)) w.watch_id
        (accepted_job-owned o s (argv_of remotes) (argv_of remotes)
          (wait_job w note state node_id (last_remote remotes) ("--" ∷ first ∷ others))
          (wait_job w note state node_id (last_remote remotes) (first ∷ others))
          (wait-absolute remotes count fewer) (validated-flat pairs first others fewer)
          (wait-parsed remotes count fewer) refl (wait-parses remotes count fewer))
        refl
      ∙ ground (
        arith,
        insert-waits w note state node_id timeout s.endpoint remote (first ∷ others) fewer,
        thread_given,
      )

  pub registered-parses :
      (argv : List String) × (r : List String) × (endpoint : Option String) × (submit_argv w state
          node_id timeout remote
          (first ∷ others)
        ≡ some argv)
      × (registered_argv o s argv ≡ ok r)
      × (parse_job_args o r ≡ ok (wait_job w note state node_id endpoint (first ∷ others)))
  registered-parses =
      let sent = submit_argv-flat w note state node_id timeout remote (first ∷ others) noted in
      elim (Bool-cases (is_codex w.client)) [
        | inl codex ↦
            let remotes = endpoints remote ++ s.endpoint ∷ [] in
            (
              argv_of (endpoints remote),
              argv_of remotes,
              last_remote remotes,
              sent,
              registered-wait ∙ ground (arith, codex),
              wait-parses remotes (few-more remote s.endpoint) fits,
            )
        | inr other ↦
            let remotes = endpoints remote in
            (
              argv_of (endpoints remote),
              argv_of remotes,
              last_remote remotes,
              sent,
              registered-wait ∙ ground (arith, other),
              wait-parses remotes (few-endpoints remote)
                  (fewer_endpoints w note state node_id timeout s.endpoint remote fits),
            )
      ]
