-- ===== src/Jobs/Waits/Parsed.antt =====
-- The watcher that a goal asks for, as its arguments are parsed.
use wait_skill.Prelude.{
  Bool, true, false, String, Option, none, some, List, [], ◌∷◌, ◌++◌, ok, ◌≡◌, refl, arith, leb,
  length, ◌||◌, elem,
}
use wait_skill.Goal.State.{WaitMetadata}
use wait_skill.Prelude.Text.{blank, has_line_break, nonempty}
use wait_skill.Watch.Delivery.{validate_codex_resume_args}
use wait_skill.Jobs.Submit.{insert_options}
use wait_skill.Jobs.Pairs.{insert_options-flat}
use wait_skill.Jobs.Options.{last_of, values_of, value_of}
use wait_skill.Jobs.Parse.{
  Outside, all_acceptable, is_acceptable, job_of, check_job, client_known, has_same_path,
  is_bad_event_id,
}
use wait_skill.Jobs.Pairs.{flat, are_pairs, given_by, resolved}
use wait_skill.Jobs.Waits.{wait_pairs, wait_job, submit_argv, prepared_wait_argv}

-- The last one of the endpoints that are given.
abbrev pub last_remote : List String → Option String
last_remote [] = none
last_remote (r ∷ []) = some r
last_remote (r ∷ next ∷ rest) = last_remote (next ∷ rest)

abbrev pub endpoints : Option String → List String
endpoints none = []
endpoints (some remote) = remote ∷ []

abbrev pub few : List String → Bool
few remotes = leb (length remotes) 2

module _ (w : WaitMetadata) (note state node_id timeout : String) where
  pub job_of-waits :
      (remotes program : List String)
      → few remotes ≡ true
      → job_of (given_by (wait_pairs w note state node_id timeout remotes)) w.label program
        ≡ wait_job w note state node_id (last_remote remotes) program
  unfolding last_of values_of
  job_of-waits [] program h = ground (arith, client_known w.client)
  job_of-waits (r ∷ []) program h = ground (arith, client_known w.client)
  job_of-waits (r ∷ next ∷ []) program h = ground (arith, client_known w.client)
  job_of-waits (r ∷ next ∷ more ∷ rest) program h = ground (arith, h)

  pub label-waits :
      (remotes : List String)
      → few remotes ≡ true
      → value_of "--label" (given_by (wait_pairs w note state node_id timeout remotes))
        ≡ some w.label
  unfolding last_of
  label-waits [] h = refl
  label-waits (r ∷ []) h = refl
  label-waits (r ∷ next ∷ []) h = refl
  label-waits (r ∷ next ∷ more ∷ rest) h = ground (arith, h)

  pub acceptable-waits :
      (o : Outside) (remotes : List String)
      → few remotes ≡ true
      → o.is_positive_number timeout ≡ true
      → (blank note || has_line_break note) ≡ false
      → all_acceptable o (given_by (wait_pairs w note state node_id timeout remotes)) ≡ true
  unfolding is_acceptable elem
  acceptable-waits o [] h positive single = ground (arith, client_known w.client, positive, single)
  acceptable-waits o (r ∷ []) h positive single =
      ground (arith, client_known w.client, positive, single)
  acceptable-waits o (r ∷ next ∷ []) h positive single =
      ground (arith, client_known w.client, positive, single)
  acceptable-waits o (r ∷ next ∷ more ∷ rest) h positive single = ground (arith, h)

  pub check_job-wait :
      (o : Outside) (remote : Option String) (first : String) (others : List String)
      → has_same_path o.canonical_path [] (state ∷ w.startup_file ∷ w.log_file ∷ w.lock_file ∷ [])
        ≡ false
      → is_bad_event_id (some w.watch_id) ≡ false
      → nonempty w.watch_id ≡ true
      → nonempty w.thread ≡ true
      → nonempty node_id ≡ true
      → check_job o (wait_job w note state node_id remote (first ∷ others))
        ≡ ok (wait_job w note state node_id remote (first ∷ others))
  unfolding check_job validate_codex_resume_args
  check_job-wait o remote first others distinct id_ok own_id thread_given node_given = ground arith

  pub resolved-waits :
      (within : String → String) (remotes : List String)
      → few remotes ≡ true
      → within state ≡ state
      → within w.log_file ≡ w.log_file
      → within w.lock_file ≡ w.lock_file
      → within w.startup_file ≡ w.startup_file
      → resolved within (wait_pairs w note state node_id timeout remotes)
        ≡ wait_pairs w note state node_id timeout remotes
  unfolding elem
  resolved-waits within [] h a b c d = ground arith
  resolved-waits within (r ∷ []) h a b c d = ground arith
  resolved-waits within (r ∷ next ∷ []) h a b c d = ground arith
  resolved-waits within (r ∷ next ∷ more ∷ rest) h a b c d = ground (arith, h)

  pub insert-waits :
      (endpoint : String) (remote : Option String) (program : List String)
      → are_pairs (wait_pairs w note state node_id timeout (endpoints remote)) ≡ true
      → insert_options
          ("--remote" ∷ endpoint ∷ [])
          (flat (wait_pairs w note state node_id timeout (endpoints remote)) ++ "--" ∷ program)
        ≡ flat (wait_pairs w note state node_id timeout (endpoints remote ++ endpoint ∷ []))
          ++ "--" ∷ program
  insert-waits endpoint none program are =
      insert_options-flat ("--remote" ∷ endpoint ∷ []) (wait_pairs w note state node_id timeout [])
        program are
  insert-waits endpoint (some r) program are =
      insert_options-flat ("--remote" ∷ endpoint ∷ [])
        (wait_pairs w note state node_id timeout (r ∷ [])) program are

  pub submit_argv-flat :
      (remote : Option String) (program : List String)
      → w.event_note ≡ some note
      → submit_argv w state node_id timeout remote program
        ≡ some (flat (wait_pairs w note state node_id timeout (endpoints remote)) ++ "--" ∷ program)
  unfolding submit_argv prepared_wait_argv
  submit_argv-flat none program noted = ground arith
  submit_argv-flat (some r) program noted = ground arith
