-- ===== src/Jobs/Timers/Parsed.antt =====
-- The watcher of a loop, as its arguments are parsed.
use wait_skill.Prelude.{
  Bool, true, false, not, ◌&&◌, ◌||◌, String, none, some, List, [], ◌∷◌, ◌++◌, ◌==◌, ok, ◌≡◌, refl,
  arith, elem, all,
}
use wait_skill.Prelude.Text.{nonempty}
use wait_skill.Loop.State.{LoopState}
use wait_skill.Watch.Delivery.{validate_codex_resume_args}
use wait_skill.Jobs.Options.{Given, last_of, values_of}
use wait_skill.Jobs.Parse.{
  Outside, Job, all_acceptable, check_job, has_same_path, is_bad_event_id, no_items,
}
use wait_skill.Jobs.Names.{elem-all}
use wait_skill.Jobs.Pairs.{flat, pushed}
use wait_skill.Jobs.Timers.{Clock, timer_argv, timer_pairs, due_argv, id_text}

pub pushed-append :
    (xs ys : List (String × String)) (given : Given)
    → pushed (xs ++ ys) given ≡ pushed ys (pushed xs given)
pushed-append [] ys given = refl
pushed-append (x ∷ xs) ys given = pushed-append xs ys (x ∷ given)

-- The options that may stand behind those of every timer.
abbrev pub extra_options : List String
extra_options = "--no-notify" ∷ "--event-note" ∷ "--remote" ∷ []

abbrev pub are_extra : List (String × String) → Bool
are_extra [] = true
are_extra ((name, value) ∷ pairs) = elem name extra_options && are_extra pairs

abbrev pub others_than : (name alias : String) → String → Bool
others_than name alias x = not (x == name || x == alias)

-- They leave the values of the others.
pub last_of-extra :
    (name alias : String) (extra : List (String × String)) (given : Given)
    → all (others_than name alias) extra_options ≡ true
    → are_extra extra ≡ true
    → last_of name alias (pushed extra given) ≡ last_of name alias given
unfolding last_of
last_of-extra name alias [] given apart h = refl
last_of-extra name alias ((key, value) ∷ extra) given apart h =
    let other = elem-all (others_than name alias) key extra_options apart (ground (arith, h)) in
    let more = last_of-extra name alias extra ((key, value) ∷ given) apart (ground (arith, h)) in
    ground (arith, other, more)

pub values_of-extra :
    (name : String) (extra : List (String × String)) (given : Given)
    → all (others_than name name) extra_options ≡ true
    → are_extra extra ≡ true
    → values_of name (pushed extra given) ≡ values_of name given
unfolding values_of
values_of-extra name [] given apart h = refl
values_of-extra name ((key, value) ∷ extra) given apart h =
    let other = elem-all (others_than name name) key extra_options apart (ground (arith, h)) in
    let more = values_of-extra name extra ((key, value) ∷ given) apart (ground (arith, h)) in
    ground (arith, other, more)

pub all_acceptable-pushed :
    (o : Outside) (xs : List (String × String)) (given : Given)
    → all_acceptable o xs ≡ true
    → all_acceptable o given ≡ true
    → all_acceptable o (pushed xs given) ≡ true
all_acceptable-pushed o [] given h g = g
all_acceptable-pushed o (x ∷ xs) given h g =
    all_acceptable-pushed o xs (x ∷ given) (ground (arith, h)) (ground (arith, h, g))

module _ (o : Outside) (job : Job) (path session id log lock : String)
    (has_program : no_items job.command ≡ false) (no_resume : job.resume_args ≡ [])
    (no_goal : job.watch.goal_state ≡ none) (no_node : job.watch.goal_node ≡ none)
    (no_startup : job.startup_file ≡ none) (loop_given : job.watch.loop_state ≡ some path)
    (thread_given : job.watch.thread ≡ some session) (id_given : job.watch.event_id ≡ some id)
    (log_given : job.log_file ≡ some log) (lock_given : job.lock_file ≡ some lock)
    (distinct : has_same_path o.canonical_path [] (path ∷ log ∷ lock ∷ []) ≡ false)
    (id_ok : is_bad_event_id (some id) ≡ false) (own_session : nonempty session ≡ true)
    (own_id : nonempty id ≡ true) where
  pub check_job-timer : check_job o job ≡ ok job
  unfolding check_job validate_codex_resume_args
  check_job-timer = ground arith

pub timer_argv-flat :
    (c : Clock) (s : LoopState) (path : String)
    → timer_argv c s path
      ≡ flat (timer_pairs c s path) ++ "--" ∷ c.python ∷ due_argv c path (id_text s)
unfolding timer_argv
timer_argv-flat c s path = ground arith
