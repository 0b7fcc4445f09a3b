-- ===== src/Jobs/Submit.antt =====
-- src/waitd.py, `submit`: the arguments under which a watch is registered.
use wait_skill.Prelude.{
  ℕ, true, err, ◌≡◌, arith, Bool, true, not, ◌&&◌, ◌||◌, String, Option, none, some, List, [], ◌∷◌,
  ◌++◌, ◌==◌, Result, ok, err, ◌>>=◌, ◌>>◌, if◌then◌else◌,
}
use wait_skill.Registry.State.{Watcher, RegistryError}
use wait_skill.Registry
use wait_skill.Watch.Owner.{WatchArgs}
use wait_skill.Watch.Arguments.{absolute_wait_argv}
use wait_skill.Watch.Delivery.{is_codex}
use wait_skill.Jobs.Options.{JobError}
use wait_skill.Jobs.Parse.{Outside, Job, is_given, is_set, validated, parse_args, parse_job_args}

-- What a submission takes from outside: the directory of the client, as `cwd / value`; the lock and
-- the log of a standalone watch; a fresh identifier; the endpoint of codex, and whether
-- `preflight_codex_remote` finds it ready.
pub record Submission : Type 0 where
  pub within : String → String
  pub default_lock : String
  pub default_log : String
  pub fresh_id : String
  pub endpoint : String
  pub is_ready : Bool

abbrev default_of : (option path : String) → Option String → List String
default_of option path none = option ∷ path ∷ []
default_of option path (some given) = []

-- The paths of a standalone watch that are not given.
abbrev pub defaults : Submission → Job → List String
defaults s job =
    if is_given job.watch.goal_state || is_given job.watch.loop_state
    then []
    else default_of "--lock-file" s.default_lock job.lock_file
      ++ default_of "--log-file" s.default_log job.log_file

-- `argv[boundary:boundary] = items`, at the first `--`.
unfoldable pub insert_options : (items : List String) → List String → List String
insert_options items [] = []
insert_options items (item ∷ argv) =
    let rest = insert_options items argv in
    if item == "--" then items ++ (item ∷ argv) else item ∷ rest

-- `notification_enabled`
abbrev pub notifies : WatchArgs → Bool
notifies a = is_set a.thread && not a.no_notify

abbrev named : String → Option String → List String → List String
named id none argv = "--event-id" ∷ id ∷ argv
named id (some given) argv = argv

abbrev pub with_endpoint : (endpoint : String) → WatchArgs → List String → List String
with_endpoint endpoint a argv =
    if is_codex a.client && notifies a
    then insert_options ("--remote" ∷ endpoint ∷ []) argv
    else argv

-- The options that `submit` takes, with the arguments in which they stand.
unfoldable pub accepted_job :
    Outside → Submission → List String → Result JobError (Job × List String)
accepted_job o s argv = do
  let resolved = absolute_wait_argv s.within argv
  validated resolved
  options ← parse_args o resolved
  let whole = defaults s options ++ resolved
  job ← parse_job_args o whole
  ok (job, whole)

-- The arguments that are registered, when the endpoint of codex is ready.
unfoldable pub registered_argv : Outside → Submission → List String → Result JobError (List String)
registered_argv o s argv = do
  taken ← accepted_job o s argv
  let job = taken.0
  ok (with_endpoint s.endpoint job.watch (named s.fresh_id job.watch.event_id taken.1))

pub data SubmitError : Type 0 where
  bad_arguments no_endpoint : SubmitError
  id_refused : RegistryError → SubmitError

abbrev pub id_or : (fresh : String) → Option String → String
id_or fresh none = fresh
id_or fresh (some id) = id

abbrev pub needs_endpoint : WatchArgs → Bool
needs_endpoint a = is_codex a.client && notifies a

abbrev registers :
    Submission
    → (protected : List String) (now : ℕ) → Result JobError (Job × List String)
    → List Watcher
    → Result SubmitError (List Watcher)
registers s protected now (err e) watchers = err bad_arguments
registers s protected now (ok taken) watchers =
    let id = id_or s.fresh_id taken.0.watch.event_id in
    elim (Registry.State.submit protected now id watchers) [
      | err e ↦ err (id_refused e)
      | ok behind ↦
          if needs_endpoint taken.0.watch && not s.is_ready then err no_endpoint else ok behind
    ]

-- `submit`, with what it does to the registry.
unfoldable pub take_up :
    Outside
    → Submission
    → (protected : List String) (now : ℕ) (argv : List String) → List Watcher
    → Result SubmitError (List Watcher)
take_up o s protected now argv watchers = registers s protected now (accepted_job o s argv) watchers

-- A watch with an owner and an identifier is registered under its resolved arguments, with the
-- endpoint of codex.
pub accepted_job-owned :
    (o : Outside) (s : Submission) (argv r : List String) (options job : Job)
    → absolute_wait_argv s.within argv ≡ r
    → validated r ≡ ok tt
    → parse_args o r ≡ ok options
    → is_given options.watch.goal_state || is_given options.watch.loop_state ≡ true
    → parse_job_args o r ≡ ok job
    → accepted_job o s argv ≡ ok (job, r)
unfolding accepted_job
accepted_job-owned o s argv r options job same valid parsed owned checked = ground arith

pub registered_argv-owned :
    (o : Outside) (s : Submission) (argv r : List String) (job : Job) (id : String)
    → accepted_job o s argv ≡ ok (job, r)
    → job.watch.event_id ≡ some id
    → registered_argv o s argv ≡ ok (with_endpoint s.endpoint job.watch r)
unfolding registered_argv
registered_argv-owned o s argv r job id accepted own_id = ground arith

-- Its registration, when the endpoint is ready if it is needed.
pub take_up-owned :
    (o : Outside) (s : Submission) (protected : List String) (now : ℕ) (argv r : List String)
    (job : Job) (id : String) (watchers behind : List Watcher)
    → accepted_job o s argv ≡ ok (job, r)
    → job.watch.event_id ≡ some id
    → s.is_ready ≡ true
    → Registry.State.submit protected now id watchers ≡ ok behind
    → take_up o s protected now argv watchers ≡ ok behind
unfolding take_up
take_up-owned o s protected now argv r job id watchers behind accepted own_id ready done =
    ground arith
