-- ===== src/Jobs/Parse.antt =====
-- src/runtime.py, `parse_job_args` and the checks that it makes.
use wait_skill.Prelude.{
  Bool, true, false, not, ◌&&◌, ◌||◌, String, Option, none, some, List, [], ◌∷◌, ◌==◌, Result, ok,
  err, ◌>>=◌, ◌>>◌, raise_if, raise_unless, any, elem, length, ltb, if◌then◌else◌, ◌≡◌, refl,
}
use wait_skill.Prelude.Text.{codes, is_space, blank, has_line_break, nonempty}
use wait_skill.Goal.State.{Client, client_name, claude, codewiz, codex, copilot, cursor}
use wait_skill.Watch.Owner.{WatchArgs}
use wait_skill.Watch.Arguments.{validate_job_argv}
use wait_skill.Watch.Delivery.{is_codex, validate_codex_resume_args}
use wait_skill.Jobs.Options.{
  Given, JobError, bad_usage, bad_value, no_label, no_command, bad_resume, same_path, bad_event_id,
  partial_handshake, two_owners, partial_integration, parse_options, last_of, value_of, values_of,
}

-- What the parser takes from outside: whether `positive_number` and `positive_int` accept a text,
-- and `canonical_path`.
pub record Outside : Type 0 where
  pub is_positive_number : String → Bool
  pub is_positive_int : String → Bool
  pub canonical_path : String → String

-- A parsed job: what the checks of ownership read, and the rest.
pub record Job : Type 0 where
  pub watch : WatchArgs
  pub label : String
  pub event_note : Option String
  pub remote : Option String
  pub resume_args : List String
  pub lock_file : Option String
  pub log_file : Option String
  pub startup_file : Option String
  pub command : List String

-- `--client`, one of CLIENTS.
abbrev pub client_of : String → Option Client
client_of name =
    if name == "codex"
    then some codex
    else if name == "claude"
    then some claude
    else if name == "codewiz"
    then some codewiz
    else if name == "copilot"
    then some copilot
    else if name == "cursor"
    then some cursor
    else none

pub client_known : (c : Client) → client_of (client_name c) ≡ some c
client_known codex = refl
client_known claude = refl
client_known codewiz = refl
client_known copilot = refl
client_known cursor = refl

abbrev is_client : String → Bool
is_client name = elim (client_of name) [ none ↦ false | some c ↦ true ]

abbrev number_options : List String
number_options =
    "--timeout" ∷ "--activation-interval" ∷ "--activation-timeout" ∷ "--wake-ack-timeout"
    ∷ "--notification-timeout" ∷ "--notification-retry-interval" ∷ []

-- The `type` and the `choices` of an option.
unfoldable pub is_acceptable : Outside → String × String → Bool
is_acceptable o (name, value) =
    if elem name number_options
    then o.is_positive_number value
    else if name == "--max-notification-attempts"
    then o.is_positive_int value
    else if name == "--client"
    then is_client value
    else if name == "--event-note"
    then not (blank value || has_line_break value)
    else true

abbrev pub all_acceptable : Outside → Given → Bool
all_acceptable o [] = true
all_acceptable o (pair ∷ given) = is_acceptable o pair && all_acceptable o given

abbrev pub client_given : Given → Client
client_given given = elim (value_of "--client" given) [
  | none ↦ codex
  | some name ↦ elim (client_of name) [ none ↦ codex | some client ↦ client ]
]

-- The namespace, with its label and its command.
abbrev pub job_of : Given → (label : String) → List String → Job
job_of given label command = record {
  watch = record {
    client = client_given given;
    thread = last_of "--session" "--thread" given;
    no_notify = elim (value_of "--no-notify" given) [ none ↦ false | some _ ↦ true ];
    event_id = value_of "--event-id" given;
    goal_state = value_of "--goal-state" given;
    goal_node = value_of "--goal-node" given;
    loop_state = value_of "--loop-state" given;
  };
  label = label;
  event_note = value_of "--event-note" given;
  remote = value_of "--remote" given;
  resume_args = values_of "--resume-arg" given;
  lock_file = value_of "--lock-file" given;
  log_file = value_of "--log-file" given;
  startup_file = value_of "--startup-file" given;
  command = command;
}

abbrev pub labelled : Given → List String → Result JobError Job
labelled given command = elim (value_of "--label" given) [
  | none ↦ err no_label
  | some label ↦ ok (job_of given label command)
]

-- `job_parser().parse_args`
unfoldable pub parse_args : Outside → List String → Result JobError Job
parse_args o argv = do
  parsed ← parse_options argv []
  raise_unless (all_acceptable o parsed.0) bad_value
  labelled parsed.0 parsed.1

abbrev pub is_given : Option String → Bool
is_given none = false
is_given (some path) = true

-- A text that is given and not empty.
abbrev pub is_set : Option String → Bool
is_set none = false
is_set (some s) = nonempty s

abbrev pub present : List (Option String) → List String
present [] = []
present (none ∷ paths) = present paths
present (some path ∷ paths) = path ∷ present paths

-- `validate_distinct_paths`, over the paths that are given.
unfoldable pub has_same_path :
    (canonical : String → String) → (seen : List String) → List String → Bool
has_same_path canonical seen [] = false
has_same_path canonical seen (path ∷ paths) =
    elem (canonical path) seen || has_same_path canonical (canonical path ∷ seen) paths

abbrev pub paths_of : Job → List (Option String)
paths_of job =
    job.watch.goal_state ∷ job.watch.loop_state ∷ job.startup_file ∷ job.log_file ∷ job.lock_file
    ∷ []

abbrev pub is_bad_event_id : Option String → Bool
is_bad_event_id none = false
is_bad_event_id (some id) = blank id || ltb 128 (length (codes id)) || any is_space (codes id)

abbrev pub behind_boundary : List String → List String
behind_boundary [] = []
behind_boundary (item ∷ rest) = if item == "--" then rest else item ∷ rest

abbrev pub no_items : List String → Bool
no_items [] = true
no_items (item ∷ rest) = false

abbrev pub resume_refused : Job → Bool
resume_refused job = elim (validate_codex_resume_args job.resume_args) [
  | ok _ ↦ false
  | err e ↦ true
]

abbrev pub begins_handshake : Job → Bool
begins_handshake job =
    is_given job.watch.goal_state || (is_set job.watch.goal_node || is_given job.startup_file)

abbrev pub has_handshake : Job → Bool
has_handshake job =
    is_given job.watch.goal_state && (is_set job.watch.goal_node && is_given job.startup_file)

abbrev pub is_integrated : Job → Bool
is_integrated job =
    is_set job.watch.thread
    && (is_set job.watch.event_id && (is_given job.lock_file && is_given job.log_file))

abbrev pub has_owner : Job → Bool
has_owner job = is_given job.watch.goal_state || is_given job.watch.loop_state

-- The checks behind the parser, in the order of the code.
unfoldable pub check_job : Outside → Job → Result JobError Job
check_job o job = do
  raise_if (no_items job.command) no_command
  raise_if (is_codex job.watch.client && resume_refused job) bad_resume
  raise_if (has_same_path o.canonical_path [] (present (paths_of job))) same_path
  raise_if (is_bad_event_id job.watch.event_id) bad_event_id
  raise_if (begins_handshake job && not (has_handshake job)) partial_handshake
  raise_if (is_given job.watch.goal_state && is_given job.watch.loop_state) two_owners
  raise_if (has_owner job && not (is_integrated job)) partial_integration
  ok job

abbrev pub validated : List String → Result JobError (Unit {0})
validated argv = elim (validate_job_argv argv) [ ok _ ↦ ok tt | err e ↦ err bad_usage ]

unfoldable pub parse_job_args : Outside → List String → Result JobError Job
parse_job_args o argv = do
  validated argv
  job ← parse_args o argv
  check_job o (record job { command = behind_boundary job.command })
