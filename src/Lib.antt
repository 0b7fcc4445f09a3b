-- ===== src/Lib.antt =====
-- The durable goals, loops and waits of wait-skill, a skill for coding agents that wait for external
-- events: a model of its Python code under src/, and theorems about it.
--
-- The parts of the program, and the files that model them:
--
-- src/goal.py keeps a goal as a graph of nodes in a JSON file. `GoalGraph` is the directory Goal.
-- - Goal/State is the schema (the typed dicts), and the errors; Goal/Paths is `paths_overlap`, with
--   the path normalisation that it calls for; Goal/Queries is what reads a goal: `ready_nodes`,
--   `nodes_conflict`, `lint`, `activity`.
-- - Goal/Checks, Goal/Acyclic and Goal/Validate are `GoalGraph.validate`, with its checks in the
--   order of the source.
-- - Goal/Graph (`create`, `edit_node`, `add_node`), Goal/Agents (`prepare_agent`, `start_node`,
--   `abort_agent`), Goal/Waits (the external wait, from `prepare_external_wait` to `wake_node`) and
--   Goal/Lifecycle (`complete_node` to `finish`) are the operations. An operation takes a state to a
--   new state, or to the error that the code raises. Goal/Commands is what the commands run.
-- - Goal/Store is `GoalStore`, the file of a goal; Goal/Store/Kept is about its edits.
-- - Goal/Acyclic/, Goal/Exclusion/, Goal/Ready and Goal/Wakes hold the proofs: the search for
--   cycles; an abstract account of what a command may do to the nodes, and the invariants that rest
--   on it; the nodes that `ready_nodes` chooses; a wake that is repeated.
--
-- src/loop.py keeps a loop, a task that is run again after an interval. Loop/State is its state and
-- validation, and `goal_is_open`, by which a loop reads the file of a goal; Loop/Lifecycle is
-- `LoopState` and the commands that change one. Loop/Bounds, Loop/Valid and Loop/Wakes hold proofs.
--
-- src/runtime.py and src/waitd.py serve watchers. Watch/Owner is whether a watcher still owns the
-- wait that a goal or a loop has on file, Watch/Delivery the command that wakes a client, and
-- Watch/Arguments the arguments of a watcher. Watch/Ownership relates them to goals and loops.
--
-- src/waitd.py keeps the record of each watch in a registry, and runs the watch. Daemon/State is the
-- record, the result log, and the actions that others can see; Daemon/Program is
-- `_activate_goal_wait`, `_execute_program` and what is saved of the result; Daemon/Delivery is
-- `_deliver`; Daemon/Watch is `_watch` and `_run_watch`. A run is the list of its actions. What it
-- meets (the checks for a cancellation, the end of each command, the clock) is a record, World. The
-- service may be killed anywhere: Daemon/Crashes takes any prefix of a run's actions, and the next
-- run starts from the files they leave. Two monitors judge action lists: Daemon/Once the starts of
-- the program, Daemon/Numbers the attempts to notify. Daemon/Late and Daemon/Starts lead runs
-- through the first, Daemon/Parts, Daemon/Attempts, Daemon/Sends, Daemon/Programs and Daemon/Runs
-- through the second, and Daemon/Sent carries it over a life. Daemon/Unconfirmed, Daemon/Replay,
-- Daemon/Success and Daemon/Pauses are about single deliveries.
--
-- Registry is the daemon's registry as a whole: Registry/State is `save`, which prunes it, `show`,
-- `cancel`, and what `submit` and `restore` do with it. Registry/Sorting and Registry/Pruning are
-- about what a save keeps, Registry/Prefixes about `show`, Registry/Protected about what loops wait
-- for, Registry/Resume about `resume_instruction` of src/runtime.py, Registry/Identifiers and
-- Registry/Cancelled about the requests that change the registry. The dict of the watches is the list
-- of its records in order; that a dict has one record for an identifier is a hypothesis where it is
-- needed, and `put` is the assignment to a key.
--
-- Jobs is how a watch is submitted. Jobs/Options is the parser of src/runtime.py (`job_parser`, as
-- argparse runs it), Jobs/Parse is `parse_job_args` with its checks, and Jobs/Submit what `submit` of
-- src/waitd.py makes of the arguments. Jobs/Waits is what src/goal.py sends for a prepared wait
-- (`prepared_wait_argv`; Jobs/Waits/Submitted is `submit_prepared_wait`), Jobs/Timers is `timer_argv`
-- of src/loop.py. Jobs/Names and Jobs/Pairs are about options that are written with their values, the
-- other files below Jobs about these two senders. Reconcile is `reconcile_loops` of src/waitd.py:
-- Reconcile/Steps and Reconcile/Repaired are about one entry and about all.
--
-- src/waitctl.py is Control: the client as the list of what it sends, starts and waits for;
-- Control/Commands is `main`. The service is a function from what has happened to its answers; an
-- answer that is missing is an `OSError`, or the `ValueError` or `TypeError` of one that is not a
-- JSON object, which `start_daemon` does not catch.
-- Control/Versions, Control/Ends and Control/Started hold proofs.
--
-- src/codex.py is the command that wakes codex. Codex/Rpc is `AppServer.call`, Codex/Wake is `wake`
-- and `main` to the exit code; Codex/Bytes and Codex/Frames are `take`, `frame` and `receive`.
-- Codex/Retries relates the exit codes to `_deliver`, Codex/Success is about the code 0.
-- Codex/Masking and Codex/Fragments describe frames as the peer reads and writes them, by RFC 6455,
-- and Codex/Messages puts them together; Codex/Fuel is about the loop of `receive`.
--
-- src/polling.py is Polling/Loop: `poll` over a list of attempts. Polling/Streaks holds its proofs.
--
-- Prelude holds what all share: Boolean tests, results with do blocks, lists, text, and dicts as
-- association lists in the order of insertion.
--
-- How the model stands to the code:
-- - What an operation reads from the clock or from `uuid` is an argument, in the order of the calls.
--   Times of a loop and of a poll are natural numbers of a unit small enough for the clock.
-- - Parameters stand for what is outside: the table of Unicode case folding, `absolute_path` and
--   the joining of paths, the startup receipts, the test of a lock, and the files of goals and loops.
-- - A null or missing value is an option. The types hold what the code checks of JSON types; a file
--   that cannot be read or that holds no state is `none`.
-- - A KeyError on a missing dependency, which a validated goal cannot raise, is not modelled: such a
--   dependency counts as not completed.
-- - What `AppServer` meets is a parameter: the exceptions of the connection, the upgrade and the
--   sends, and what arrives. The stream of a connection is the list of the bytes that arrive before
--   it ends; a deadline that passes ends it as well. A pong is sent without failure. `receive` runs on
--   fuel, one more than the bytes that arrive, since a frame takes two at least.
-- - The depth-first search runs on fuel, `work nodes`, which counts a round for every
--   node and every dependency: a round drops a dependency from the stack or ends a node, and enters
--   a node at most once. All other recursion is structural.
-- - A record of the registry has the fields that a run reads; its times and labels, and the texts of
--   a result, are left out. A save of the registry is a save of the record: other saves write the
--   same content. A cancellation while a run goes on is not seen in its later saves, so that the model
--   has more restarts than the code. A save succeeds; a failure of `_watch` that the code catches ends
--   the run, since the notification of a watcher's own failure is not modelled. The rounds of
--   `_activate_goal_wait` are a list, and a run that outlasts it goes on.
--
-- - The parser of a watcher's arguments takes no abbreviations. An item that starts with a dash is an
--   option unless it is a dash, a negative number in ASCII digits, or has a space, names no known
--   option and does not start with -h. What `positive_number`, `positive_int`, `canonical_path` and the directory of a submission
--   say is a parameter, so are its fresh identifier, its default files and the endpoint of codex.
-- - A write of a goal replaces the file whole, and the lock has its edits follow one another. The
--   comparison of two states is a parameter.
-- - The client's loops, and the wait for a receipt, run on fuel in milliseconds, one more than the 5
--   or 10 seconds that they are given: each pause takes one at least.
--
-- Not modelled: locks and sockets, argparse of the commands and printing, `follow` and the dispatch of
-- state commands (src/waitd.py), the dashboard (src/dashboard.py), the atomic write and the probe of
-- the app server (src/runtime.py), the connection and the JSON texts of src/codex.py, the installer:
-- input and output, or not yet reached.
pub mod Prelude
pub mod Goal
pub mod Loop
pub mod Watch
pub mod Polling
pub mod Daemon
pub mod Codex
pub mod Registry
pub mod Jobs
pub mod Reconcile
pub mod Control
