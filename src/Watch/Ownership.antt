-- ===== src/Watch/Ownership.antt =====
-- Which watches own a wait: src/runtime.py against the operations of src/goal.py and src/loop.py.
use wait_skill.Prelude.{
  ◌≡◌, refl, arith, true, false, String, Option, none, some, ℕ, ok, Option-cases, inl, inr, eq_refl,
  ap, ◌∙◌,
}
use wait_skill.Prelude.Dict.{Dict, lookup, insert}
use wait_skill.Goal.State.{
  WatchEvent, WaitEvent, NodeStatus, Client, Error, GoalNode, GoalState, WaitMetadata, client_name,
  prepared, active,
}
use wait_skill.Goal.State
use wait_skill.Goal.Queries.{get_node, LockTest}
use wait_skill.Goal.Graph.{record_event, set_node}
use wait_skill.Goal.Wakes.{lookup-insert_same}
use wait_skill.Goal.Waits.{
  prepare_external_wait, activate_external_wait, abort_external_wait, wake_node, deliver, Receipt,
}
use wait_skill.Loop.State.{GoalFiles, LoopState, goal_is_open, is_active, is_waiting}
use wait_skill.Loop.Wakes.{complete-schedule}
use wait_skill.Loop.Lifecycle.{complete, schedule, record_run, append_event}
use wait_skill.Watch.Owner.{
  WatchArgs, is_prepared_watch, is_active_watch, is_invalid, goal_wait_phase, node_phase,
  loop_wait_is_current, LoopFiles, goal_watch,
}

module _ (files : GoalFiles) (path id : String) (g g' : GoalState)
    (saved : files path ≡ some g') where
  phase_at :
      (a : WatchArgs) (n : GoalNode) (nodes : Dict GoalNode)
      → a.goal_state ≡ some path
      → a.goal_node ≡ some id
      → g'.nodes ≡ insert id n nodes
      → goal_wait_phase files a ≡ node_phase a n
  unfolding goal_wait_phase
  phase_at a n nodes here named stored =
      let found : lookup id g'.nodes ≡ some n =
        ap (lookup id) stored ∙ lookup-insert_same id n nodes in
      ground (arith, saved, here)

  -- When `prepare_external_wait` returns a watch and the goal is saved, the watcher that runs with
  -- the goal's client and session, for this node and watch, finds its wait prepared.
  pub prepare-goal_wait_phase :
      (absolute : String → String) (label event_note log_file lock_file startup_file : String)
      (token now later watch_id : String)
      → prepare_external_wait absolute id label event_note log_file lock_file startup_file token now
          later g
        ≡ ok (g', watch_id)
      → goal_wait_phase files (goal_watch g path id watch_id) ≡ is_prepared_watch
  unfolding prepare_external_wait get_node record_event set_node
  prepare-goal_wait_phase absolute label note log lock startup token now later watch_id h =
      elim (Option-cases (lookup id g.nodes)) [
        | inl e ↦ ground arith
        | inr (n, e) ↦ elim (Option-cases g.thread) [
          | inl none_set ↦ ground arith
          | inr (thread, given) ↦
              let w : WaitMetadata = record {
                label = label;
                client = g.client;
                thread = thread;
                log_file = absolute log;
                lock_file = absolute lock;
                startup_file = absolute startup;
                since = now;
                watch_id = token;
                phase = prepared;
                event_note = some note;
              } in
              let b : GoalNode = record n { wait = some w } in
              let stored : g'.nodes ≡ insert id b g.nodes = ground arith in
              let same : token ≡ watch_id = ground arith in
              let a = goal_watch g path id watch_id in
              let own_id = eq_refl token in
              let own_thread = eq_refl thread in
              let own_client = eq_refl (client_name g.client) in
              phase_at a b g.nodes refl refl stored ∙ ground arith
        ]
      ]

  -- A watcher that found its wait prepared finds it active once `activate_external_wait` has
  -- succeeded on its node and its goal is saved.
  pub activate-goal_wait_phase :
      (read_receipt : String → Option Receipt) (held : LockTest) (time : ℕ) (watch_id now : String)
      (a : WatchArgs) (before : GoalFiles)
      → before path ≡ some g
      → a.goal_state ≡ some path
      → a.goal_node ≡ some id
      → goal_wait_phase before a ≡ is_prepared_watch
      → activate_external_wait read_receipt held time id watch_id now g ≡ ok g'
      → goal_wait_phase files a ≡ is_active_watch
  unfolding activate_external_wait get_node record_event set_node goal_wait_phase
  activate-goal_wait_phase read_receipt held time watch_id now a before read here named was h =
      elim (Option-cases (lookup id g.nodes)) [
        | inl e ↦ ground arith
        | inr (n, e) ↦ elim (Option-cases n.wait) [
          | inl no_wait ↦ ground arith
          | inr (w, given) ↦
              let b : GoalNode = record n {
                wait = some (record w { phase = active });
                status = State.waiting;
              } in
              let stored : g'.nodes ≡ insert id b g.nodes = ground arith in
              phase_at a b g.nodes here named stored ∙ ground arith
        ]
      ]

  -- Once `abort_external_wait` has succeeded on a node and the goal is saved, no watcher of this
  -- goal and node finds a wait of its own.
  pub abort-goal_wait_phase :
      (watch_id now : String) (a : WatchArgs)
      → a.goal_state ≡ some path
      → a.goal_node ≡ some id
      → abort_external_wait id watch_id now g ≡ ok g'
      → goal_wait_phase files a ≡ is_invalid
  unfolding abort_external_wait get_node record_event set_node
  abort-goal_wait_phase watch_id now a here named h = elim (Option-cases (lookup id g.nodes)) [
    | inl e ↦ ground arith
    | inr (n, e) ↦
        let b : GoalNode = record n { wait = none; status = State.running } in
        let stored : g'.nodes ≡ insert id b g.nodes = ground arith in
        phase_at a b g.nodes here named stored
  ]

  -- Once `wake_node` has delivered a new event to a node and the goal is saved, no watcher of this
  -- goal and node finds a wait of its own.
  pub wake-goal_wait_phase :
      (event_id : String) (event : WaitEvent) (external_status : Option String) (now later : String)
      (status : NodeStatus) (a : WatchArgs)
      → a.goal_state ≡ some path
      → a.goal_node ≡ some id
      → wake_node id event_id event external_status now later g ≡ ok (g', status, false)
      → goal_wait_phase files a ≡ is_invalid
  unfolding wake_node deliver get_node record_event set_node
  wake-goal_wait_phase event_id event external_status now later status a here named h =
      elim (Option-cases (lookup id g.nodes)) [
        | inl e ↦ ground arith
        | inr (n, e) ↦
            let w : WatchEvent = record {
              event_id = event_id;
              event = event;
              status = external_status;
              at = now;
            } in
            let b : GoalNode = record n {
              last_event = some w;
              status = State.running;
              wait = none;
            } in
            let stored : g'.nodes ≡ insert id b g.nodes = ground arith in
            phase_at a b g.nodes here named stored
      ]

-- When an iteration is completed and the loop stays active, and the loop is saved and its goal is
-- still open, a watcher with the loop's client and session owns the new wait.
pub complete-loop_wait_is_current :
    (goals goals' : GoalFiles) (loops : LoopFiles) (path summary token : String) (now at : ℕ)
    (s s' : LoopState) (a : WatchArgs)
    → complete goals summary token now at s ≡ ok s'
    → is_active s'.status ≡ true
    → loops path ≡ some s'
    → goal_is_open goals' s' ≡ true
    → a.event_id ≡ some token
    → a.client ≡ s'.client
    → a.thread ≡ some s'.session
    → loop_wait_is_current goals' loops path a ≡ true
unfolding loop_wait_is_current schedule append_event record_run
complete-loop_wait_is_current goals goals' loops path summary token now at s s' a h e saved open_now
      i c t =
    let (was, q) = complete-schedule goals summary token now at s s' h e in
    let own_id = eq_refl token in
    let own_session = eq_refl s'.session in
    let own_client = eq_refl (client_name s'.client) in
    let waits_now : is_waiting s'.phase ≡ true = ap (λ u. is_waiting u.phase) q in
    let watched : s'.watch_id ≡ some token = ap (λ u. u.watch_id) q in
    ground (arith, saved, open_now, waits_now, watched, e)
