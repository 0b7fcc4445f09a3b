-- ===== src/Goal/Waits.antt =====
-- src/goal.py, `GoalGraph`: the external wait of a node, from its preparation to the wake.
use wait_skill.Prelude.{
  ℕ, Bool, true, false, ◌&&◌, ◌||◌, String, [], ◌∷◌, Option, none, some, Result, ok, err, ◌>>=◌,
  ◌>>◌, raise_if, raise_unless, ltb, ◌==◌, if◌then◌else◌,
}
use wait_skill.Goal.State.{
  Client, NodeStatus, WaitEvent, WaitMetadata, WatchEvent, GoalNode, GoalState, Error, same_status,
  status_in, is_external, is_prepared, is_open, is_paused, same_event, client_name, running,
  waiting, prepared, active, text, optional_text, event_name, plain, goal_not_open, wrong_kind,
  wrong_status, already_waiting, already_active, watch_mismatch, no_wait, no_receipt,
  receipt_mismatch, receipt_expired, lock_lost, event_reused, type_error,
}
use wait_skill.Goal.Queries.{get_node, LockTest}
use wait_skill.Goal.Checks.{require_present}
use wait_skill.Goal.Graph.{record_event, set_node}

-- A value of the receipt's JSON object, as far as the code compares it.
pub data Field : Type 0 where
  absent other : Field
  value : String → Field

-- The startup receipt that a watcher writes. A deadline that is no finite number is `none`; times
-- are natural numbers of a unit small enough for the clock.
pub record Receipt : Type 0 where
  pub event : Field
  pub event_id : Field
  pub goal_node : Field
  pub client : Field
  pub thread : Field
  pub log_file : Field
  pub lock_file : Field
  pub activation_deadline : Option ℕ

abbrev pub field_is : Field → String → Bool
field_is absent s = false
field_is other s = false
field_is (value t) s = t == s

-- `receipt.get("client", "codex") == client`
abbrev pub client_is : Field → Client → Bool
client_is absent c = "codex" == client_name c
client_is f c = field_is f (client_name c)

unfoldable pub startup_receipt_deadline :
    Receipt → WaitMetadata → (node_id watch_id : String) → Result Error ℕ
startup_receipt_deadline r w node_id watch_id = do
  raise_unless
      (field_is r.event "watcher_started"
        && (field_is r.event_id watch_id
            && (field_is r.goal_node node_id
                && (client_is r.client w.client
                    && (field_is r.thread w.thread
                        && (field_is r.log_file w.log_file && field_is r.lock_file w.lock_file))))))
      (receipt_mismatch node_id)
  elim r.activation_deadline [ none ↦ err (receipt_mismatch node_id) | some t ↦ ok t ]

-- `absolute` is `absolute_path`, which rests on the working and home directories.
unfoldable pub prepare_external_wait :
    (absolute : String → String) (id label event_note log_file lock_file startup_file : String)
    (token now later : String) (g : GoalState)
    → Result Error (GoalState × String)
prepare_external_wait absolute id label event_note log_file lock_file startup_file token now later
      g =
    do
      raise_unless (is_open g.status) (goal_not_open g.status)
      require_present (plain "goal session") g.thread
      thread ← elim g.thread [ none ↦ err (type_error "thread") | some t ↦ ok t ]
      n ← get_node id g.nodes
      raise_unless (is_external n.kind) (wrong_kind id n.kind)
      raise_unless (same_status n.status running) (wrong_status id n.status)
      elim n.wait [ none ↦ ok tt | some _ ↦ err (already_waiting id) ]
      let w : WaitMetadata = record {
        label = label;
        client = g.client;
        thread = thread;
        log_file = absolute log_file;
        lock_file = absolute lock_file;
        startup_file = absolute startup_file;
        since = now;
        watch_id = token;
        phase = prepared;
        event_note = some event_note;
      }
      let n' = record n { wait = some w }
      ok (
        record_event "prepare_wait" (some id) (("watch_id", text token) ∷ []) later
            (set_node id n' g),
        token,
      )

abbrev pub current_wait : String → GoalNode → Result Error WaitMetadata
current_wait id n = elim n.wait [ none ↦ err (no_wait id) | some w ↦ ok w ]

-- `read_receipt` is the file that holds the receipt, if it can be read; `time` is `time.time()`.
unfoldable pub activate_external_wait :
    (read_receipt : String → Option Receipt) (held : LockTest) (time : ℕ) (id watch_id now : String)
    (g : GoalState)
    → Result Error GoalState
activate_external_wait read_receipt held time id watch_id now g = do
  raise_unless (is_open g.status) (goal_not_open g.status)
  n ← get_node id g.nodes
  raise_unless (same_status n.status running) (no_wait id)
  w ← current_wait id n
  raise_unless (is_prepared w.phase) (already_active id)
  raise_unless (w.watch_id == watch_id) (watch_mismatch id)
  receipt ← elim (read_receipt w.startup_file) [ none ↦ err (no_receipt id) | some r ↦ ok r ]
  deadline ← startup_receipt_deadline receipt w id watch_id
  raise_if (ltb deadline time) (receipt_expired id)
  raise_unless (held w.lock_file) (lock_lost id)
  let n' = record n { wait = some (record w { phase = active }); status = waiting }
  ok (
      record_event "activate_wait" (some id) (("watch_id", text watch_id) ∷ []) now
        (set_node id n' g))

unfoldable pub abort_external_wait :
    (id watch_id now : String) (g : GoalState) → Result Error GoalState
abort_external_wait id watch_id now g = do
  raise_unless (is_open g.status || is_paused g.status) (goal_not_open g.status)
  n ← get_node id g.nodes
  raise_unless (is_external n.kind && status_in (running ∷ waiting ∷ []) n.status) (no_wait id)
  w ← current_wait id n
  raise_unless (w.watch_id == watch_id) (watch_mismatch id)
  let n' = record n { status = running; wait = none }
  ok (record_event "abort_wait" (some id) (("watch_id", text watch_id) ∷ []) now (set_node id n' g))

abbrev pub same_option : Option String → Option String → Bool
same_option none none = true
same_option (some a) (some b) = a == b
same_option _ _ = false

-- The event of the last wake has the given id.
abbrev pub is_repeated : Option WatchEvent → String → Bool
is_repeated none id = false
is_repeated (some e) id = e.event_id == id

abbrev pub is_same_wake : Option WatchEvent → WaitEvent → Option String → Bool
is_same_wake none event status = false
is_same_wake (some e) event status = same_event e.event event && same_option e.status status

-- The first delivery of an event: the wait ends and the node runs again.
unfoldable pub deliver :
    (id event_id : String) (event : WaitEvent) (external_status : Option String)
    (now later : String) (n : GoalNode) (g : GoalState)
    → Result Error GoalState
deliver id event_id event external_status now later n g = do
  raise_unless (is_external n.kind) (wrong_kind id n.kind)
  raise_unless (same_status n.status waiting) (wrong_status id n.status)
  w ← elim n.wait [ none ↦ err (type_error "wait") | some w ↦ ok w ]
  raise_unless (event_id == w.watch_id) (watch_mismatch id)
  let e : WatchEvent = record {
    event_id = event_id;
    event = event;
    status = external_status;
    at = now;
  }
  let n' = record n { last_event = some e; status = running; wait = none }
  let details =
      ("event", event_name event)
      ∷ ("event_id", text event_id)
      ∷ ("status", optional_text external_status)
      ∷ []
  ok (record_event "wake_node" (some id) details later (set_node id n' g))

-- The state, the node's status, and whether the event had been delivered before.
unfoldable pub wake_node :
    (id event_id : String) (event : WaitEvent) (external_status : Option String)
    (now later : String) (g : GoalState)
    → Result Error (GoalState × NodeStatus × Bool)
wake_node id event_id event external_status now later g = do
  n ← get_node id g.nodes
  if is_repeated n.last_event event_id
      then (do
        raise_unless (is_same_wake n.last_event event external_status) (event_reused event_id)
        ok (g, n.status, true))
      else (do
        g' ← deliver id event_id event external_status now later n g
        ok (g', running, false))
