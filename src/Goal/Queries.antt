-- ===== src/Goal/Queries.antt =====
-- src/goal.py, the read-only methods of `GoalGraph`: readiness, conflicts, lint and activity.
use wait_skill.Prelude.{
  Bool, true, false, not, ◌&&◌, ◌||◌, String, List, [], ◌∷◌, ◌++◌, Option, none, some, Result, ok,
  err, ◌>>=◌, any, all, is_empty, elem, select, if◌then◌else◌,
}
use wait_skill.Prelude.Dict.{Dict, lookup, insert, keys, select_values}
use wait_skill.Goal.Paths.{Folding, paths_overlap}
use wait_skill.Goal.State.{
  NodeStatus, Verification, GoalNode, GoalState, Error, same_status, status_in, is_agent, is_open,
  pending, dispatching, running, waiting, completed, failed, cancelled, opened, paused, finished,
  stopped, unknown_node, type_error,
}

unfoldable pub get_node : String → Dict GoalNode → Result Error GoalNode
get_node id nodes = elim (lookup id nodes) [ none ↦ err (unknown_node id) | some n ↦ ok n ]

-- The status behind `nodes[dependency]["status"]`; a missing key never has the wanted status.
abbrev pub is_completed_at : Dict GoalNode → String → Bool
is_completed_at nodes d = elim (lookup d nodes) [
  | none ↦ false
  | some n ↦ same_status n.status completed
]

unfoldable pub node_is_ready : GoalNode → Dict GoalNode → Bool
node_is_ready node nodes =
    same_status node.status pending && all (is_completed_at nodes) node.depends_on

abbrev pub raw_ready_from : Dict GoalNode → Dict GoalNode → Dict GoalNode
raw_ready_from nodes [] = []
raw_ready_from nodes ((id, n) ∷ rest) =
    let more = raw_ready_from nodes rest in if node_is_ready n nodes then (id, n) ∷ more else more

unfoldable pub raw_ready_nodes : GoalState → Dict GoalNode
raw_ready_nodes g = raw_ready_from g.nodes g.nodes

unfoldable pub nodes_with_status : List NodeStatus → Dict GoalNode → Dict GoalNode
nodes_with_status statuses = select_values (λ n. status_in statuses n.status)

unfoldable pub nodes_conflict : Folding → GoalNode → GoalNode → Bool
nodes_conflict fold first second =
    if first.read_only || second.read_only
    then false
    else if is_empty first.write_paths || is_empty second.write_paths
    then true
    else any (λ p. any (paths_overlap fold p) second.write_paths) first.write_paths

unfoldable pub conflicting_node_ids : Folding → GoalNode → Dict GoalNode → List String
conflicting_node_ids fold node others = keys (select_values (nodes_conflict fold node) others)

-- `sorted(set(expected) - set(artifacts))`, which the code tests for emptiness only.
unfoldable pub missing_artifacts_of : GoalNode → List String → List String
missing_artifacts_of node artifacts = select (λ a. not (elem a artifacts)) node.expected_artifacts

-- The loop of `ready_nodes`; `selected` is in the order in which candidates were accepted.
unfoldable pub select_ready :
    Folding → Dict GoalNode → Dict GoalNode → Dict GoalNode → Dict GoalNode
select_ready fold live selected [] = selected
select_ready fold live selected ((id, n) ∷ rest) =
    let skipped = select_ready fold live selected rest in
    let accepted = select_ready fold live (insert id n selected) rest in
    if not (is_empty (conflicting_node_ids fold n live))
      || not (is_empty (conflicting_node_ids fold n selected))
    then skipped
    else accepted

unfoldable pub ready_nodes : Folding → GoalState → Dict GoalNode
ready_nodes fold g =
    if not (is_open g.status) || not (is_empty (nodes_with_status (dispatching ∷ []) g.nodes))
    then []
    else select_ready fold (nodes_with_status (running ∷ waiting ∷ []) g.nodes) []
        (raw_ready_nodes g)

-- Whether another process owns the advisory lock on a path, at the time of the call.
abbrev pub LockTest : Type 0
LockTest = String → Bool

-- The lock file of a waiting node; without wait metadata the subscript of None raises.
abbrev pub lock_is_lost : LockTest → GoalNode → Result Error Bool
lock_is_lost held n = elim n.wait [
  | none ↦ err (type_error "wait")
  | some w ↦ ok (not (held w.lock_file))
]

abbrev pub keep_if : Bool → String → List String → List String
keep_if true id ids = id ∷ ids
keep_if false id ids = ids

unfoldable pub orphaned_from : LockTest → Dict GoalNode → Result Error (List String)
orphaned_from held [] = ok []
orphaned_from held ((id, n) ∷ rest) = do
  lost ← lock_is_lost held n
  ids ← orphaned_from held rest
  ok (keep_if lost id ids)

unfoldable pub orphaned_wait_ids : LockTest → GoalState → Result Error (List String)
orphaned_wait_ids held g = orphaned_from held (nodes_with_status (waiting ∷ []) g.nodes)

pub data Issue : Type 0 where
  write_path_conflict : (node_id : String) (conflicts_with : List String) → Issue
  unknown_write_scope missing_acceptance orphaned_wait : (node_id : String) → Issue
  terminal_dependency : (node_id : String) (blocked_by : List String) → Issue

-- The severities of the source: the last two kinds of issue are errors, the others are warnings.
abbrev pub is_error : Issue → Bool
is_error (terminal_dependency _ _) = true
is_error (orphaned_wait _) = true
is_error _ = false

abbrev pub issue_if : Bool → Issue → List Issue → List Issue
issue_if true i is = i ∷ is
issue_if false i is = is

unfoldable pub lint_ready : Folding → Dict GoalNode → Dict GoalNode → Dict GoalNode → List Issue
lint_ready fold live earlier [] = []
lint_ready fold live earlier ((id, n) ∷ rest) =
    let conflicting = conflicting_node_ids fold n live ++ conflicting_node_ids fold n earlier in
    issue_if (not (is_empty conflicting)) (write_path_conflict id conflicting)
      (lint_ready fold live (insert id n earlier) rest)

-- A dependency that failed or was cancelled.
abbrev pub is_blocker : Dict GoalNode → String → Bool
is_blocker nodes d = elim (lookup d nodes) [
  | none ↦ false
  | some n ↦ status_in (failed ∷ cancelled ∷ []) n.status
]

unfoldable pub lint_node : Dict GoalNode → String → GoalNode → List Issue
lint_node nodes id n =
    let blockers = select (is_blocker nodes) n.depends_on in
    issue_if (not n.read_only && is_empty n.write_paths) (unknown_write_scope id) (
      issue_if (is_agent n.kind && is_empty n.acceptance) (missing_acceptance id) (
        issue_if (same_status n.status pending && not (is_empty blockers))
          (terminal_dependency id blockers) []))

unfoldable pub lint_nodes : Dict GoalNode → Dict GoalNode → List Issue
lint_nodes nodes [] = []
lint_nodes nodes ((id, n) ∷ rest) = lint_node nodes id n ++ lint_nodes nodes rest

abbrev pub orphan_issues : List String → List Issue
orphan_issues [] = []
orphan_issues (id ∷ ids) = orphaned_wait id ∷ orphan_issues ids

unfoldable pub lint : Folding → LockTest → GoalState → Result Error (List Issue)
lint fold held g = do
  orphans ← orphaned_wait_ids held g
  let ready = (if is_open g.status then raw_ready_nodes g else [])
  let live = nodes_with_status (dispatching ∷ running ∷ waiting ∷ []) g.nodes
  ok (lint_ready fold live [] ready ++ (lint_nodes g.nodes g.nodes ++ orphan_issues orphans))

-- The text that `activity` returns.
pub data Activity : Type 0 where
  goal_paused goal_completed goal_cancelled : Activity
  dispatching_agent orphaned_watch ready_work running_work waiting_work : Activity
  verified awaiting_verification blocked idle : Activity

abbrev pub has_status : NodeStatus → Dict GoalNode → Bool
has_status s nodes = not (is_empty (nodes_with_status (s ∷ []) nodes))

abbrev pub all_completed : Dict GoalNode → Bool
all_completed nodes =
    not (is_empty nodes)
    && is_empty (
        nodes_with_status (pending ∷ dispatching ∷ running ∷ waiting ∷ failed ∷ cancelled ∷ [])
          nodes)

abbrev pub is_some : Option Verification → Bool
is_some none = false
is_some (some v) = true

-- `activity` behind the checks for a dispatch and for a lost watcher.
unfoldable pub activity_of : Folding → GoalState → Activity
activity_of fold g =
    if not (is_empty (ready_nodes fold g))
    then ready_work
    else if has_status running g.nodes
    then running_work
    else if has_status waiting g.nodes
    then waiting_work
    else if all_completed g.nodes
    then (if is_some g.verification then verified else awaiting_verification)
    else if not (is_empty g.nodes)
    then blocked
    else idle

unfoldable pub activity_open : Folding → LockTest → GoalState → Result Error Activity
activity_open fold held g =
    if has_status dispatching g.nodes
    then ok dispatching_agent
    else if has_status waiting g.nodes
    then (do
      orphans ← orphaned_wait_ids held g
      ok (if not (is_empty orphans) then orphaned_watch else activity_of fold g))
    else ok (activity_of fold g)

unfoldable pub activity : Folding → LockTest → GoalState → Result Error Activity
activity fold held g = elim g.status [
  | opened ↦ activity_open fold held g
  | paused ↦ ok goal_paused
  | finished ↦ ok goal_completed
  | stopped ↦ ok goal_cancelled
]
