-- ===== src/Goal/Exclusion/Moves.antt =====
-- The abstract account: one node begins, goes on or leaves, a node is added, or all are cancelled.
use wait_skill.Prelude.{Bool, true, false, ◌≡◌, refl, is_empty, String, List, [], ◌∷◌, some}
use wait_skill.Prelude.Dict.{Dict, lookup, insert, contains, map_values}
use wait_skill.Goal.State.{
  GoalNode, same_status, status_in, pending, dispatching, running, waiting, completed,
}
use wait_skill.Goal.Paths.{Folding}
use wait_skill.Goal.Queries.{node_is_ready, nodes_with_status, conflicting_node_ids}
use wait_skill.Goal.Lifecycle.{cancel_one}

-- At work: reserved for an agent, running, or waiting for an external event.
abbrev pub is_live : GoalNode → Bool
is_live n = status_in (dispatching ∷ running ∷ waiting ∷ []) n.status

abbrev pub is_dispatching : GoalNode → Bool
is_dispatching n = same_status n.status dispatching

abbrev pub is_completed : GoalNode → Bool
is_completed n = same_status n.status completed

-- What decides conflicts and readiness stays.
pub record SameScope (a b : GoalNode) : Type 0 where
  pub read_only : b.read_only ≡ a.read_only
  pub write_paths : b.write_paths ≡ a.write_paths
  pub depends_on : b.depends_on ≡ a.depends_on

-- Node `a` of `nodes` becomes `b`.
pub data Move (fold : Folding) (nodes : Dict GoalNode) (a b : GoalNode) : Type 0 where
  begin :
      SameScope a b
      → node_is_ready a nodes ≡ true
      → nodes_with_status (dispatching ∷ []) nodes ≡ []
      → conflicting_node_ids fold a (nodes_with_status (running ∷ waiting ∷ []) nodes) ≡ []
      → is_live b ≡ true
      → Move fold nodes a b
  go_on :
      SameScope a b
      → is_live a ≡ true
      → is_live b ≡ true
      → (is_dispatching b ≡ true → is_dispatching a ≡ true)
      → Move fold nodes a b
  complete : SameScope a b → is_live a ≡ true → is_completed b ≡ true → Move fold nodes a b
  leave : is_completed a ≡ false → is_live b ≡ false → is_completed b ≡ false → Move fold nodes a b

-- The nodes `ns` become `ms`.
pub data Change (fold : Folding) (ns ms : Dict GoalNode) : Type 0 where
  keep : ms ≡ ns → Change fold ns ms
  move :
      (id : String) (a b : GoalNode)
      → lookup id ns ≡ some a
      → Move fold ns a b
      → ms ≡ insert id b ns
      → Change fold ns ms
  grow :
      (id : String) (b : GoalNode)
      → contains id ns ≡ false
      → b.status ≡ pending
      → ms ≡ insert id b ns
      → Change fold ns ms
  stop : ms ≡ map_values cancel_one ns → Change fold ns ms

pub data Changes (fold : Folding) (ns : Dict GoalNode) : Dict GoalNode → Type 0 where
  here : Changes fold ns ns
  next : {ms ls : Dict GoalNode} → Changes fold ns ms → Change fold ms ls → Changes fold ns ls

pub empty_of_test {ℓ} : {A : Type ℓ} (xs : List A) → is_empty xs ≡ true → xs ≡ []
empty_of_test [] h = refl
empty_of_test (x ∷ xs) h = cc

pub scope :
    {a b : GoalNode}
    → b.read_only ≡ a.read_only
    → b.write_paths ≡ a.write_paths
    → b.depends_on ≡ a.depends_on
    → SameScope a b
scope p q r = record { read_only = p; write_paths = q; depends_on = r }
