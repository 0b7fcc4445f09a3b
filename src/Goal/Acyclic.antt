-- ===== src/Goal/Acyclic.antt =====
-- src/goal.py, `GoalGraph._validate_acyclic`: a depth-first search with an explicit stack.
pub mod Chains
pub mod Measure
pub mod Rounds
pub mod Ranks
pub mod Roots
pub mod Verdict
use wait_skill.Prelude.{
  ℕ, zero, suc, ◌+◌, Bool, true, false, String, List, [], ◌∷◌, none, some, Result, ok, err, ◌>>=◌,
  length, elem, remove, if◌then◌else◌,
}
use wait_skill.Prelude.Dict.{Dict, lookup, keys}
use wait_skill.Goal.State.{GoalNode, Error, cycle, key_error, out_of_fuel}

-- A stack entry: a node, and the dependencies that its iterator has left.
abbrev pub Frame : Type 0
Frame = String × List String

pub record Search : Type 0 where
  pub visiting : List String
  pub visited : List String
  pub stack : List Frame

-- `iter(nodes[id]["depends_on"])`
abbrev pub dependencies : Dict GoalNode → String → Result Error (List String)
dependencies nodes id = elim (lookup id nodes) [
  | none ↦ err (key_error id)
  | some n ↦ ok n.depends_on
]

-- The top of the stack has met `dependency`, and `rest` of its iterator is left.
unfoldable pub meet :
    Dict GoalNode → Search → String → String → List String → List Frame → Result Error Search
meet nodes s id dependency rest below =
    if elem dependency s.visiting
    then err (cycle dependency)
    else if elem dependency s.visited
    then ok (record s { stack = (id, rest) ∷ below })
    else do
      ds ← dependencies nodes dependency
      ok (record {
        visiting = dependency ∷ s.visiting;
        visited = s.visited;
        stack = (dependency, ds) ∷ (id, rest) ∷ below;
      })

-- The iterator of the top is used up.
unfoldable pub finish_top : Search → String → List Frame → Search
finish_top s id below = record {
  visiting = remove id s.visiting;
  visited = id ∷ s.visited;
  stack = below;
}

-- One round of `while stack`.
unfoldable pub round : Dict GoalNode → Search → List Frame → Result Error Search
round nodes s [] = ok s
round nodes s ((id, []) ∷ below) = ok (finish_top s id below)
round nodes s ((id, d ∷ rest) ∷ below) = meet nodes s id d rest below

abbrev pub is_done : List Frame → Bool
is_done [] = true
is_done (_ ∷ _) = false

unfoldable pub run_search : ℕ → Dict GoalNode → Search → Result Error Search
run_search zero nodes s = if is_done s.stack then ok s else err out_of_fuel
run_search (suc fuel) nodes s =
    let more = (do s' ← round nodes s s.stack; run_search fuel nodes s') in
    if is_done s.stack then ok s else more

-- The work that a whole search can take: each node is pushed and popped once, and each of its
-- dependencies is met once.
unfoldable pub work : Dict GoalNode → ℕ
work [] = 0
work ((_, n) ∷ rest) = suc (length n.depends_on) + work rest

-- The body of the loop over the roots.
unfoldable pub search_root : Dict GoalNode → Search → String → Result Error Search
search_root nodes s root = if elem root s.visited then ok s else do
  ds ← dependencies nodes root
  run_search (work nodes) nodes
      (record { visiting = root ∷ s.visiting; visited = s.visited; stack = (root, ds) ∷ [] })

unfoldable pub search_roots : Dict GoalNode → List String → Search → Result Error Search
search_roots nodes [] s = ok s
search_roots nodes (root ∷ roots) s = do s' ← search_root nodes s root; search_roots nodes roots s'

abbrev pub nothing_seen : Search
nothing_seen = record { visiting = []; visited = []; stack = [] }

unfoldable pub validate_acyclic : Dict GoalNode → Result Error (Unit {0})
validate_acyclic nodes = do _ ← search_roots nodes (keys nodes) nothing_seen; ok tt
