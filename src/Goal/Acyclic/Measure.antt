-- ===== src/Goal/Acyclic/Measure.antt =====
-- The work that is left in a search, and that it never passes the fuel.
use wait_skill.Prelude.{
  ℕ, suc, ◌+◌, ◌≤◌, Bool, true, false, ◌||◌, ◌≡◌, String, List, [], ◌∷◌, some, arith, elem,
  elem-cons, elem-remove, eq_iff, length, if◌then◌else◌,
}
use wait_skill.Prelude.Dict.{Dict, lookup}
use wait_skill.Goal.State.{GoalNode}
use wait_skill.Goal.Acyclic.{Frame, Search, work, finish_top}

abbrev pub seen : Search → String → Bool
seen s k = elem k s.visiting || elem k s.visited

-- The work of the nodes that a search has not come to.
pub unseen : (String → Bool) → Dict GoalNode → ℕ
unseen p [] = 0
unseen p ((k, n) ∷ rest) = (if p k then 0 else suc (length n.depends_on)) + unseen p rest

abbrev pub frames_work : List Frame → ℕ
frames_work [] = 0
frames_work ((_, rest) ∷ below) = suc (length rest) + frames_work below

abbrev pub measure : Dict GoalNode → Search → ℕ
measure nodes s = unseen (seen s) nodes + frames_work s.stack

pub unseen-le-work : (p : String → Bool) (nodes : Dict GoalNode) → unseen p nodes ≤ work nodes
unfolding unseen work
unseen-le-work p [] = omega arith
unseen-le-work p ((k, n) ∷ rest) = ground (arith, unseen-le-work p rest)

-- A search that has come to more has less left.
pub unseen-anti :
    (p q : String → Bool) (nodes : Dict GoalNode)
    → ((k : String) → p k ≡ true → q k ≡ true)
    → unseen q nodes ≤ unseen p nodes
unfolding unseen
unseen-anti p q [] imp = omega arith
unseen-anti p q ((k, n) ∷ rest) imp = ground (arith, imp k, unseen-anti p q rest imp)

-- Coming to a node takes its work out of what is left.
pub unseen-come :
    (p q : String → Bool) (id : String) (n : GoalNode) (nodes : Dict GoalNode)
    → lookup id nodes ≡ some n
    → p id ≡ false
    → q id ≡ true
    → ((k : String) → p k ≡ true → q k ≡ true)
    → unseen q nodes + suc (length n.depends_on) ≤ unseen p nodes
unfolding unseen lookup
unseen-come p q id n [] e f g imp = cc
unseen-come p q id n ((k, m) ∷ rest) e f g imp =
    ground (arith, imp k, eq_iff k id, unseen-anti p q rest imp, unseen-come p q id n rest)

-- What the end of an iterator leaves of the visited and visiting nodes.
pub seen-finish_top :
    (s : Search) (id : String) (below : List Frame) (k : String)
    → seen s k ≡ true
    → seen (finish_top s id below) k ≡ true
unfolding finish_top
seen-finish_top s id below k h =
    ground (arith, elem-remove id k s.visiting, elem-cons k id s.visited)
