-- ===== src/Goal/Tests/Graphs.antt =====
-- The check for cycles, on graphs with and without one.
use wait_skill.Prelude.{String, [], ◌∷◌, ok, err, ◌≡◌, ◌↔◌, ◌⊎◌, refl, elem, arith}
use wait_skill.Prelude.Dict.{Dict, lookup, contains}
use wait_skill.Goal.State.{GoalNode, local, cycle}
use wait_skill.Goal.Acyclic.{validate_acyclic}
use wait_skill.Goal.Acyclic.Chains.{Chain, IsAcyclic}
use wait_skill.Goal.Acyclic.Verdict.{
  IsClosed, validate_acyclic_iff, validate_acyclic-cycle, validate_acyclic_ends,
}
use wait_skill.Goal.Samples.{program, node}

-- `c` depends on `a` and `b`, and `b` on `a`.
abbrev diamond : Dict GoalNode
diamond =
    ("c", node local ("a" ∷ "b" ∷ []) [])
    ∷ ("a", node local [] [])
    ∷ ("b", node local ("a" ∷ []) [])
    ∷ []

abbrev ring : Dict GoalNode
ring = ("a", node local ("b" ∷ []) []) ∷ ("b", node local ("a" ∷ []) []) ∷ []

diamond-IsClosed : IsClosed diamond
unfolding lookup contains elem
diamond-IsClosed = record { known = λ a b dep. ground arith }

validate_acyclic_iff_example : (validate_acyclic diamond ≡ ok tt) ↔ IsAcyclic diamond
validate_acyclic_iff_example = validate_acyclic_iff diamond diamond-IsClosed

validate_acyclic_ends_example :
    (validate_acyclic diamond ≡ ok tt) ⊎ ((d : String) × (validate_acyclic diamond ≡ err (cycle d)))
validate_acyclic_ends_example = validate_acyclic_ends diamond diamond-IsClosed

ring_rejected : validate_acyclic ring ≡ err (cycle "a")
unfolding program
ring_rejected = refl

validate_acyclic-cycle_example : Chain ring "a" "a"
validate_acyclic-cycle_example = validate_acyclic-cycle ring "a" ring_rejected
