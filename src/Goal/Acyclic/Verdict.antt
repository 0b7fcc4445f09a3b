-- ===== src/Goal/Acyclic/Verdict.antt =====
-- What `_validate_acyclic` of src/goal.py decides.
use wait_skill.Prelude.{
  true, ◌≡◌, ◌↔◌, ◌⊎◌, refl, String, List, [], ◌∷◌, ok, err, arith, inl, inr, subst,
}
use wait_skill.Prelude.Dict.{Dict, contains, contains-eq-lookup}
use wait_skill.Goal.State.{GoalNode, cycle}
use wait_skill.Goal.Acyclic.{validate_acyclic}
use wait_skill.Goal.Acyclic.Chains.{Depends, Chain, IsAcyclic, names}
use wait_skill.Goal.Acyclic.Ranks.{ordered-IsAcyclic}
use wait_skill.Goal.Acyclic.Roots.{whole_search, elem-keys, roots_as_frames}
use wait_skill.Goal.Acyclic.Rounds.{ended, closed, broke}

-- Every dependency is a node.
pub record IsClosed (nodes : Dict GoalNode) : Type 0 where
  pub known : (a b : String) → Depends nodes a b → contains b nodes ≡ true

-- Among nodes whose dependencies are all nodes, the search ends within its fuel: it accepts the
-- graph or names a cycle.
pub validate_acyclic_ends :
    (nodes : Dict GoalNode)
    → IsClosed nodes
    → (validate_acyclic nodes ≡ ok tt) ⊎ ((d : String) × (validate_acyclic nodes ≡ err (cycle d)))
unfolding validate_acyclic
validate_acyclic_ends nodes closed_nodes = elim (whole_search nodes) [
  | ended s e inv done grew ↦ inl (rw e)
  | closed d e loop ↦ inr (d, rw e)
  | broke m d e dep missing ↦ ground (arith, closed_nodes.known m d dep, contains-eq-lookup d nodes)
]

-- A cycle that the search reports is there: the named node depends on itself, directly or through
-- other nodes.
pub validate_acyclic-cycle :
    (nodes : Dict GoalNode) (d : String) → validate_acyclic nodes ≡ err (cycle d) → Chain nodes d d
unfolding validate_acyclic
validate_acyclic-cycle nodes d h = elim (whole_search nodes) [
  | ended s e inv done grew ↦ ground arith
  | closed d' e loop ↦ subst (λ (x : String). Chain nodes x x) (ground arith) loop
  | broke m d' e dep missing ↦ ground arith
]

names-roots : (roots : List String) → names (roots_as_frames roots) ≡ roots
names-roots [] = refl
names-roots (r ∷ rs) = cc (names-roots rs)

accepted-IsAcyclic : (nodes : Dict GoalNode) → validate_acyclic nodes ≡ ok tt → IsAcyclic nodes
unfolding validate_acyclic
accepted-IsAcyclic nodes h = elim (whole_search nodes) [
  | ended s e inv done grew ↦
      ordered-IsAcyclic nodes s.visited inv.ordered
        (λ k in_nodes. grew k (rw names-roots (ground (arith, elem-keys nodes k))))
  | closed d e loop ↦ ground arith
  | broke m d e dep missing ↦ ground arith
]

-- Among nodes whose dependencies are all nodes, `_validate_acyclic` accepts exactly the graphs in
-- which no node depends on itself, directly or through other nodes.
pub validate_acyclic_iff :
    (nodes : Dict GoalNode) → IsClosed nodes → (validate_acyclic nodes ≡ ok tt) ↔ IsAcyclic nodes
validate_acyclic_iff nodes closed_nodes = (
  accepted-IsAcyclic nodes,
  λ acyclic. elim (validate_acyclic_ends nodes closed_nodes) [
    | inl accepted ↦ accepted
    | inr (d, e) ↦ absurd (acyclic d (validate_acyclic-cycle nodes d e))
  ],
)
