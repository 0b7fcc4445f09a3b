-- ===== src/Goal/Ready.antt =====
-- What `ready_nodes` of src/goal.py chooses.
use wait_skill.Prelude.{
  true, false, not, ◌||◌, ◌≡◌, ◌≢◌, refl, sym, ◌∙◌, String, List, [], ◌∷◌, some, arith, inl, inr,
  ◌⊎◌, Bool-cases, eq_iff, ◌==◌, all, is_empty,
}
use wait_skill.Prelude.Dict.{Dict, lookup, insert, keys, lookup-insert, lookup_of_none_selected}
use wait_skill.Goal.State.{GoalNode, GoalState, running, waiting, dispatching, is_open}
use wait_skill.Goal.Paths.{Folding}
use wait_skill.Goal.Queries.{
  node_is_ready, nodes_with_status, nodes_conflict, conflicting_node_ids, raw_ready_from,
  raw_ready_nodes, select_ready, ready_nodes,
}
use wait_skill.Goal.Exclusion.Conflicts.{nodes_conflict_comm}

-- Nodes that may be started side by side: each is ready and free of conflicts with the nodes at
-- work, and no two of them conflict.
pub record IsChosen (fold : Folding) (nodes live chosen : Dict GoalNode) : Type 0 where
  pub ready : (i : String) (a : GoalNode) → lookup i chosen ≡ some a → node_is_ready a nodes ≡ true
  pub free :
      (i : String) (a : GoalNode) → lookup i chosen ≡ some a → conflicting_node_ids fold a live ≡ []
  pub apart :
      (i j : String) (a b : GoalNode)
      → lookup i chosen ≡ some a
      → lookup j chosen ≡ some b
      → i ≢ j
      → nodes_conflict fold a b ≡ false

keys_nil : (m : Dict GoalNode) → keys m ≡ [] → m ≡ []
unfolding keys
keys_nil [] h = refl
keys_nil (e ∷ m) h = cc

empty_keys : (xs : List String) → is_empty xs ≡ true → xs ≡ []
empty_keys [] h = refl
empty_keys (x ∷ xs) h = cc

module _ (fold : Folding) (nodes live : Dict GoalNode) where
  nil-IsChosen : IsChosen fold nodes live []
  unfolding lookup
  nil-IsChosen = record { ready = λ i a h. cc; free = λ i a h. cc; apart = λ i j a b h. cc }

  module _ (chosen : Dict GoalNode) (id : String) (n : GoalNode)
      (good : IsChosen fold nodes live chosen) (can_start : node_is_ready n nodes ≡ true)
      (quiet : conflicting_node_ids fold n live ≡ [])
      (new : conflicting_node_ids fold n chosen ≡ []) where
    new_apart :
        (j : String) (b : GoalNode) → lookup j chosen ≡ some b → nodes_conflict fold n b ≡ false
    unfolding conflicting_node_ids
    new_apart j b h = lookup_of_none_selected (nodes_conflict fold n) j b chosen (keys_nil _ new) h

    inserted :
        (i : String) (a : GoalNode)
        → lookup i (insert id n chosen) ≡ some a
        → ((id ≡ i) × (n ≡ a)) ⊎ (lookup i chosen ≡ some a)
    inserted i a h = elim (Bool-cases (id == i)) [
      | inl same ↦ inl ((eq_iff id i).0 same, ground (arith, lookup-insert id i n chosen))
      | inr differ ↦ inr (ground (arith, lookup-insert id i n chosen))
    ]

    insert-apart :
        (i j : String) (a b : GoalNode)
        → lookup i (insert id n chosen) ≡ some a
        → lookup j (insert id n chosen) ≡ some b
        → i ≢ j
        → nodes_conflict fold a b ≡ false
    insert-apart i j a b h k other = elim (inserted i a h) [
      | inl (here, e) ↦ elim (inserted j b k) [
        | inl (there, f) ↦ elim (other (sym here ∙ there)) [ ]
        | inr old ↦ rw e at (new_apart j b old)
      ]
      | inr old ↦ elim (inserted j b k) [
        | inl (there, f) ↦ nodes_conflict_comm fold a b ∙ rw f at (new_apart i a old)
        | inr old' ↦ good.apart i j a b old old' other
      ]
    ]

    insert-IsChosen : IsChosen fold nodes live (insert id n chosen)
    insert-IsChosen = record {
      ready = λ i a h. ground (arith, lookup-insert id i n chosen, good.ready i a);
      free = λ i a h. ground (arith, lookup-insert id i n chosen, good.free i a);
      apart = insert-apart;
    }

  select_ready-IsChosen :
      (chosen candidates : Dict GoalNode)
      → all (λ p. node_is_ready p.1 nodes) candidates ≡ true
      → IsChosen fold nodes live chosen
      → IsChosen fold nodes live (select_ready fold live chosen candidates)
  unfolding select_ready
  select_ready-IsChosen chosen [] h good = good
  select_ready-IsChosen chosen ((id, n) ∷ rest) h good =
      elim (Bool-cases (
        not (is_empty (conflicting_node_ids fold n live))
        || not (is_empty (conflicting_node_ids fold n chosen)))) [
          | inl blocked ↦ rw blocked (select_ready-IsChosen chosen rest (ground arith) good)
          | inr clear ↦ rw clear (
              select_ready-IsChosen (insert id n chosen) rest (ground arith) (
                insert-IsChosen chosen id n good (ground arith) (empty_keys _ (ground arith))
                  (empty_keys _ (ground arith))))
        ]

raw_ready-all :
    (nodes ns : Dict GoalNode) → all (λ p. node_is_ready p.1 nodes) (raw_ready_from nodes ns) ≡ true
raw_ready-all nodes [] = refl
raw_ready-all nodes ((id, n) ∷ rest) = ground (arith, raw_ready-all nodes rest)

-- Each node that `ready_nodes` returns is pending with its dependencies completed and has no
-- conflict with a running or waiting node, and no two of them conflict.
pub ready_nodes-IsChosen :
    (fold : Folding) (g : GoalState)
    → IsChosen fold g.nodes
        (nodes_with_status (running ∷ waiting ∷ []) g.nodes)
        (ready_nodes fold g)
unfolding ready_nodes raw_ready_nodes
ready_nodes-IsChosen fold g =
    let live = nodes_with_status (running ∷ waiting ∷ []) g.nodes in
    let none_chosen = nil-IsChosen fold g.nodes live in
    elim (Bool-cases
      (not (is_open g.status) || not (is_empty (nodes_with_status (dispatching ∷ []) g.nodes)))) [
        | inl closed ↦ rw closed none_chosen
        | inr open_now ↦ rw open_now (
            select_ready-IsChosen fold g.nodes live [] (raw_ready_from g.nodes g.nodes)
              (raw_ready-all g.nodes g.nodes) none_chosen)
      ]
