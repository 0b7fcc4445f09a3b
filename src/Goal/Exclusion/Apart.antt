-- ===== src/Goal/Exclusion/Apart.antt =====
-- No two nodes at work have conflicting write paths, and one dispatch at most is unresolved.
use wait_skill.Prelude.{
  true, false, ◌≡◌, ◌≢◌, sym, String, [], ◌∷◌, some, arith, ◌∙◌, inl, inr, Bool-cases, eq_iff, ◌==◌,
  ◌⊎◌, subst,
}
use wait_skill.Prelude.Dict.{
  Dict, lookup, insert, map_values, lookup-insert, lookup-map_values, lookup_of_none_selected,
  lookup_of_none_both,
}
use wait_skill.Goal.State.{GoalNode, pending, dispatching, running, waiting}
use wait_skill.Goal.Paths.{Folding}
use wait_skill.Goal.Queries.{nodes_with_status, nodes_conflict, conflicting_node_ids}
use wait_skill.Goal.Lifecycle.{cancel_one}
use wait_skill.Goal.Exclusion.Conflicts.{nodes_conflict_comm}
use wait_skill.Goal.Exclusion.Moves.{
  is_live, is_dispatching, SameScope, Move, begin, go_on, complete, leave, Change, keep, move, grow,
  stop, Changes, here, next,
}

pub record IsExclusive (fold : Folding) (ns : Dict GoalNode) : Type 0 where
  pub apart :
      (i j : String) (a b : GoalNode)
      → lookup i ns ≡ some a
      → lookup j ns ≡ some b
      → i ≢ j
      → is_live a ≡ true
      → is_live b ≡ true
      → nodes_conflict fold a b ≡ false
  pub one_dispatch :
      (i j : String) (a b : GoalNode)
      → lookup i ns ≡ some a
      → lookup j ns ≡ some b
      → is_dispatching a ≡ true
      → is_dispatching b ≡ true
      → i ≡ j

-- Conflicts depend on the scope only.
nodes_conflict-scope :
    (fold : Folding) (a b c : GoalNode)
    → SameScope a b
    → nodes_conflict fold b c ≡ nodes_conflict fold a c
unfolding nodes_conflict
nodes_conflict-scope fold a b c s = rw (s.read_only, s.write_paths)

module _ (fold : Folding) (ns : Dict GoalNode) (j : String) (y : GoalNode)
    (at_j : lookup j ns ≡ some y) where
  no_dispatch : nodes_with_status (dispatching ∷ []) ns ≡ [] → is_dispatching y ≡ false
  unfolding nodes_with_status
  no_dispatch none_selected = ground (arith, lookup_of_none_selected _ j y ns none_selected at_j)

  no_conflict :
      (a : GoalNode)
      → conflicting_node_ids fold a (nodes_with_status (running ∷ waiting ∷ []) ns) ≡ []
      → is_live y ≡ true
      → is_dispatching y ≡ false
      → nodes_conflict fold a y ≡ false
  unfolding conflicting_node_ids nodes_with_status
  no_conflict a none_both live quiet =
      lookup_of_none_both _ (nodes_conflict fold a) j y ns none_both at_j (ground arith)

  -- A node that has just moved does not conflict with another one at work.
  moved_apart :
      (i : String) (a b : GoalNode)
      → IsExclusive fold ns
      → lookup i ns ≡ some a
      → Move fold ns a b
      → i ≢ j
      → is_live b ≡ true
      → is_live y ≡ true
      → nodes_conflict fold b y ≡ false
  moved_apart i a b safe at_i (begin kept can_start quiet free live) other live_b live_y =
      nodes_conflict-scope fold a b y kept ∙ no_conflict a free live_y (no_dispatch quiet)
  moved_apart i a b safe at_i (go_on kept live_a live _) other live_b live_y =
      nodes_conflict-scope fold a b y kept ∙ safe.apart i j a y at_i at_j other live_a live_y
  moved_apart i a b safe at_i (complete kept live_a done) other live_b live_y = ground arith
  moved_apart i a b safe at_i (leave _ idle _) other live_b live_y = ground arith

  moved_alone :
      (i : String) (a b : GoalNode)
      → IsExclusive fold ns
      → lookup i ns ≡ some a
      → Move fold ns a b
      → is_dispatching b ≡ true
      → is_dispatching y ≡ true
      → i ≡ j
  moved_alone i a b safe at_i (begin kept can_start quiet free live) d_b d_y =
      ground (arith, no_dispatch quiet)
  moved_alone i a b safe at_i (go_on kept live_a live before) d_b d_y =
      safe.one_dispatch i j a y at_i at_j (before d_b) d_y
  moved_alone i a b safe at_i (complete kept live_a done) d_b d_y = ground arith
  moved_alone i a b safe at_i (leave _ idle _) d_b d_y = ground arith

module _ (fold : Folding) (ns : Dict GoalNode) (safe : IsExclusive fold ns) where
  -- A lookup behind an insertion: the new value, or an old one under another key.
  lookup-insert_cases :
      (id i : String) (b x : GoalNode)
      → lookup i (insert id b ns) ≡ some x
      → ((id ≡ i) × (x ≡ b)) ⊎ ((id ≢ i) × (lookup i ns ≡ some x))
  lookup-insert_cases id i b x h = elim (Bool-cases (id == i)) [
    | inl e ↦ inl (ground (arith, eq_iff id i), ground (arith, lookup-insert id i b ns))
    | inr e ↦ inr (λ p. ground (arith, eq_iff id i), ground (arith, lookup-insert id i b ns))
  ]

  moved_safe :
      (id : String) (a b : GoalNode)
      → lookup id ns ≡ some a
      → Move fold ns a b
      → IsExclusive fold (insert id b ns)
  moved_safe id a b at_id m = record {
    apart = λ i j x y at_i at_j other live_x live_y. elim (lookup-insert_cases id i b x at_i) [
      | inl (id_i, x_b) ↦ elim (lookup-insert_cases id j b y at_j) [
        | inl (id_j, _) ↦ absurd (other (sym id_i ∙ id_j))
        | inr (away, old) ↦
            subst (λ (z : GoalNode). nodes_conflict fold z y ≡ false) (sym x_b)
              (moved_apart fold ns j y old id a b safe at_id m away (ground arith) live_y)
      ]
      | inr (away, old) ↦ elim (lookup-insert_cases id j b y at_j) [
        | inl (id_j, y_b) ↦
            nodes_conflict_comm fold x y
            ∙ subst (λ (z : GoalNode). nodes_conflict fold z x ≡ false) (sym y_b)
                (moved_apart fold ns i x old id a b safe at_id m away (ground arith) live_x)
        | inr (_, old_j) ↦ safe.apart i j x y old old_j other live_x live_y
      ]
    ];
    one_dispatch = λ i j x y at_i at_j d_x d_y. elim (lookup-insert_cases id i b x at_i) [
      | inl (id_i, x_b) ↦ elim (lookup-insert_cases id j b y at_j) [
        | inl (id_j, _) ↦ sym id_i ∙ id_j
        | inr (away, old) ↦
            sym id_i ∙ moved_alone fold ns j y old id a b safe at_id m (ground arith) d_y
      ]
      | inr (away, old) ↦ elim (lookup-insert_cases id j b y at_j) [
        | inl (id_j, y_b) ↦
            sym (moved_alone fold ns i x old id a b safe at_id m (ground arith) d_x) ∙ id_j
        | inr (_, old_j) ↦ safe.one_dispatch i j x y old old_j d_x d_y
      ]
    ];
  }

  -- A pending node is in nobody's way.
  grow-IsExclusive :
      (id : String) (b : GoalNode) → b.status ≡ pending → IsExclusive fold (insert id b ns)
  grow-IsExclusive id b idle = record {
    apart = λ i j x y at_i at_j other live_x live_y. elim (lookup-insert_cases id i b x at_i) [
      | inl (id_i, x_b) ↦ ground arith
      | inr (away, old) ↦ elim (lookup-insert_cases id j b y at_j) [
        | inl (id_j, y_b) ↦ ground arith
        | inr (_, old_j) ↦ safe.apart i j x y old old_j other live_x live_y
      ]
    ];
    one_dispatch = λ i j x y at_i at_j d_x d_y. elim (lookup-insert_cases id i b x at_i) [
      | inl (id_i, x_b) ↦ ground arith
      | inr (away, old) ↦ elim (lookup-insert_cases id j b y at_j) [
        | inl (id_j, y_b) ↦ ground arith
        | inr (_, old_j) ↦ safe.one_dispatch i j x y old old_j d_x d_y
      ]
    ];
  }

cancelled_idle :
    (ns : Dict GoalNode) (i : String) (x : GoalNode)
    → lookup i (map_values cancel_one ns) ≡ some x
    → is_live x ≡ false
unfolding cancel_one
cancelled_idle ns i x h = ground (arith, lookup-map_values cancel_one i ns)

stop-IsExclusive :
    (fold : Folding) (ns : Dict GoalNode) → IsExclusive fold (map_values cancel_one ns)
stop-IsExclusive fold ns = record {
  apart = λ i j x y at_i at_j other live_x live_y. ground (arith, cancelled_idle ns i x at_i);
  one_dispatch = λ i j x y at_i at_j d_x d_y. ground (arith, cancelled_idle ns i x at_i);
}

pub Change-IsExclusive :
    (fold : Folding) (ns ms : Dict GoalNode)
    → IsExclusive fold ns
    → Change fold ns ms
    → IsExclusive fold ms
Change-IsExclusive fold ns ms safe (keep e) = subst (IsExclusive fold) (sym e) safe
Change-IsExclusive fold ns ms safe (move id a b at_id m e) =
    subst (IsExclusive fold) (sym e) (moved_safe fold ns safe id a b at_id m)
Change-IsExclusive fold ns ms safe (grow id b fresh idle e) =
    subst (IsExclusive fold) (sym e) (grow-IsExclusive fold ns safe id b idle)
Change-IsExclusive fold ns ms safe (stop e) =
    subst (IsExclusive fold) (sym e) (stop-IsExclusive fold ns)

pub Changes-IsExclusive :
    (fold : Folding) (ns : Dict GoalNode) {ms : Dict GoalNode}
    → IsExclusive fold ns
    → Changes fold ns ms
    → IsExclusive fold ms
Changes-IsExclusive fold ns safe here = safe
Changes-IsExclusive fold ns safe (next cs c) =
    Change-IsExclusive fold _ _ (Changes-IsExclusive fold ns safe cs) c

pub nil-IsExclusive : (fold : Folding) → IsExclusive fold []
unfolding lookup
nil-IsExclusive fold = record {
  apart = λ i j a b at_i at_j other live_a live_b. cc;
  one_dispatch = λ i j a b at_i at_j d_a d_b. cc;
}
