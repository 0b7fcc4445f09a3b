-- ===== src/Goal/Exclusion/Backed.antt =====
-- A node that is at work or completed has all of its dependencies completed.
use wait_skill.Prelude.{
  Bool, true, false, ◌≡◌, refl, sym, String, List, [], ◌∷◌, some, arith, ◌∙◌, ap, inl, inr,
  Bool-cases, Option-cases, eq_iff, ◌==◌, ◌⊎◌, subst, all, ◌||◌,
}
use wait_skill.Prelude.Dict.{
  Dict, lookup, insert, contains, map_values, lookup-insert, lookup-map_values, contains-eq-lookup,
}
use wait_skill.Goal.State.{GoalNode}
use wait_skill.Goal.Paths.{Folding}
use wait_skill.Goal.Queries.{node_is_ready, is_completed_at}
use wait_skill.Goal.Lifecycle.{cancel_one}
use wait_skill.Goal.Exclusion.Moves.{
  is_live, is_completed, Move, begin, go_on, complete, leave, Change, keep, move, grow, stop,
  Changes, here, next,
}

abbrev pub has_begun : GoalNode → Bool
has_begun n = is_live n || is_completed n

pub record IsBacked (ns : Dict GoalNode) : Type 0 where
  pub dependencies_done :
      (i : String) (a : GoalNode)
      → lookup i ns ≡ some a
      → has_begun a ≡ true
      → all (is_completed_at ns) a.depends_on ≡ true

all_mono {ℓ} :
    {A : Type ℓ} (p q : A → Bool)
    → ((x : A) → p x ≡ true → q x ≡ true)
    → (xs : List A) → all p xs ≡ true
    → all q xs ≡ true
all_mono p q imp [] h = refl
all_mono p q imp (x ∷ xs) h = ground (arith, imp x, all_mono p q imp xs)

-- No completed node is ever moved.
Move-incomplete :
    (fold : Folding) (ns : Dict GoalNode) (a b : GoalNode)
    → Move fold ns a b
    → is_completed a ≡ false
unfolding node_is_ready
Move-incomplete fold ns a b (begin kept can_start quiet free live) = ground arith
Move-incomplete fold ns a b (go_on kept live_a live _) = ground arith
Move-incomplete fold ns a b (complete kept live_a done) = ground arith
Move-incomplete fold ns a b (leave open_a idle _) = open_a

completed_at-insert :
    (ns : Dict GoalNode) (id : String) (b : GoalNode)
    → is_completed_at ns id ≡ false
    → (d : String) → is_completed_at ns d ≡ true
    → is_completed_at (insert id b ns) d ≡ true
completed_at-insert ns id b open_id d h = elim (Bool-cases (id == d)) [
  | inl e ↦ ground (arith, eq_iff id d, ap (is_completed_at ns) ((eq_iff id d).0 e))
  | inr e ↦ ground (arith, lookup-insert id d b ns)
]

-- The dependencies that a moved node stands on, as they were before.
moved_backed :
    (fold : Folding) (ns : Dict GoalNode) (id : String) (a b : GoalNode)
    → IsBacked ns
    → lookup id ns ≡ some a
    → Move fold ns a b
    → has_begun b ≡ true
    → all (is_completed_at ns) b.depends_on ≡ true
unfolding node_is_ready
moved_backed fold ns id a b safe at_id (begin kept can_start quiet free live) begun =
    rw kept.depends_on (ground arith)
moved_backed fold ns id a b safe at_id (go_on kept live_a live _) begun =
    rw kept.depends_on (safe.dependencies_done id a at_id (ground arith))
moved_backed fold ns id a b safe at_id (complete kept live_a done) begun =
    rw kept.depends_on (safe.dependencies_done id a at_id (ground arith))
moved_backed fold ns id a b safe at_id (leave open_a idle not_done) begun = ground arith

lookup_behind :
    (ns : Dict GoalNode) (id i : String) (b x : GoalNode)
    → lookup i (insert id b ns) ≡ some x
    → (x ≡ b) ⊎ (lookup i ns ≡ some x)
lookup_behind ns id i b x h = elim (Bool-cases (id == i)) [
  | inl e ↦ inl (ground (arith, lookup-insert id i b ns))
  | inr e ↦ inr (ground (arith, lookup-insert id i b ns))
]

insert-IsBacked :
    (ns : Dict GoalNode) (id : String) (b : GoalNode)
    → IsBacked ns
    → is_completed_at ns id ≡ false
    → (has_begun b ≡ true → all (is_completed_at ns) b.depends_on ≡ true)
    → IsBacked (insert id b ns)
insert-IsBacked ns id b safe open_id backed_b = record {
  dependencies_done = λ i x at_i begun.
      all_mono (is_completed_at ns) (is_completed_at (insert id b ns))
        (completed_at-insert ns id b open_id) x.depends_on
        (elim (lookup_behind ns id i b x at_i) [
          | inl x_b ↦ rw x_b (backed_b (ground arith))
          | inr old ↦ safe.dependencies_done i x old begun
        ]);
}

cancel_one-kept : (n : GoalNode) → has_begun (cancel_one n) ≡ true → cancel_one n ≡ n
unfolding cancel_one
cancel_one-kept n h = ground arith

completed-cancel_one : (n : GoalNode) → is_completed n ≡ true → is_completed (cancel_one n) ≡ true
unfolding cancel_one
completed-cancel_one n h = ground arith

completed_at-cancel :
    (ns : Dict GoalNode) (d : String)
    → is_completed_at ns d ≡ true
    → is_completed_at (map_values cancel_one ns) d ≡ true
completed_at-cancel ns d h = elim (Option-cases (lookup d ns)) [
  | inl e ↦ ground arith
  | inr (n, e) ↦ ground (arith, lookup-map_values cancel_one d ns, completed-cancel_one n)
]

stop-IsBacked : (ns : Dict GoalNode) → IsBacked ns → IsBacked (map_values cancel_one ns)
stop-IsBacked ns safe = record {
  dependencies_done = λ i x at_i begun. elim (Option-cases (lookup i ns)) [
    | inl e ↦ ground (arith, lookup-map_values cancel_one i ns)
    | inr (n, e) ↦
        let x_n : x ≡ cancel_one n = ground (arith, lookup-map_values cancel_one i ns) in
        let same : cancel_one n ≡ n = cancel_one-kept n (ground arith) in
        let kept : x ≡ n = x_n ∙ same in
        all_mono (is_completed_at ns) (is_completed_at (map_values cancel_one ns))
          (completed_at-cancel ns) x.depends_on
          (rw kept (safe.dependencies_done i n e (ground arith)))
  ];
}

absent-incomplete :
    (ns : Dict GoalNode) (id : String) → contains id ns ≡ false → is_completed_at ns id ≡ false
absent-incomplete ns id h = ground (arith, contains-eq-lookup id ns)

pub Change-IsBacked :
    (fold : Folding) (ns ms : Dict GoalNode) → IsBacked ns → Change fold ns ms → IsBacked ms
Change-IsBacked fold ns ms safe (keep e) = subst IsBacked (sym e) safe
Change-IsBacked fold ns ms safe (move id a b at_id m e) = subst IsBacked (sym e) (
    insert-IsBacked ns id b safe (ground (arith, Move-incomplete fold ns a b m))
      (moved_backed fold ns id a b safe at_id m))
Change-IsBacked fold ns ms safe (grow id b fresh idle e) =
    subst IsBacked (sym e)
      (insert-IsBacked ns id b safe (absent-incomplete ns id fresh) (λ begun. ground arith))
Change-IsBacked fold ns ms safe (stop e) = subst IsBacked (sym e) (stop-IsBacked ns safe)

pub Changes-IsBacked :
    (fold : Folding) (ns : Dict GoalNode) {ms : Dict GoalNode}
    → IsBacked ns
    → Changes fold ns ms
    → IsBacked ms
Changes-IsBacked fold ns safe here = safe
Changes-IsBacked fold ns safe (next cs c) =
    Change-IsBacked fold _ _ (Changes-IsBacked fold ns safe cs) c

pub nil-IsBacked : IsBacked []
unfolding lookup
nil-IsBacked = record { dependencies_done = λ i a at_i begun. cc }
