-- ===== src/Goal/Acyclic/Ranks.antt =====
-- An order of finished nodes rules out cycles: dependencies have a lower rank.
use wait_skill.Prelude.{
  ℕ, suc, ◌≤◌, ◌<◌, true, ◌≡◌, String, List, [], ◌∷◌, arith, elem, eq_iff, length, inl, inr,
  Bool-cases, if◌then◌else◌,
}
use wait_skill.Prelude.Dict.{Dict, contains, contains-eq-lookup}
use wait_skill.Goal.State.{GoalNode}
use wait_skill.Goal.Acyclic.Chains.{Depends, Chain, one, more, IsAcyclic, IsOrdered}

-- How early a node was finished.
rank : String → List String → ℕ
rank k [] = 0
rank k (x ∷ xs) = if elem k xs then rank k xs else suc (length xs)

rank-le-length : (k : String) (l : List String) → rank k l ≤ length l
unfolding rank
rank-le-length k [] = omega arith
rank-le-length k (x ∷ xs) = ground (arith, rank-le-length k xs)

rank_falls :
    (nodes : Dict GoalNode) (a b : String) (l : List String)
    → IsOrdered nodes l
    → Depends nodes a b
    → elem a l ≡ true
    → (elem b l ≡ true) × (rank b l < rank a l)
unfolding rank elem
rank_falls nodes a b [] ordered dep h = absurd (cc)
rank_falls nodes a b (x ∷ xs) ordered dep h = elim (Bool-cases (elem a xs)) [
  | inl old ↦
      let (here_b, less) = rank_falls nodes a b xs ordered.1 dep old in (ground arith, ground arith)
  | inr new ↦
      let e : x ≡ a = (eq_iff x a).0 (ground arith) in
      let old_b : elem b xs ≡ true = ordered.0 b (rw e dep) in
      (ground arith, ground (arith, rank-le-length b xs))
]

module _ (nodes : Dict GoalNode) (l : List String) (ordered : IsOrdered nodes l) where
  falls_along : {a b : String} → Chain nodes a b → elem a l ≡ true → rank b l < rank a l
  falls_along {a} {b} (one dep) h = (rank_falls nodes a b l ordered dep h).1
  falls_along {a} (more {b = b} dep rest) h =
      let (h', less) = rank_falls nodes a b l ordered dep h in omega (arith, falls_along rest h')

  start_known : {a b : String} → Chain nodes a b → contains a nodes ≡ true
  start_known {a} (one dep) = ground (arith, contains-eq-lookup a nodes)
  start_known {a} (more dep rest) = ground (arith, contains-eq-lookup a nodes)

  pub ordered-IsAcyclic :
      ((k : String) → contains k nodes ≡ true → elem k l ≡ true) → IsAcyclic nodes
  ordered-IsAcyclic all_in a loop =
      absurd (omega (arith, falls_along loop (all_in a (start_known loop))))
