-- ===== src/Goal/Acyclic/Rounds.antt =====
-- One round of the search, and all rounds from one root.
use wait_skill.Prelude.{
  ℕ, zero, suc, ◌≤◌, Bool, true, false, ◌||◌, ◌≡◌, refl, String, List, [], ◌∷◌, none, some, Result,
  ok, err, arith, elem, elem-cons, elem-remove, ◌==◌, eq_iff, inl, inr, Bool-cases, Option-cases,
  ◌>>=◌,
}
use wait_skill.Prelude.Dict.{Dict, lookup}
use wait_skill.Goal.State.{GoalNode, Error, cycle, key_error}
use wait_skill.Goal.Acyclic.{Frame, Search, round, meet, finish_top, run_search}
use wait_skill.Goal.Acyclic.Chains.{
  Depends, Chain, one, Chain-snoc, names, Inv, Frames-pop, Linked-pop, Chain-from_stack,
}
use wait_skill.Goal.Acyclic.Measure.{seen, measure, unseen-anti, unseen-come, seen-finish_top}

-- What a search has come to: it is on the stack or finished.
abbrev pub reached : Search → String → Bool
reached s k = elem k (names s.stack) || elem k s.visited

-- What a round makes of a state that satisfies the invariant.
pub data Outcome (nodes : Dict GoalNode) (s : Search) (r : Result Error Search) : Type 0 where
  stepped :
      (s' : Search)
      → r ≡ ok s'
      → Inv nodes s'
      → suc (measure nodes s') ≤ measure nodes s
      → ((k : String) → reached s k ≡ true → reached s' k ≡ true)
      → Outcome nodes s r
  looped : (d : String) → r ≡ err (cycle d) → Chain nodes d d → Outcome nodes s r
  lost :
      (m d : String)
      → r ≡ err (key_error d)
      → Depends nodes m d
      → lookup d nodes ≡ none
      → Outcome nodes s r

abbrev pub search_of : List String → List String → List Frame → Search
search_of visiting visited stack = record { visiting = visiting; visited = visited; stack = stack }

module _ (nodes : Dict GoalNode) (visiting visited : List String) (id : String)
    (below : List Frame) where
  abbrev used_up : Search
  used_up = search_of visiting visited ((id, []) ∷ below)

  pop-Inv : Inv nodes used_up → Inv nodes (finish_top used_up id below)
  unfolding finish_top elem
  pop-Inv inv = record {
    ordered = (λ d dep. ground (arith, inv.frames.0 d dep), inv.ordered);
    frames = Frames-pop nodes visited id below inv.frames.1;
    linked = Linked-pop nodes id below inv.linked.2;
    on_stack = λ k h. ground (arith, inv.on_stack k, elem-remove id k visiting, eq_iff id k);
  }

  pop_round : Inv nodes used_up → Outcome nodes used_up (ok (finish_top used_up id below))
  pop_round inv =
      stepped (finish_top used_up id below) refl (pop-Inv inv)
        (unfold finish_top in
          omega (
            arith,
            unseen-anti (seen used_up) (seen (finish_top used_up id below)) nodes
                (seen-finish_top used_up id below),
          ))
        (λ k h. unfold finish_top elem in ground arith)

module _ (nodes : Dict GoalNode) (visiting visited : List String) (id d : String)
    (rest : List String) (below : List Frame) where
  abbrev at_edge : Search
  at_edge = search_of visiting visited ((id, d ∷ rest) ∷ below)

  skip-Inv :
      elem d visited ≡ true
      → Inv nodes at_edge
      → Inv nodes (search_of visiting visited ((id, rest) ∷ below))
  unfolding elem
  skip-Inv old inv = record {
    ordered = inv.ordered;
    frames = (λ x dep. ground (arith, inv.frames.0 x dep, eq_iff d x), inv.frames.1);
    linked = (λ x h. inv.linked.0 x (ground arith), λ x e. cc, inv.linked.2);
    on_stack = λ k h. inv.on_stack k h;
  }

  push-Inv :
      (n : GoalNode)
      → lookup d nodes ≡ some n
      → Inv nodes at_edge
      → Inv nodes (search_of (d ∷ visiting) visited ((d, n.depends_on) ∷ (id, rest) ∷ below))
  unfolding elem
  push-Inv n found inv = record {
    ordered = inv.ordered;
    frames = (λ x dep. ground arith, (λ x dep. ground (arith, inv.frames.0 x dep), inv.frames.1));
    linked = (
      λ x h. record { node = n; found = found; listed = h },
      λ x e. cc,
      (λ x h. inv.linked.0 x (ground arith), λ x e. inv.linked.0 x (ground arith), inv.linked.2),
    );
    on_stack = λ k h. ground (arith, inv.on_stack k);
  }

  push_round :
      (n : GoalNode)
      → lookup d nodes ≡ some n
      → elem d visiting ≡ false
      → elem d visited ≡ false
      → Inv nodes at_edge
      → Outcome nodes at_edge
          (ok (search_of (d ∷ visiting) visited ((d, n.depends_on) ∷ (id, rest) ∷ below)))
  push_round n found fresh unfinished inv =
      let s' = search_of (d ∷ visiting) visited ((d, n.depends_on) ∷ (id, rest) ∷ below) in
      stepped s' refl (push-Inv n found inv)
        (omega (
          arith,
          unseen-come (seen at_edge) (seen s') d n nodes found (ground arith)
              (ground (arith, elem-cons d d visiting, eq_iff d d))
              (λ k h. ground (arith, elem-cons k d visiting)),
        ))
        (λ k h. unfold elem in ground arith)

  edge : Inv nodes at_edge → Depends nodes id d
  unfolding elem
  edge inv = inv.linked.0 d (ground (arith, eq_iff d d))

  -- A dependency that is being visited closes a cycle.
  loop : Inv nodes at_edge → elem d visiting ≡ true → Chain nodes d d
  loop inv again = elim (Bool-cases (id == d)) [
    | inl same ↦ let e : id ≡ d = (eq_iff id d).0 same in rw e at (one (edge inv))
    | inr other ↦
        Chain-snoc nodes
          (Chain-from_stack nodes id d below inv.linked.2
            (ground (arith, inv.on_stack d, elem-cons d id (names below))))
          (edge inv)
  ]

  meet_round : Inv nodes at_edge → Outcome nodes at_edge (meet nodes at_edge id d rest below)
  meet_round inv = elim (Bool-cases (elem d visiting)) [
    | inl again ↦ looped d (unfold meet in ground arith) (loop inv again)
    | inr fresh ↦ elim (Bool-cases (elem d visited)) [
      | inl old ↦
          stepped (search_of visiting visited ((id, rest) ∷ below)) (unfold meet in ground arith)
            (skip-Inv old inv) (omega arith) (λ k h. unfold elem in ground arith)
      | inr unfinished ↦ elim (Option-cases (lookup d nodes)) [
        | inl missing ↦ lost id d (unfold meet in ground arith) (edge inv) missing
        | inr (n, found) ↦
            let e : meet nodes at_edge id d rest below
                ≡ ok (search_of (d ∷ visiting) visited ((d, n.depends_on) ∷ (id, rest) ∷ below)) =
              unfold meet in ground arith in
            rw e (push_round n found fresh unfinished inv)
      ]
    ]
  ]

-- What all rounds from a state make of it.
pub data Ran (nodes : Dict GoalNode) (s : Search) (r : Result Error Search) : Type 0 where
  ended :
      (s' : Search)
      → r ≡ ok s'
      → Inv nodes s'
      → s'.stack ≡ []
      → ((k : String) → reached s k ≡ true → elem k s'.visited ≡ true)
      → Ran nodes s r
  closed : (d : String) → r ≡ err (cycle d) → Chain nodes d d → Ran nodes s r
  broke :
      (m d : String)
      → r ≡ err (key_error d)
      → Depends nodes m d
      → lookup d nodes ≡ none
      → Ran nodes s r

-- The rounds that follow one round.
abbrev then_run : ℕ → Dict GoalNode → Result Error Search → Result Error Search
then_run fuel nodes r = r >>= run_search fuel nodes

rest_of_run :
    (nodes : Dict GoalNode) (fuel : ℕ) (s : Search) (r : Result Error Search)
    → ((s' : Search)
        → Inv nodes s'
        → measure nodes s' ≤ fuel
        → Ran nodes s' (run_search fuel nodes s'))
    → measure nodes s ≤ suc fuel
    → Outcome nodes s r
    → Ran nodes s (then_run fuel nodes r)
rest_of_run nodes fuel s r more enough (stepped s' e inv less grew) =
    rw e (elim (more s' inv (omega arith)) [
      | ended t p inv' done grew' ↦ ended t p inv' done (λ k h. grew' k (grew k h))
      | closed d p loop ↦ closed d p loop
      | broke m d p dep missing ↦ broke m d p dep missing
    ])
rest_of_run nodes fuel s r more enough (looped d e loop) = closed d (rw e) loop
rest_of_run nodes fuel s r more enough (lost m d e dep missing) = broke m d (rw e) dep missing

-- With fuel for the work that is left, the search ends: with all that it came to finished, with a
-- cycle, or at a dependency that is no node.
pub run_search-Ran :
    (nodes : Dict GoalNode) (fuel : ℕ) (visiting visited : List String) (stack : List Frame)
    → Inv nodes (search_of visiting visited stack)
    → measure nodes (search_of visiting visited stack) ≤ fuel
    → Ran nodes
        (search_of visiting visited stack)
        (run_search fuel nodes (search_of visiting visited stack))
unfolding run_search round
run_search-Ran nodes zero visiting visited [] inv enough =
    ended (search_of visiting visited []) refl inv refl (λ k h. unfold elem in h)
run_search-Ran nodes zero visiting visited ((id, rest) ∷ below) inv enough = absurd (omega arith)
run_search-Ran nodes (suc fuel) visiting visited [] inv enough =
    ended (search_of visiting visited []) refl inv refl (λ k h. unfold elem in h)
run_search-Ran nodes (suc fuel) visiting visited ((id, []) ∷ below) inv enough =
    rest_of_run nodes fuel _ _ (λ s. run_search-Ran nodes fuel s.visiting s.visited s.stack) enough
      (pop_round nodes visiting visited id below inv)
run_search-Ran nodes (suc fuel) visiting visited ((id, d ∷ rest) ∷ below) inv enough =
    rest_of_run nodes fuel _ _ (λ s. run_search-Ran nodes fuel s.visiting s.visited s.stack) enough
      (meet_round nodes visiting visited id d rest below inv)
