-- ===== src/Goal/Acyclic/Roots.antt =====
-- The search from each root in turn.
use wait_skill.Prelude.{
  ◌≤◌, true, false, ◌≡◌, refl, String, List, [], ◌∷◌, some, Result, ok, arith, elem, elem-cons,
  eq_iff, inl, inr, Bool-cases, Option-cases, subst,
}
use wait_skill.Prelude.Dict.{Dict, lookup, contains, keys, contains-eq-lookup}
use wait_skill.Goal.State.{GoalNode, Error}
use wait_skill.Goal.Acyclic.{
  Frame, Search, work, search_root, search_roots, run_search, nothing_seen,
}
use wait_skill.Goal.Acyclic.Chains.{Inv}
use wait_skill.Goal.Acyclic.Measure.{measure, seen, unseen-come, unseen-le-work}
use wait_skill.Goal.Acyclic.Rounds.{search_of, reached, Ran, ended, closed, broke, run_search-Ran}

-- The roots that a search still has to start from, as frames.
abbrev pub roots_as_frames : List String → List Frame
roots_as_frames [] = []
roots_as_frames (r ∷ rs) = (r, []) ∷ roots_as_frames rs

same_reach :
    (nodes : Dict GoalNode) (s t : Search) (r : Result Error Search)
    → ((k : String) → reached t k ≡ true → reached s k ≡ true)
    → Ran nodes s r
    → Ran nodes t r
same_reach nodes s t r imp (ended s' e inv done grew) =
    ended s' e inv done (λ k h. grew k (imp k h))
same_reach nodes s t r imp (closed d e loop) = closed d e loop
same_reach nodes s t r imp (broke m d e dep missing) = broke m d e dep missing

module _ (nodes : Dict GoalNode) (visiting visited : List String)
    (inv : Inv nodes (search_of visiting visited [])) where
  none_visiting : (k : String) → elem k visiting ≡ false
  unfolding elem
  none_visiting k = elim (Bool-cases (elem k visiting)) [
    | inl e ↦ ground (arith, inv.on_stack k e)
    | inr e ↦ e
  ]

  start-Inv :
      (root : String) (n : GoalNode)
      → lookup root nodes ≡ some n
      → Inv nodes (search_of (root ∷ visiting) visited ((root, n.depends_on) ∷ []))
  unfolding elem
  start-Inv root n found = record {
    ordered = inv.ordered;
    frames = (λ x dep. ground arith, tt);
    linked = (λ x h. record { node = n; found = found; listed = h }, λ x e. cc, tt);
    on_stack = λ k h. ground (arith, none_visiting k);
  }

  start_enough :
      (root : String) (n : GoalNode)
      → lookup root nodes ≡ some n
      → elem root visited ≡ false
      → measure nodes (search_of (root ∷ visiting) visited ((root, n.depends_on) ∷ [])) ≤ work nodes
  start_enough root n found unfinished =
      let s = search_of visiting visited [] in
      let s' = search_of (root ∷ visiting) visited ((root, n.depends_on) ∷ []) in
      omega (
        arith,
        unseen-le-work (seen s) nodes,
        unseen-come (seen s) (seen s') root n nodes found (ground (arith, none_visiting root))
            (ground (arith, elem-cons root root visiting, eq_iff root root))
            (λ k h. ground (arith, elem-cons k root visiting)),
      )

  search_root-Ran :
      (root : String)
      → contains root nodes ≡ true
      → Ran nodes
          (search_of visiting visited ((root, []) ∷ []))
          (search_root nodes (search_of visiting visited []) root)
  search_root-Ran root known = elim (Bool-cases (elem root visited)) [
    | inl old ↦
        ended (search_of visiting visited []) (unfold search_root in ground arith) inv refl
          (λ k h. unfold elem in ground (arith, eq_iff root k))
    | inr unfinished ↦ elim (Option-cases (lookup root nodes)) [
      | inl missing ↦ ground (arith, contains-eq-lookup root nodes)
      | inr (n, found) ↦
          let s = search_of (root ∷ visiting) visited ((root, n.depends_on) ∷ []) in
          let e : search_root nodes (search_of visiting visited []) root
              ≡ run_search (work nodes) nodes s =
            unfold search_root in ground arith in
          rw e (
            same_reach nodes s _ _ (λ k h. h)
              (run_search-Ran nodes (work nodes) (root ∷ visiting) visited
                ((root, n.depends_on) ∷ []) (start-Inv root n found)
                (start_enough root n found unfinished)))
    ]
  ]

-- A search that has ended has an empty stack.
emptied : (s : Search) → s.stack ≡ [] → s ≡ search_of s.visiting s.visited []
emptied s done = λ i. record { visiting = s.visiting; visited = s.visited; stack = done i }

search_roots-Ran :
    (nodes : Dict GoalNode) (roots visiting visited : List String)
    → Inv nodes (search_of visiting visited [])
    → ((k : String) → elem k roots ≡ true → contains k nodes ≡ true)
    → Ran nodes
        (search_of visiting visited (roots_as_frames roots))
        (search_roots nodes roots (search_of visiting visited []))
unfolding search_roots
search_roots-Ran nodes [] visiting visited inv known =
    ended (search_of visiting visited []) refl inv refl (λ k h. unfold elem in h)
search_roots-Ran nodes (root ∷ roots) visiting visited inv known =
    elim (search_root-Ran nodes visiting visited inv root
      (known root (ground (arith, elem-cons root root roots, eq_iff root root)))) [
        | ended s e inv' done grew ↦
            let t = search_of s.visiting s.visited [] in
            let e' : search_root nodes (search_of visiting visited []) root ≡ ok t =
              subst (λ (x : Search). search_root nodes (search_of visiting visited []) root ≡ ok x)
                (emptied s done) e in
            rw e' (
              same_reach nodes (search_of s.visiting s.visited (roots_as_frames roots))
                (search_of visiting visited (roots_as_frames (root ∷ roots))) _
                (λ k h. unfold elem in ground (arith, grew k))
                (search_roots-Ran nodes roots s.visiting s.visited
                  (subst (Inv nodes) (emptied s done) inv')
                  (λ k h. known k (ground (arith, elem-cons k root roots)))))
        | closed d e loop ↦ closed d (rw e) loop
        | broke m d e dep missing ↦ broke m d (rw e) dep missing
      ]

pub elem-keys : (nodes : Dict GoalNode) (k : String) → elem k (keys nodes) ≡ contains k nodes
unfolding elem keys contains
elem-keys [] k = refl
elem-keys ((j, n) ∷ rest) k = ground (arith, elem-keys rest k)

nothing-Inv : (nodes : Dict GoalNode) → Inv nodes nothing_seen
unfolding elem
nothing-Inv nodes = record { ordered = tt; frames = tt; linked = tt; on_stack = λ k h. cc }

-- The search from all nodes.
pub whole_search :
    (nodes : Dict GoalNode)
    → Ran nodes
        (search_of [] [] (roots_as_frames (keys nodes)))
        (search_roots nodes (keys nodes) nothing_seen)
whole_search nodes =
    search_roots-Ran nodes (keys nodes) [] [] (nothing-Inv nodes)
      (λ k h. ground (arith, elem-keys nodes k))
