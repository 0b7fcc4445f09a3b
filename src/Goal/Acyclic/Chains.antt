-- ===== src/Goal/Acyclic/Chains.antt =====
-- The dependency graph of a goal, apart from any search: edges, chains, and what a search knows.
use wait_skill.Prelude.{
  Bool, true, false, ◌||◌, ◌≡◌, String, List, [], ◌∷◌, Option, none, some, arith, refl, elem,
  elem-cons, ◌==◌, eq_iff, inl, inr, Bool-cases,
}
use wait_skill.Prelude.Dict.{Dict, lookup}
use wait_skill.Goal.State.{GoalNode}
use wait_skill.Goal.Acyclic.{Frame, Search}

-- Node `a` lists `b` among its dependencies.
pub record Depends (nodes : Dict GoalNode) (a b : String) : Type 0 where
  pub node : GoalNode
  pub found : lookup a nodes ≡ some node
  pub listed : elem b node.depends_on ≡ true

pub data Chain (nodes : Dict GoalNode) : String → String → Type 0 where
  one : {a b : String} → Depends nodes a b → Chain nodes a b
  more : {a b c : String} → Depends nodes a b → Chain nodes b c → Chain nodes a c

-- No node depends on itself, directly or through others.
abbrev pub IsAcyclic : Dict GoalNode → Type 0
IsAcyclic nodes = (a : String) → ¬ Chain nodes a a

pub Chain-snoc :
    (nodes : Dict GoalNode) {a b c : String} → Chain nodes a b → Depends nodes b c → Chain nodes a c
Chain-snoc nodes (one d) e = more d (one e)
Chain-snoc nodes (more d ch) e = more d (Chain-snoc nodes ch e)

-- Finished nodes, the last one first: each stands in front of all that it depends on.
abbrev pub IsOrdered : Dict GoalNode → List String → Type 0
IsOrdered nodes [] = Unit {0}
IsOrdered nodes (n ∷ older) =
    ((d : String) → Depends nodes n d → elem d older ≡ true) × IsOrdered nodes older

abbrev pub is_child : Option String → String → Bool
is_child none d = false
is_child (some c) d = c == d

-- Each dependency of a node on the stack is still to be met, finished, or the entry above.
abbrev pub Frames : Dict GoalNode → List String → Option String → List Frame → Type 0
Frames nodes visited child [] = Unit {0}
Frames nodes visited child ((m, rest) ∷ below) =
    ((d : String)
      → Depends nodes m d
      → (elem d rest || (elem d visited || is_child child d)) ≡ true)
    × Frames nodes visited (some m) below

-- What is left of an iterator are dependencies, and each entry depends on the one above it.
abbrev pub Linked : Dict GoalNode → Option String → List Frame → Type 0
Linked nodes child [] = Unit {0}
Linked nodes child ((m, rest) ∷ below) =
    ((d : String) → elem d rest ≡ true → Depends nodes m d)
    × ((d : String) → is_child child d ≡ true → Depends nodes m d)
    × Linked nodes (some m) below

abbrev pub names : List Frame → List String
names [] = []
names ((m, _) ∷ below) = m ∷ names below

pub record Inv (nodes : Dict GoalNode) (s : Search) : Type 0 where
  pub ordered : IsOrdered nodes s.visited
  pub frames : Frames nodes s.visited none s.stack
  pub linked : Linked nodes none s.stack
  pub on_stack : (k : String) → elem k s.visiting ≡ true → elem k (names s.stack) ≡ true

-- One more finished node, with the entry above the frames gone or not.
pub Frames-visit :
    (nodes : Dict GoalNode) (visited : List String) (n : String) (child : Option String)
    (st : List Frame)
    → Frames nodes visited child st
    → Frames nodes (n ∷ visited) child st
Frames-visit nodes visited n child [] h = tt
Frames-visit nodes visited n child ((m, rest) ∷ below) h = (
  λ d dep. ground (arith, h.0 d dep, elem-cons d n visited),
  Frames-visit nodes visited n (some m) below h.1,
)

pub Frames-pop :
    (nodes : Dict GoalNode) (visited : List String) (n : String) (st : List Frame)
    → Frames nodes visited (some n) st
    → Frames nodes (n ∷ visited) none st
Frames-pop nodes visited n [] h = tt
Frames-pop nodes visited n ((m, rest) ∷ below) h = (
  λ d dep. ground (arith, h.0 d dep, elem-cons d n visited),
  Frames-visit nodes visited n (some m) below h.1,
)

pub Linked-pop :
    (nodes : Dict GoalNode) (n : String) (st : List Frame)
    → Linked nodes (some n) st
    → Linked nodes none st
Linked-pop nodes n [] h = tt
Linked-pop nodes n ((m, rest) ∷ below) h = (h.0, λ d e. cc, h.2)

-- From each entry of the stack a chain leads to the entry above the frames.
pub Chain-from_stack :
    (nodes : Dict GoalNode) (n k : String) (st : List Frame)
    → Linked nodes (some n) st
    → elem k (names st) ≡ true
    → Chain nodes k n
unfolding elem
Chain-from_stack nodes n k [] h e = cc
Chain-from_stack nodes n k ((m, rest) ∷ below) h e = elim (Bool-cases (m == k)) [
  | inl same ↦ rw (← (eq_iff m k).0 same) (one (h.1 n ((eq_iff n n).1 refl)))
  | inr other ↦
      Chain-snoc nodes (Chain-from_stack nodes m k below h.2 (ground arith))
        (h.1 n ((eq_iff n n).1 refl))
]
