-- ===== src/Goal/Exclusion/Conflicts.antt =====
-- `nodes_conflict` of src/goal.py does not depend on the order of the two nodes.
use wait_skill.Prelude.{Bool, false, ◌≡◌, refl, ◌∙◌, ap, List, [], ◌∷◌, String, arith, any, ◌||◌}
use wait_skill.Goal.State.{GoalNode}
use wait_skill.Goal.Paths.{Folding, folded_path, is_ancestor, paths_overlap}
use wait_skill.Goal.Queries.{nodes_conflict}

or_comm : (a b : Bool) → (a || b) ≡ (b || a)
or_comm a b = ground arith

or_exchange : (a b c d : Bool) → ((a || b) || (c || d)) ≡ ((a || c) || (b || d))
or_exchange a b c d = ground arith

pub paths_overlap_comm :
    (fold : Folding) (first second : String)
    → paths_overlap fold first second ≡ paths_overlap fold second first
unfolding paths_overlap
paths_overlap_comm fold first second =
    let p = folded_path fold first in
    let q = folded_path fold second in ground (arith, or_comm (is_ancestor p q) (is_ancestor q p))

module _ {ℓ} {A : Type ℓ} (f : A → A → Bool) where
  any-nil : (xs : List A) → any (λ x. any (f x) []) xs ≡ false
  any-nil [] = refl
  any-nil (x ∷ xs) = any-nil xs

  any-cons :
      (y : A) (xs ys : List A)
      → any (λ x. any (f x) (y ∷ ys)) xs ≡ (any (λ x. f x y) xs || any (λ x. any (f x) ys) xs)
  any-cons y [] ys = refl
  any-cons y (x ∷ xs) ys = rw (any-cons y xs ys) (or_exchange (f x y) _ _ _)

  any_swap : (xs ys : List A) → any (λ x. any (f x) ys) xs ≡ any (λ y. any (λ x. f x y) xs) ys
  any_swap xs [] = any-nil xs
  any_swap xs (y ∷ ys) = any-cons y xs ys ∙ ap (λ b. any (λ x. f x y) xs || b) (any_swap xs ys)

any-cong {ℓ} :
    {A : Type ℓ} (f g : A → Bool) → ((x : A) → f x ≡ g x) → (xs : List A) → any f xs ≡ any g xs
any-cong f g e [] = refl
any-cong f g e (x ∷ xs) = cc (e x, any-cong f g e xs)

-- Two nodes conflict in either order of asking.
pub nodes_conflict_comm :
    (fold : Folding) (a b : GoalNode) → nodes_conflict fold a b ≡ nodes_conflict fold b a
unfolding nodes_conflict
nodes_conflict_comm fold a b = ground (
  arith,
  any_swap (paths_overlap fold) a.write_paths b.write_paths,
  any-cong (λ q. any (λ p. paths_overlap fold p q) a.write_paths)
      (λ q. any (paths_overlap fold q) a.write_paths)
      (λ q.
        any-cong (λ p. paths_overlap fold p q) (paths_overlap fold q)
          (λ p. paths_overlap_comm fold p q) a.write_paths)
      b.write_paths,
)
