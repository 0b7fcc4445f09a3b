-- ===== src/Registry/Sorting.antt =====
-- Watches in order of their last change.
use wait_skill.Prelude.{
  ℕ, ◌≤◌, Bool, true, ◌≡◌, ◌∙◌, refl, sym, ap, List, [], ◌∷◌, ◌++◌, select, all, arith, leb, ◌⊎◌,
  inl, inr, Bool-cases,
}
use wait_skill.Registry.State.{Watcher, place, latest_first}

abbrev pub IsIn : Watcher → List Watcher → Type 0
IsIn w [] = ⊥
IsIn w (x ∷ xs) = (x ≡ w) ⊎ IsIn w xs

-- None comes before one that has changed later.
abbrev pub IsFalling : List Watcher → Type 0
IsFalling [] = Unit {0}
IsFalling (x ∷ xs) = (all (λ y. leb y.updated_at x.updated_at) xs ≡ true) × IsFalling xs

pub IsIn-select :
    (p : Watcher → Bool) (w : Watcher) (xs : List Watcher)
    → IsIn w xs
    → p w ≡ true
    → IsIn w (select p xs)
IsIn-select p w [] h k = absurd h
IsIn-select p w (x ∷ xs) h k = elim (Bool-cases (p x)) [
  | inl good ↦
      rw good (elim h [ inl here ↦ inl here | inr later ↦ inr (IsIn-select p w xs later k) ])
  | inr bad ↦ rw bad (elim h [
    | inl here ↦ absurd (cc (sym bad ∙ ap p here ∙ k))
    | inr later ↦ IsIn-select p w xs later k
  ])
]

pub select-IsIn :
    (p : Watcher → Bool) (w : Watcher) (xs : List Watcher)
    → IsIn w (select p xs)
    → IsIn w xs × (p w ≡ true)
select-IsIn p w [] h = absurd h
select-IsIn p w (x ∷ xs) h = elim (Bool-cases (p x)) [
  | inl good ↦ elim (rw good at h) [
    | inl here ↦ (inl here, ap p (sym here) ∙ good)
    | inr later ↦ let more = select-IsIn p w xs later in (inr more.0, more.1)
  ]
  | inr bad ↦ let more = select-IsIn p w xs (rw bad at h) in (inr more.0, more.1)
]

place-IsIn : (x w : Watcher) (xs : List Watcher) → IsIn w (place x xs) → (x ≡ w) ⊎ IsIn w xs
place-IsIn x w [] h = h
place-IsIn x w (y ∷ xs) h = elim (Bool-cases (leb y.updated_at x.updated_at)) [
  | inl here ↦ rw here at h
  | inr later ↦ elim (rw later at h) [
    | inl first ↦ inr (inl first)
    | inr more ↦ elim (place-IsIn x w xs more) [ inl same ↦ inl same | inr old ↦ inr (inr old) ]
  ]
]

IsIn-place : (x w : Watcher) (xs : List Watcher) → (x ≡ w) ⊎ IsIn w xs → IsIn w (place x xs)
IsIn-place x w [] h = h
IsIn-place x w (y ∷ xs) h = elim (Bool-cases (leb y.updated_at x.updated_at)) [
  | inl here ↦ rw here h
  | inr later ↦ rw later (elim h [
    | inl same ↦ inr (IsIn-place x w xs (inl same))
    | inr (inl first) ↦ inl first
    | inr (inr more) ↦ inr (IsIn-place x w xs (inr more))
  ])
]

pub IsIn-latest_first : (w : Watcher) (xs : List Watcher) → IsIn w xs → IsIn w (latest_first xs)
IsIn-latest_first w [] h = absurd h
IsIn-latest_first w (x ∷ xs) (inl same) = IsIn-place x w (latest_first xs) (inl same)
IsIn-latest_first w (x ∷ xs) (inr more) =
    IsIn-place x w (latest_first xs) (inr (IsIn-latest_first w xs more))

pub latest_first-IsIn : (w : Watcher) (xs : List Watcher) → IsIn w (latest_first xs) → IsIn w xs
latest_first-IsIn w [] h = absurd h
latest_first-IsIn w (x ∷ xs) h = elim (place-IsIn x w (latest_first xs) h) [
  | inl same ↦ inl same
  | inr more ↦ inr (latest_first-IsIn w xs more)
]

all_at :
    (p : Watcher → Bool) (w : Watcher) (xs : List Watcher)
    → all p xs ≡ true
    → IsIn w xs
    → p w ≡ true
all_at p w [] h k = absurd k
all_at p w (x ∷ xs) h (inl same) = ap p (sym same) ∙ ground (arith, h)
all_at p w (x ∷ xs) h (inr more) = all_at p w xs (ground (arith, h)) more

all-place :
    (p : Watcher → Bool) (x : Watcher) (xs : List Watcher)
    → p x ≡ true
    → all p xs ≡ true
    → all p (place x xs) ≡ true
all-place p x [] h k = ground (arith, h)
all-place p x (y ∷ xs) h k = ground (arith, h, k, all-place p x xs)

all_weaker :
    (a b : ℕ) (xs : List Watcher)
    → a ≤ b
    → all (λ y. leb y.updated_at a) xs ≡ true
    → all (λ y. leb y.updated_at b) xs ≡ true
all_weaker a b [] h k = refl
all_weaker a b (x ∷ xs) h k = ground (arith, h, k, all_weaker a b xs)

place-IsFalling : (x : Watcher) (xs : List Watcher) → IsFalling xs → IsFalling (place x xs)
place-IsFalling x [] h = (refl, tt)
place-IsFalling x (y ∷ xs) h = elim (Bool-cases (leb y.updated_at x.updated_at)) [
  | inl here ↦
      let below = all_weaker y.updated_at x.updated_at xs (ground (arith, here)) h.0 in
      rw here (ground (arith, here, below), h)
  | inr later ↦ rw later (
    all-place (λ z. leb z.updated_at y.updated_at) x xs (ground (arith, later)) h.0,
    place-IsFalling x xs h.1,
  )
]

pub latest_first-IsFalling : (xs : List Watcher) → IsFalling (latest_first xs)
latest_first-IsFalling [] = tt
latest_first-IsFalling (x ∷ xs) = place-IsFalling x (latest_first xs) (latest_first-IsFalling xs)

IsIn-append : (w : Watcher) (xs ys : List Watcher) → IsIn w ys → IsIn w (xs ++ ys)
IsIn-append w [] ys h = h
IsIn-append w (x ∷ xs) ys h = inr (IsIn-append w xs ys h)

-- In falling order, what stands in the first part has not changed before what stands behind.
pub falls_across :
    (v w : Watcher) (xs ys : List Watcher)
    → IsFalling (xs ++ ys)
    → IsIn v xs
    → IsIn w ys
    → w.updated_at ≤ v.updated_at
falls_across v w [] ys h here k = absurd here
falls_across v w (x ∷ xs) ys h (inl same) k =
    let below =
      all_at (λ y. leb y.updated_at x.updated_at) w (xs ++ ys) h.0 (IsIn-append w xs ys k) in
    let at : x.updated_at ≡ v.updated_at = ap (λ z. z.updated_at) same in ground (arith, below, at)
falls_across v w (x ∷ xs) ys h (inr more) k = falls_across v w xs ys h.1 more k
