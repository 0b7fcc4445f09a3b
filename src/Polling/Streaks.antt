-- ===== src/Polling/Streaks.antt =====
-- When `poll` of src/polling.py gives up, and what the results that it returns rest on.
use wait_skill.Prelude.{
  ℕ, zero, suc, ◌+◌, ◌<◌, ◌≡◌, List, [], ◌∷◌, none, some, arith, ◌⊎◌, sym, subst, inl, inr,
}
use wait_skill.Polling.Loop.{
  interrupted, returned, Attempt, query_fails, query_answers, result, gave_up, poll,
}

-- `n` failed queries in a row, before the deadline.
pub data Streak {ℓ} {R : Type ℓ} (deadline : ℕ) : ℕ → List (Attempt R) → Type ℓ where
  no_failure : {attempts : List (Attempt R)} → Streak deadline 0 attempts
  failure :
      {n start after : ℕ} {attempts : List (Attempt R)}
      → after < deadline
      → Streak deadline n attempts
      → Streak deadline (suc n) (query_fails start after ∷ attempts)

-- A streak that begins with some attempt.
pub data HasStreak {ℓ} {R : Type ℓ} (deadline n : ℕ) : List (Attempt R) → Type ℓ where
  here : {attempts : List (Attempt R)} → Streak deadline n attempts → HasStreak deadline n attempts
  later :
      {a : Attempt R} {attempts : List (Attempt R)}
      → HasStreak deadline n attempts
      → HasStreak deadline n (a ∷ attempts)

-- An attempt before the deadline whose answer is evaluated to `r`.
pub data Accepted {ℓ} {R : Type ℓ} (deadline : ℕ) (r : R) : List (Attempt R) → Type ℓ where
  now :
      {start mid after : ℕ} {attempts : List (Attempt R)}
      → after < deadline
      → Accepted deadline r (query_answers start mid (returned (some r) after) ∷ attempts)
  next :
      {a : Attempt R} {attempts : List (Attempt R)}
      → Accepted deadline r attempts
      → Accepted deadline r (a ∷ attempts)

-- A result that `poll` returns is what the evaluation of an answer returned, before the deadline.
pub poll-Accepted {ℓ} :
    {R : Type ℓ} (max_failures deadline : ℕ) (attempts : List (Attempt R)) (failures : ℕ) (r : R)
    → poll max_failures deadline attempts failures ≡ result r
    → Accepted deadline r attempts
unfolding poll
poll-Accepted m d [] f r h = cc
poll-Accepted m d (query_fails start after ∷ attempts) f r h =
    next (poll-Accepted m d attempts (f + 1) r (ground arith))
poll-Accepted m d (query_answers start after interrupted ∷ attempts) f r h = ground arith
poll-Accepted m d (query_answers start after (returned none time) ∷ attempts) f r h =
    next (poll-Accepted m d attempts 0 r (ground arith))
poll-Accepted {R = R} m d (query_answers start after (returned (some x) time) ∷ attempts) f r h =
    let same : x ≡ r = ground arith in
    let early : time < d = ground arith in
    subst (λ y. Accepted d r (query_answers start after (returned (some y) time) ∷ attempts))
      (sym same) (now early)

gave_up_after {ℓ} :
    {R : Type ℓ} (m d : ℕ) (attempts : List (Attempt R)) (f k n : ℕ)
    → suc k + f ≡ suc m
    → poll (suc m) d attempts f ≡ gave_up n
    → (n ≡ suc m) × (Streak d (suc k) attempts ⊎ HasStreak d (suc m) attempts)
unfolding poll
gave_up_after m d [] f k n sum h = cc
gave_up_after m d (query_fails start after ∷ attempts) f zero n sum h =
    (ground arith, inl (failure (ground arith) no_failure))
gave_up_after m d (query_fails start after ∷ attempts) f (suc k) n sum h =
    let early : after < d = ground arith in
    let (e, found) = gave_up_after m d attempts (f + 1) k n (omega arith) (ground arith) in
    (e, elim found [ inl streak ↦ inl (failure early streak) | inr found ↦ inr (later found) ])
gave_up_after m d (query_answers start after interrupted ∷ attempts) f k n sum h = ground arith
gave_up_after m d (query_answers start after (returned (some x) time) ∷ attempts) f k n sum h =
    ground arith
gave_up_after m d (query_answers start after (returned none time) ∷ attempts) f k n sum h =
    let (e, found) = gave_up_after m d attempts 0 m n (omega arith) (ground arith) in
    (e, elim found [ inl streak ↦ inr (later (here streak)) | inr found ↦ inr (later found) ])

-- When `poll` gives up, it reports the limit of failures, and that many queries in a row have
-- failed before the deadline.
pub poll-HasStreak {ℓ} :
    {R : Type ℓ} (max_failures deadline : ℕ) (attempts : List (Attempt R)) (n : ℕ)
    → 0 < max_failures
    → poll max_failures deadline attempts 0 ≡ gave_up n
    → (n ≡ max_failures) × HasStreak deadline max_failures attempts
poll-HasStreak zero d attempts n pos h = ground arith
poll-HasStreak (suc m) d attempts n pos h =
    let (e, found) = gave_up_after m d attempts 0 m n (omega arith) h in
    (e, elim found [ inl streak ↦ here streak | inr found ↦ found ])
