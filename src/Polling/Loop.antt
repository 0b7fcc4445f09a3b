-- ===== src/Polling/Loop.antt =====
-- src/polling.py, `poll`: the attempts of a query, with what the clock, `query` and `evaluate` give
-- as a list of attempts. Times are natural numbers of a unit small enough for the clock.
use wait_skill.Prelude.{ℕ, ◌+◌, List, [], ◌∷◌, Option, none, some, leb, if◌then◌else◌}

-- What the evaluation of an answer gives, and the time after it: the deadline's alarm interrupts
-- it, or it returns.
pub data Evaluation {ℓ} (R : Type ℓ) : Type ℓ where
  interrupted : Evaluation R
  returned : Option R → (after : ℕ) → Evaluation R

-- One attempt: the time at its start and after its query, and what the query gives.
pub data Attempt {ℓ} (R : Type ℓ) : Type ℓ where
  query_fails : (start after : ℕ) → Attempt R
  query_answers : (start after : ℕ) → Evaluation R → Attempt R

-- How `poll` ends. `unfinished` is the end of the attempts that are given.
pub data Ending {ℓ} (R : Type ℓ) : Type ℓ where
  result : R → Ending R
  timed_out unfinished : Ending R
  gave_up : (failures : ℕ) → Ending R

-- `rest` is how the attempts after this one end.
abbrev pub after_evaluation {ℓ} :
    {R : Type ℓ} → (deadline : ℕ) → Evaluation R → (rest : Ending R) → Ending R
after_evaluation deadline interrupted rest = timed_out
after_evaluation deadline (returned r after) rest =
    if leb deadline after then timed_out else elim r [ none ↦ rest | some x ↦ result x ]

-- The loop with `failures` query failures in a row behind it.
unfoldable pub poll {ℓ} :
    {R : Type ℓ} → (max_failures deadline : ℕ) → List (Attempt R) → (failures : ℕ) → Ending R
poll max_failures deadline [] failures = unfinished
poll max_failures deadline (query_fails start after ∷ attempts) failures =
    let rest = poll max_failures deadline attempts (failures + 1) in
    if leb deadline start
    then timed_out
    else if leb deadline after
    then timed_out
    else if leb max_failures (failures + 1)
    then gave_up (failures + 1)
    else rest
poll max_failures deadline (query_answers start after e ∷ attempts) failures =
    let rest = poll max_failures deadline attempts 0 in
    if leb deadline start
    then timed_out
    else if leb deadline after
    then timed_out
    else after_evaluation deadline e rest
