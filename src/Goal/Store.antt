-- ===== src/Goal/Store.antt =====
-- src/goal.py, `GoalStore`: the file of a goal, and the edits that are written to it. The lock has
-- the operations follow one another; a write replaces the file whole.
use wait_skill.Prelude.{
  Bool, true, false, String, Option, none, some, List, [], ◌∷◌, ℕ, zero, suc, Result, ok, err,
  length, if◌then◌else◌,
}
use wait_skill.Goal.State.{GoalState, GoalEvent, Error}
use wait_skill.Goal.Validate.{validate}
pub mod Kept

-- The content of the file: there is none, it is no state, or it is a state, which may be invalid.
pub data GoalFile : Type 0 where
  no_file unreadable : GoalFile
  held : GoalState → GoalFile

pub data StoreError : Type 0 where
  not_found invalid_json already_exists : StoreError
  goal_error : Error → StoreError

abbrev checked : GoalState → Result StoreError GoalState
checked g = elim (validate g) [ err e ↦ err (goal_error e) | ok _ ↦ ok g ]

unfoldable pub load : GoalFile → Result StoreError GoalState
load no_file = err not_found
load unreadable = err invalid_json
load (held g) = checked g

-- `create`, with the file that it leaves.
unfoldable pub create_file : GoalState → GoalFile → Result StoreError (Unit {0}) × GoalFile
create_file g no_file = elim (checked g) [ err e ↦ (err e, no_file) | ok g' ↦ (ok tt, held g') ]
create_file g file = (err already_exists, file)

-- The events behind the first ones get their source.
abbrev pub stamped : (source : String) → ℕ → List GoalEvent → List GoalEvent
stamped source n [] = []
stamped source zero (e ∷ es) = record e { source = some source } ∷ stamped source zero es
stamped source (suc n) (e ∷ es) = e ∷ stamped source n es

-- `is_same` is the comparison of the two states, `now` is `utc_now()`.
abbrev pub settled :
    (is_same : GoalState → GoalState → Bool) (source now : String) (before g : GoalState)
    → Result StoreError GoalState
settled is_same source now before g =
    if is_same g before
    then ok before
    else elim (checked (record g { events = stamped source (length before.events) g.events })) [
      | err e ↦ err e
      | ok g' ↦ ok (record g' { updated_at = now })
    ]

abbrev applied : (GoalState → Result Error GoalState) → GoalState → Result StoreError GoalState
applied op g = elim (op g) [ err e ↦ err (goal_error e) | ok g' ↦ ok g' ]

abbrev pub edited :
    (is_same : GoalState → GoalState → Bool) (source now : String)
    → (op : GoalState → Result Error GoalState) → GoalState
    → Result StoreError GoalState
edited is_same source now op g = elim (applied op g) [
  | err e ↦ err e
  | ok g' ↦ settled is_same source now g g'
]

abbrev kept_or : GoalFile → Result StoreError GoalState → Result StoreError GoalState × GoalFile
kept_or file (err e) = (err e, file)
kept_or file (ok g) = (ok g, held g)

-- `edit`, with the file that it leaves.
unfoldable pub edit :
    (is_same : GoalState → GoalState → Bool) (source now : String)
    → (op : GoalState → Result Error GoalState) → GoalFile
    → Result StoreError GoalState × GoalFile
edit is_same source now op file = elim (load file) [
  | err e ↦ (err e, file)
  | ok g ↦ kept_or file (edited is_same source now op g)
]
