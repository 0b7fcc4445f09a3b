-- ===== src/Goal/Store/Kept.antt =====
-- src/goal.py, `GoalStore`: the file of a goal behind its edits.
use wait_skill.Prelude.{
  ◌≡◌, refl, Bool, true, false, String, List, [], ◌∷◌, Result, ok, err, length, arith, inl, inr,
  not, ◌&&◌, Bool-cases, Result-cases,
}
use wait_skill.Prelude.Text.{blank}
use wait_skill.Goal.State.{GoalState, Error}
use wait_skill.Goal.Checks.{require_string}
use wait_skill.Goal.Validate.{validate, validate_header, validate_verification, validate_outcome}
use wait_skill.Goal.Store.{
  GoalFile, no_file, unreadable, held, StoreError, load, create_file, edit, edited, stamped,
}

abbrev pub loads : GoalFile → Bool
loads file = elim (load file) [ ok g ↦ true | err e ↦ false ]

-- The time of the last change does not matter, but that there is one.
validate-updated :
    (g : GoalState) (now : String)
    → validate g ≡ ok tt
    → blank now ≡ false
    → validate (record g { updated_at = now }) ≡ ok tt
unfolding validate validate_header validate_outcome validate_verification require_string
validate-updated g now valid given = ground (arith, valid, given)

pub edit-loads :
    (is_same : GoalState → GoalState → Bool) (source now : String)
    (op : GoalState → Result Error GoalState) (file : GoalFile)
    → blank now ≡ false
    → loads file ≡ true
    → loads (edit is_same source now op file).1 ≡ true
unfolding edit load
edit-loads is_same source now op no_file given good = ground (arith, good)
edit-loads is_same source now op unreadable given good = ground (arith, good)
edit-loads is_same source now op (held g) given good = elim (Result-cases (validate g)) [
  | inr (e, bad) ↦ ground (arith, good, bad)
  | inl (done, valid) ↦ elim (Result-cases (op g)) [
    | inr (e, refused) ↦ ground (arith, valid, refused)
    | inl (g', changed) ↦
        let marked = record g' { events = stamped source (length g.events) g'.events } in
        elim (Bool-cases (is_same g' g)) [
          | inl same ↦ ground (arith, valid, changed, same)
          | inr other ↦ elim (Result-cases (validate marked)) [
            | inr (e, bad) ↦ ground (arith, valid, changed, other, bad)
            | inl (fine, still) ↦
                let updated = validate-updated marked now still given in
                ground (arith, valid, changed, other, still, updated)
          ]
        ]
  ]
]

-- Edits that follow one another: each takes its source, its time and its operation.
abbrev pub edits :
    (is_same : GoalState → GoalState → Bool)
    → List (String × String × (GoalState → Result Error GoalState))
    → GoalFile
    → GoalFile
edits is_same [] file = file
edits is_same ((source, now, op) ∷ more) file =
    edits is_same more (edit is_same source now op file).1

abbrev pub are_timed : List (String × String × (GoalState → Result Error GoalState)) → Bool
are_timed [] = true
are_timed ((source, now, op) ∷ more) = not (blank now) && are_timed more

edits-loads :
    (is_same : GoalState → GoalState → Bool)
    (ops : List (String × String × (GoalState → Result Error GoalState))) (file : GoalFile)
    → are_timed ops ≡ true
    → loads file ≡ true
    → loads (edits is_same ops file) ≡ true
edits-loads is_same [] file timed good = good
edits-loads is_same ((source, now, op) ∷ more) file timed good =
    edits-loads is_same more (edit is_same source now op file).1 (ground (arith, timed))
      (edit-loads is_same source now op file (ground (arith, timed)) good)

create-loads :
    (g : GoalState) (file : GoalFile)
    → (create_file g file).0 ≡ ok tt
    → loads (create_file g file).1 ≡ true
unfolding create_file load
create-loads g no_file created = elim (Result-cases (validate g)) [
  | inr (e, bad) ↦ ground (arith, created, bad)
  | inl (done, valid) ↦ ground (arith, valid)
]
create-loads g unreadable created = ground (arith, created)
create-loads g (held h) created = ground (arith, created)

-- A goal that has been created can be loaded behind any sequence of edits, whatever their
-- operations are and whether they fail, when their times are not blank.
pub create-edits-loads :
    (is_same : GoalState → GoalState → Bool) (g : GoalState) (file : GoalFile)
    (ops : List (String × String × (GoalState → Result Error GoalState)))
    → (create_file g file).0 ≡ ok tt
    → are_timed ops ≡ true
    → loads (edits is_same ops (create_file g file).1) ≡ true
create-edits-loads is_same g file ops created timed =
    edits-loads is_same ops (create_file g file).1 timed (create-loads g file created)

-- What an edit returns is on file, and has the nodes that its operation has made.
pub edit-nodes :
    (is_same : GoalState → GoalState → Bool) (source now : String)
    (op : GoalState → Result Error GoalState) (file : GoalFile) (g : GoalState)
    → ((x y : GoalState) → is_same x y ≡ true → x ≡ y)
    → (edit is_same source now op file).0 ≡ ok g
    → (before : GoalState) × (after : GoalState) × (op before ≡ ok after)
      × (g.nodes ≡ after.nodes)
      × ((edit is_same source now op file).1 ≡ held g)
unfolding edit
edit-nodes is_same source now op file g sound done = elim (Result-cases (load file)) [
  | inr (e, bad) ↦ ground (arith, done, bad)
  | inl (before, loaded) ↦ elim (Result-cases (op before)) [
    | inr (e, refused) ↦ ground (arith, done, loaded, refused)
    | inl (after, changed) ↦
        let marked = record after { events = stamped source (length before.events) after.events } in
        elim (Bool-cases (is_same after before)) [
          | inl same ↦
              let equal = sound after before same in
              (
                before,
                after,
                changed,
                ground (arith, done, loaded, changed, same, equal),
                ground (arith, done, loaded, changed, same),
              )
          | inr other ↦ elim (Result-cases (validate marked)) [
            | inr (e, bad) ↦ ground (arith, done, loaded, changed, other, bad)
            | inl (fine, still) ↦ (
              before,
              after,
              changed,
              ground (arith, done, loaded, changed, other, still),
              ground (arith, done, loaded, changed, other, still),
            )
          ]
        ]
  ]
]

pub edit-failed :
    (is_same : GoalState → GoalState → Bool) (source now : String)
    (op : GoalState → Result Error GoalState) (file : GoalFile) (e : StoreError)
    → (edit is_same source now op file).0 ≡ err e
    → (edit is_same source now op file).1 ≡ file
unfolding edit
edit-failed is_same source now op file e failed = elim (Result-cases (load file)) [
  | inr (e', bad) ↦ ground (arith, bad)
  | inl (before, loaded) ↦ elim (Result-cases (edited is_same source now op before)) [
    | inr (e', refused) ↦ rw (edit, loaded, refused) refl
    | inl (g, done) ↦ ground (arith, loaded, done, failed)
  ]
]
