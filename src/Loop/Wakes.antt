-- ===== src/Loop/Wakes.antt =====
-- The timer of src/loop.py: what `due` answers, and what the events that it sends do.
use wait_skill.Prelude.{
  none, some, ◌≡◌, refl, true, false, Bool, String, ℕ, ok, arith, Bool-cases, inl, inr, ◌==◌,
  eq_refl, sym, leb, ◌+◌, ◌≤◌, if◌then◌else◌, ◌&&◌, ◌||◌,
}
use wait_skill.Loop.State.{
  active, completed, running, LoopState, GoalFiles, goal_is_open, is_text, is_active, is_running,
}
use wait_skill.Loop.Lifecycle.{
  append_event, complete, schedule, end_loop, record_run, require_active_wait, expire_now,
  begin_now, begin, expire, due, Due, is_ready, is_expired, must_wait, at_limit, cancel,
}

abbrev pub is_due : Due → Bool
is_due is_ready = true
is_due is_expired = true
is_due _ = false

-- An event that `begin` has accepted is known from then on: to send it again, at any time and
-- whatever the file of the goal holds then, changes nothing and is reported as a duplicate.
pub begin-twice :
    (files files' : GoalFiles) (event_id : String) (now at now' at' : ℕ) (s : LoopState)
    (r : LoopState × Bool)
    → begin files event_id now at s ≡ ok r
    → (begin files' event_id now' at' r.0 ≡ ok (r.0, true))
      × (expire files' event_id now' at' r.0 ≡ ok (r.0, true))
unfolding begin expire require_active_wait begin_now expire_now append_event
begin-twice files files' event_id now at now' at' s r h =
    let known : (event_id == event_id) ≡ true = eq_refl event_id in
    (ground (arith, known), ground (arith, known))

module _ (files : GoalFiles) (event_id : String) (seen now at : ℕ) (s : LoopState)
    (passed : seen ≤ now) (open_now : goal_is_open files s ≡ true)
    (fresh : is_text s.last_event_id event_id ≡ false) where
  -- When `due` has answered that a wait is ready or has expired, and the event has not been
  -- consumed and the goal of the loop is open, `begin` accepts the event at every later time: from
  -- the deadline on, it completes the loop with its iteration as it was; before, the loop stays
  -- active and runs its next iteration. Either way the event is the last one, the timer is taken
  -- off, so that `due` has no identifier ready or expired in the new state at any time, and the
  -- runs and the deadline stay as they were.
  pub due-begin :
      is_due (due event_id seen s) ≡ true
      → (s' : LoopState) × (begin files event_id now at s ≡ ok (s', false))
        × (s'.status ≡ (if leb s.deadline_at now then completed else active))
        × (s'.phase ≡ (if leb s.deadline_at now then none else some running))
        × (s'.iteration ≡ (if leb s.deadline_at now then s.iteration else s.iteration + 1))
        × (s'.last_event_id ≡ some event_id)
        × (s'.watch_id ≡ none)
        × (s'.next_run_at ≡ none)
        × ((token : String) (later : ℕ) → is_due (due token later s') ≡ false)
        × (s'.runs ≡ s.runs)
        × (s'.deadline_at ≡ s.deadline_at)
  unfolding due begin require_active_wait begin_now expire_now append_event
  due-begin e = elim (Bool-cases (leb s.deadline_at now)) [
    | inl over ↦ (
      expire_now event_id at s,
      ground arith,
      rw over refl,
      rw over refl,
      rw over refl,
      refl,
      refl,
      refl,
      λ token later. ground arith,
      refl,
      refl,
    )
    | inr on ↦ (
      begin_now event_id at s,
      ground arith,
      rw on (ground arith),
      rw on refl,
      rw on refl,
      refl,
      refl,
      refl,
      λ token later. ground arith,
      refl,
      refl,
    )
  ]

  -- When `due` has answered that a wait has expired, and the event has not been consumed and the
  -- goal of the loop is open, `expire` accepts the event at every later time and ends the loop.
  pub due-expire :
      due event_id seen s ≡ is_expired
      → expire files event_id now at s ≡ ok (expire_now event_id at s, false)
  unfolding due expire require_active_wait
  due-expire e = ground arith

ended-active :
    (summary : String) (now at : ℕ) (s : LoopState)
    → is_active (end_loop at (record_run summary now s)).status ≡ false
unfolding end_loop append_event
ended-active summary now at s = refl

cancelled-active : (at : ℕ) (s s' : LoopState) → cancel at s ≡ ok s' → is_active s'.status ≡ false
unfolding cancel append_event
cancelled-active at s s' h = ground arith

-- The state that a completed iteration leaves active is scheduled.
pub complete-schedule :
    (files : GoalFiles) (summary token : String) (now at : ℕ) (s s' : LoopState)
    → complete files summary token now at s ≡ ok s'
    → is_active s'.status ≡ true
    → (is_active s.status ≡ true) × (s' ≡ schedule token now at (record_run summary now s))
unfolding complete
complete-schedule files summary token now at s s' h e =
    elim (Bool-cases (is_active s.status && is_running s.phase)) [
      | inr idle ↦ ground arith
      | inl running_now ↦ elim (Bool-cases (goal_is_open files s)) [
        | inr shut ↦ let off = cancelled-active now s s' (ground arith) in ground arith
        | inl open_now ↦
            elim (Bool-cases (leb s.deadline_at now || at_limit s.max_iterations s.iteration)) [
              | inl over ↦
                  let same : end_loop at (record_run summary now s) ≡ s' = ground arith in
                  let off = ended-active summary now at s in ground arith
              | inr on ↦ (ground arith, ground arith)
            ]
      ]
    ]

schedule-due :
    (summary token : String) (now at later : ℕ) (s : LoopState)
    → is_active s.status ≡ true
    → due token later (schedule token now at (record_run summary now s)) ≡ (
        if leb s.deadline_at later
        then is_expired
        else if leb (now + s.interval_seconds) later
        then is_ready
        else must_wait)
unfolding due schedule record_run append_event
schedule-due summary token now at later s was =
    let same : (token == token) ≡ true = eq_refl token in ground arith

-- A completed iteration that leaves the loop active sets a timer with the new identifier: `due`
-- says that the wait has expired from the deadline on, that it is ready from the interval's end
-- on, and to wait before; it says nothing else.
pub complete-due :
    (files : GoalFiles) (summary token : String) (now at later : ℕ) (s s' : LoopState)
    → complete files summary token now at s ≡ ok s'
    → is_active s'.status ≡ true
    → due token later s' ≡ (
        if leb s.deadline_at later
        then is_expired
        else if leb (now + s.interval_seconds) later
        then is_ready
        else must_wait)
complete-due files summary token now at later s s' h e =
    let (was, q) = complete-schedule files summary token now at s s' h e in
    rw (sym q) at (schedule-due summary token now at later s was)
