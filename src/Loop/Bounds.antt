-- ===== src/Loop/Bounds.antt =====
-- The runs, the limit of iterations and the timer of the loops of src/loop.py.
use wait_skill.Prelude.{
  ℕ, ◌+◌, ◌≤◌, Bool, true, false, ◌&&◌, ◌||◌, ◌≡◌, refl, String, [], ◌∷◌, Option, none, some, ok,
  arith, leb, length, length-append, inl, inr, Bool-cases, >>=-eq-ok,
}
use wait_skill.Loop.State.{
  LoopState, Run, is_active, is_waiting, is_running, validate, validate_numbers, GoalFiles,
  goal_is_open,
}
use wait_skill.Loop.Lifecycle.{
  append_event, cancel, record_run, end_loop, schedule, complete, require_active_wait, expire_now,
  begin_now, begin, expire, first_state, link_goal, init, LoopSpec, Command, complete_command,
  begin_command, expire_command, cancel_command, run, at_limit,
}

abbrev pub limit_holds : Option ℕ → ℕ → Bool
limit_holds none n = true
limit_holds (some l) n = leb n l

abbrev pub time_holds : Option ℕ → ℕ → Bool
time_holds none d = true
time_holds (some t) d = leb t d

abbrev pub waits : LoopState → Bool
waits s = is_active s.status && is_waiting s.phase

abbrev pub runs_now : LoopState → Bool
runs_now s = is_active s.status && is_running s.phase

-- A running loop has one unfinished run and a waiting one has none, no iteration passes the limit, a waiting loop has room for one more
-- iteration, and its timer does not pass the deadline.
pub record IsBounded (s : LoopState) : Type 0 where
  pub runs_le : length s.runs ≤ s.iteration
  pub iteration_le : s.iteration ≤ length s.runs + 1
  pub waiting_done : waits s ≡ true → s.iteration ≡ length s.runs
  pub running_open : runs_now s ≡ true → s.iteration ≡ length s.runs + 1
  pub limit : limit_holds s.max_iterations s.iteration ≡ true
  pub waiting_room : waits s ≡ true → limit_holds s.max_iterations (s.iteration + 1) ≡ true
  pub timer : time_holds s.next_run_at s.deadline_at ≡ true

cancel-IsBounded : (at : ℕ) (s s' : LoopState) → IsBounded s → cancel at s ≡ ok s' → IsBounded s'
unfolding cancel append_event
cancel-IsBounded at s s' b h = ground arith

module _ (summary : String) (now at : ℕ) (s : LoopState) (b : IsBounded s)
    (running_now : runs_now s ≡ true) where
  one_more : length (record_run summary now s).runs ≡ s.iteration
  unfolding record_run
  one_more =
      let r : Run = record { iteration = s.iteration; summary = summary; completed_at = now } in
      omega (arith, length-append {0} s.runs (r ∷ []), b.running_open running_now)

  end_loop-IsBounded : IsBounded (end_loop at (record_run summary now s))
  unfolding end_loop append_event record_run
  end_loop-IsBounded = record {
    runs_le = ground (arith, one_more);
    iteration_le = ground (arith, one_more);
    waiting_done = λ e. cc;
    running_open = λ e. cc;
    limit = b.limit;
    waiting_room = λ e. cc;
    timer = refl;
  }

  schedule-IsBounded :
      (token : String)
      → at_limit s.max_iterations s.iteration ≡ false
      → IsBounded (schedule token now at (record_run summary now s))
  unfolding schedule append_event record_run
  schedule-IsBounded token room = record {
    runs_le = ground (arith, one_more);
    iteration_le = ground (arith, one_more);
    waiting_done = λ e. ground (arith, one_more);
    running_open = λ e. ground arith;
    limit = b.limit;
    waiting_room = λ e. ground arith;
    timer = ground arith;
  }

module _ (files : GoalFiles) where
  complete-IsBounded :
      (summary token : String) (now at : ℕ) (s s' : LoopState)
      → IsBounded s
      → complete files summary token now at s ≡ ok s'
      → IsBounded s'
  unfolding complete
  complete-IsBounded summary token now at s s' b h = elim (Bool-cases (runs_now s)) [
    | inr idle ↦ ground arith
    | inl running_now ↦ elim (Bool-cases (goal_is_open files s)) [
      | inr shut ↦ cancel-IsBounded now s s' b (ground arith)
      | inl open_now ↦
          elim (Bool-cases (leb s.deadline_at now || at_limit s.max_iterations s.iteration)) [
            | inl over ↦
                let e : end_loop at (record_run summary now s) ≡ s' = ground arith in
                rw e at (end_loop-IsBounded summary now at s b running_now)
            | inr on ↦
                let e : schedule token now at (record_run summary now s) ≡ s' = ground arith in
                rw e at (schedule-IsBounded summary now at s b running_now token (ground arith))
          ]
    ]
  ]

  begin-IsBounded :
      (event_id : String) (now at : ℕ) (s : LoopState) (r : LoopState × Bool)
      → IsBounded s
      → begin files event_id now at s ≡ ok r
      → IsBounded r.0
  unfolding begin require_active_wait expire_now begin_now append_event
  begin-IsBounded event_id now at s r b h = ground arith

  expire-IsBounded :
      (event_id : String) (now at : ℕ) (s : LoopState) (r : LoopState × Bool)
      → IsBounded s
      → expire files event_id now at s ≡ ok r
      → IsBounded r.0
  unfolding expire require_active_wait expire_now append_event
  expire-IsBounded event_id now at s r b h = ground arith

  run-IsBounded :
      (c : Command) (s s' : LoopState) → IsBounded s → run files c s ≡ ok s' → IsBounded s'
  unfolding run
  run-IsBounded (complete_command summary token now at) s s' b h =
      complete-IsBounded summary token now at s s' b h
  run-IsBounded (begin_command event_id now at) s s' b h =
      let (r, p, q) = >>=-eq-ok (begin files event_id now at s) _ h in
      let e : r.0 ≡ s' = ground arith in rw e at (begin-IsBounded event_id now at s r b p)
  run-IsBounded (expire_command event_id now at) s s' b h =
      let (r, p, q) = >>=-eq-ok (expire files event_id now at s) _ h in
      let e : r.0 ≡ s' = ground arith in rw e at (expire-IsBounded event_id now at s r b p)
  run-IsBounded (cancel_command at) s s' b h = cancel-IsBounded at s s' b h

  link_goal-IsBounded :
      (goal_state goal_node : Option String) (s s' : LoopState)
      → IsBounded s
      → link_goal files goal_state goal_node s ≡ ok s'
      → IsBounded s'
  unfolding link_goal
  link_goal-IsBounded (some state) (some node) s s' b h = ground arith
  link_goal-IsBounded (some state) none s s' b h = ground arith
  link_goal-IsBounded none (some node) s s' b h = ground arith
  link_goal-IsBounded none none s s' b h = ground arith

  first_state-IsBounded :
      (a : LoopSpec) (now : ℕ)
      → validate_numbers (first_state a now) ≡ ok tt
      → IsBounded (first_state a now)
  unfolding validate_numbers first_state
  first_state-IsBounded a now h = record {
    runs_le = ground arith;
    iteration_le = ground arith;
    waiting_done = λ e. cc;
    running_open = λ e. refl;
    limit = ground arith;
    waiting_room = λ e. cc;
    timer = refl;
  }

  init-IsBounded : (a : LoopSpec) (now : ℕ) (s : LoopState) → init files a now ≡ ok s → IsBounded s
  unfolding init validate
  init-IsBounded a now s h =
      let (u, valid, linked) = >>=-eq-ok (validate (first_state a now)) _ h in
      let (s', link, again) =
        >>=-eq-ok (link_goal files a.goal_state a.goal_node (first_state a now)) _ linked in
      let e : s' ≡ s = ground arith in
      rw e at (
        link_goal-IsBounded a.goal_state a.goal_node (first_state a now) s'
          (first_state-IsBounded a now (ground arith)) link)

-- The states of src/loop.py: a new loop, and what its commands make of it. The files of goals may
-- change between the commands.
pub data Reachable : LoopState → Type 0 where
  created :
      {s : LoopState} (files : GoalFiles) (a : LoopSpec) (now : ℕ)
      → init files a now ≡ ok s
      → Reachable s
  ran :
      {s s' : LoopState} (files : GoalFiles) (c : Command)
      → Reachable s
      → run files c s ≡ ok s'
      → Reachable s'

-- In every state that the commands reach from a new loop, each iteration has one recorded run, but
-- for the one that is running, which has none yet; the number of iterations does not pass the limit, a waiting
-- loop has room for one more, and its next run is not after the deadline.
pub Reachable-IsBounded : (s : LoopState) → Reachable s → IsBounded s
Reachable-IsBounded s (created files a now e) = init-IsBounded files a now s e
Reachable-IsBounded s' (ran {s} files c r e) =
    run-IsBounded files c s s' (Reachable-IsBounded s r) e
