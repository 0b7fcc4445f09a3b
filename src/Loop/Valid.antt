-- ===== src/Loop/Valid.antt =====
-- The validity of a loop of src/loop.py behind a transition.
use wait_skill.Prelude.{
  ◌==◌, none, ◌&&◌, ◌||◌, leb, not, ◌≡◌, refl, true, false, Bool, String, ℕ, ok, >>=-eq-ok, arith,
  Bool-cases, inl, inr,
}
use wait_skill.Loop.State.{
  LoopState, validate, validate_identity, validate_phase, validate_numbers, validate_wait,
  GoalFiles, is_active, is_completed, cancelled, is_running, goal_is_open, is_text,
}
use wait_skill.Loop.Lifecycle.{
  append_event, cancel, record_run, end_loop, schedule, complete, require_active_wait, expire_now,
  begin_now, begin, expire, Command, complete_command, begin_command, expire_command,
  cancel_command, run, at_limit,
}

record Parts (s : LoopState) : Type 0 where
  pub identity : validate_identity s ≡ ok tt
  pub phase : validate_phase s ≡ ok tt
  pub numbers : validate_numbers s ≡ ok tt
  pub wait : validate_wait s ≡ ok tt

parts : (s : LoopState) → validate s ≡ ok tt → Parts s
unfolding validate
parts s h =
    let (u, p, h1) = >>=-eq-ok (validate_identity s) _ h in
    let (v, q, h2) = >>=-eq-ok (validate_phase s) _ h1 in
    let (w, r, t) = >>=-eq-ok (validate_numbers s) _ h2 in
    record { identity = p; phase = q; numbers = r; wait = t }

joined : (s : LoopState) → Parts s → validate s ≡ ok tt
unfolding validate
joined s p = simp (p.identity, p.phase, p.numbers, p.wait)

-- `uuid4().hex` is not empty.
abbrev pub token_is_named : Command → Bool
token_is_named (complete_command summary token now at) = not (token == "")
token_is_named _ = true

module _ (s : LoopState) (p : Parts s) where
  cancel-validate : (at : ℕ) (s' : LoopState) → cancel at s ≡ ok s' → Parts s'
  unfolding cancel append_event validate_identity validate_phase validate_numbers validate_wait
  cancel-validate at s' h = elim (Bool-cases (is_completed s.status)) [
    | inl e ↦ ground arith
    | inr e ↦
        let s1 : LoopState = record s {
          status = cancelled;
          phase = none;
          next_run_at = none;
          watch_id = none;
        } in
        let e : append_event "cancel" none none at s1 ≡ s' = ground arith in
        let q : Parts (append_event "cancel" none none at s1) = record {
          identity = p.identity;
          phase = refl;
          numbers = p.numbers;
          wait = refl;
        } in
        rw e at q
  ]

  end_loop-validate :
      (summary : String) (now at : ℕ) → Parts (end_loop at (record_run summary now s))
  unfolding end_loop append_event record_run validate_identity validate_phase validate_numbers
      validate_wait
  end_loop-validate summary now at = record {
    identity = p.identity;
    phase = refl;
    numbers = p.numbers;
    wait = refl;
  }

  expire_now-validate : (event_id : String) (at : ℕ) → Parts (expire_now event_id at s)
  unfolding expire_now append_event validate_identity validate_phase validate_numbers validate_wait
  expire_now-validate event_id at = record {
    identity = p.identity;
    phase = refl;
    numbers = p.numbers;
    wait = refl;
  }

  begin_now-validate :
      (event_id : String) (at : ℕ) → is_active s.status ≡ true → Parts (begin_now event_id at s)
  unfolding begin_now append_event validate_identity validate_phase validate_numbers validate_wait
  begin_now-validate event_id at e = record {
    identity = p.identity;
    phase = ground arith;
    numbers = ground (arith, p.numbers);
    wait = ground arith;
  }

  schedule-validate :
      (summary token : String) (now at : ℕ)
      → (token == "") ≡ false
      → is_active s.status ≡ true
      → Parts (schedule token now at (record_run summary now s))
  unfolding schedule append_event record_run validate_identity validate_phase validate_numbers
      validate_wait
  schedule-validate summary token now at named e = record {
    identity = p.identity;
    phase = ground arith;
    numbers = p.numbers;
    wait = ground arith;
  }

  complete-validate :
      (files : GoalFiles) (summary token : String) (now at : ℕ) (s' : LoopState)
      → (token == "") ≡ false
      → complete files summary token now at s ≡ ok s'
      → Parts s'
  unfolding complete
  complete-validate files summary token now at s' named h =
      elim (Bool-cases (is_active s.status && is_running s.phase)) [
        | inr idle ↦ ground arith
        | inl running_now ↦ elim (Bool-cases (goal_is_open files s)) [
          | inr shut ↦ cancel-validate now s' (ground arith)
          | inl open_now ↦
              elim (Bool-cases (leb s.deadline_at now || at_limit s.max_iterations s.iteration)) [
                | inl over ↦
                    let e : end_loop at (record_run summary now s) ≡ s' = ground arith in
                    rw e at (end_loop-validate summary now at)
                | inr on ↦
                    let e : schedule token now at (record_run summary now s) ≡ s' = ground arith in
                    rw e at (schedule-validate summary token now at named (ground arith))
              ]
        ]
      ]

  begin-validate :
      (files : GoalFiles) (event_id : String) (now at : ℕ) (r : LoopState × Bool)
      → begin files event_id now at s ≡ ok r
      → Parts r.0
  unfolding begin require_active_wait
  begin-validate files event_id now at r h = elim (Bool-cases (is_text s.last_event_id event_id)) [
    | inl known ↦ let e : s ≡ r.0 = ground arith in rw e at p
    | inr fresh ↦ elim (Bool-cases (leb s.deadline_at now)) [
      | inl late ↦
          let e : expire_now event_id at s ≡ r.0 = ground arith in
          rw e at (expire_now-validate event_id at)
      | inr early ↦
          let e : begin_now event_id at s ≡ r.0 = ground arith in
          rw e at (begin_now-validate event_id at (ground arith))
    ]
  ]

  expire-validate :
      (files : GoalFiles) (event_id : String) (now at : ℕ) (r : LoopState × Bool)
      → expire files event_id now at s ≡ ok r
      → Parts r.0
  unfolding expire require_active_wait
  expire-validate files event_id now at r h = elim (Bool-cases (is_text s.last_event_id event_id)) [
    | inl known ↦ let e : s ≡ r.0 = ground arith in rw e at p
    | inr fresh ↦
        let e : expire_now event_id at s ≡ r.0 = ground arith in
        rw e at (expire_now-validate event_id at)
  ]

  run-Parts :
      (files : GoalFiles) (c : Command) (s' : LoopState)
      → token_is_named c ≡ true
      → run files c s ≡ ok s'
      → Parts s'
  unfolding run
  run-Parts files (complete_command summary token now at) s' named h =
      complete-validate files summary token now at s' (ground arith) h
  run-Parts files (begin_command event_id now at) s' named h =
      let (r, q, last) = >>=-eq-ok (begin files event_id now at s) _ h in
      let e : r.0 ≡ s' = ground arith in rw e at (begin-validate files event_id now at r q)
  run-Parts files (expire_command event_id now at) s' named h =
      let (r, q, last) = >>=-eq-ok (expire files event_id now at s) _ h in
      let e : r.0 ≡ s' = ground arith in rw e at (expire-validate files event_id now at r q)
  run-Parts files (cancel_command at) s' named h = cancel-validate at s' h

-- A valid loop that a command changes without an error is valid again, so that the check before
-- the file is written never refuses it. The new identifier of a wait must not be empty.
pub run-validate :
    (files : GoalFiles) (c : Command) (s s' : LoopState)
    → token_is_named c ≡ true
    → validate s ≡ ok tt
    → run files c s ≡ ok s'
    → validate s' ≡ ok tt
run-validate files c s s' named valid h = joined s' (run-Parts s (parts s valid) files c s' named h)
