-- ===== src/Daemon/Programs.antt =====
-- What a run of a watch in src/waitd.py counts and sends from the start of its program on.
use wait_skill.Daemon.Numbers.{attempts_of, is_before, numbered}
use wait_skill.Daemon.Sends.{most_attempts, proceed-Numbered, settle_result-Numbered}
use wait_skill.Prelude.{◌≤◌, true, false, ◌≡◌, refl, [], ◌∷◌, arith, sym}
use wait_skill.Daemon.State.{save_record, Entry, WatchResult, running}
use wait_skill.Daemon.Delivery.{behind}
use wait_skill.Daemon.Program.{Options, World, settle_result, execute_program}
use wait_skill.Daemon.Watch.{with_result, start_program}
use wait_skill.Daemon.Parts.{Numbered, behind-Numbered, part}

module _ (o : Options) (w : World) where
  -- A part that does nothing.
  pub idle-Numbered {ℓ} :
      {A : Type ℓ} (e : Entry) (x : A)
      → e.active ≡ true
      → attempts_of e ≤ most_attempts o
      → Numbered (most_attempts o) e (record { actions = []; entry = e; value = x })
  unfolding numbered
  idle-Numbered e x live room = record {
    safe = λ l fit reserved. refl;
    tracks = λ l. refl;
    within = room;
    lives = refl;
    active = live;
  }

  -- A save of the record that counts as it did, and stays before or behind the result.
  pub saved_again-Numbered {ℓ} :
      {A : Type ℓ} (e e1 : Entry) (x : A)
      → e1.active ≡ true
      → attempts_of e1 ≡ attempts_of e
      → is_before e1.phase ≡ is_before e.phase
      → attempts_of e ≤ most_attempts o
      → Numbered
          (most_attempts o)
          e
          (record { actions = save_record e1 ∷ []; entry = e1; value = x })
  unfolding numbered
  saved_again-Numbered e e1 x live same side room = record {
    safe = λ l fit reserved. ground (arith, same, side);
    tracks = λ l. refl;
    within = omega (arith, same, room);
    lives = ground arith;
    active = live;
  }

  settled :
      (r : WatchResult) (e : Entry)
      → r.notification_attempts ≡ 0
      → let s = settle_result o w r e in
        (is_before s.entry.phase ≡ false)
        × ((attempts_of s.entry ≡ s.value.0.notification_attempts)
            × (s.value.0.notification_attempts ≡ 0))
  unfolding settle_result
  settled r e fresh = (ground arith, (ground arith, ground arith))

  pub with_result-Numbered :
      (r : WatchResult) (e : Entry)
      → e.active ≡ true
      → attempts_of e ≡ 0
      → r.notification_attempts ≡ 0
      → Numbered (most_attempts o) e (with_result o w r e)
  unfolding with_result
  with_result-Numbered r e live none_saved fresh =
      let s = settle_result o w r e in
      let counts = settle_result-Numbered o w r e live none_saved fresh in
      let after = settled r e fresh in
      behind-Numbered (most_attempts o) e s _ (omega (arith, none_saved)) counts (
        proceed-Numbered o w s.entry.phase s.value.0 s.value.1 s.entry counts.active after.0
          after.1.0 (omega (arith, after.1.1)))

  execute_program-Numbered :
      (e : Entry)
      → e.active ≡ true
      → attempts_of e ≡ 0
      → is_before e.phase ≡ true
      → Numbered (most_attempts o) e (execute_program w e)
  unfolding execute_program numbered
  execute_program-Numbered e live none_saved early = record {
    safe = λ l fit reserved. ground (arith, none_saved);
    tracks = λ l. ground arith;
    within = ground arith;
    lives = ground arith;
    active = ground arith;
  }

  program_fresh :
      (e : Entry)
      → attempts_of e ≡ 0
      → (attempts_of (execute_program w e).entry ≡ 0)
        × ((execute_program w e).value.notification_attempts ≡ 0)
  unfolding execute_program
  program_fresh e none_saved = (ground arith, ground arith)

  pub start_program-Numbered :
      (e : Entry)
      → e.active ≡ true
      → attempts_of e ≡ 0
      → is_before e.phase ≡ true
      → Numbered (most_attempts o) e (start_program o w e)
  unfolding start_program
  start_program-Numbered e live none_saved early =
      let e1 : Entry = record e { phase = running } in
      let p = execute_program w e1 in
      let fresh = program_fresh e1 none_saved in
      let runs = execute_program-Numbered e1 live none_saved refl in
      behind-Numbered (most_attempts o) e (part (save_record e1 ∷ []) e1) (behind p.actions _)
        (omega (arith, none_saved))
        (saved_again-Numbered e e1 tt live refl (sym early) (omega (arith, none_saved)))
        (behind-Numbered (most_attempts o) e1 p _ (omega (arith, none_saved)) runs
          (with_result-Numbered p.value p.entry runs.active fresh.0 fresh.1))
