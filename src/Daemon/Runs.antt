-- ===== src/Daemon/Runs.antt =====
-- What a whole run of `_run_watch` in src/waitd.py counts and sends.
use wait_skill.Daemon.Numbers.{attempts_of, is_before, fits, counts_none, numbered, numbered-append}
use wait_skill.Daemon.Sends.{most_attempts, proceed-Numbered}
use wait_skill.Prelude.{
  ℕ, ◌≤◌, Bool, true, false, ◌≡◌, refl, [], ◌∷◌, arith, Option, none, some, sym, ap,
}
use wait_skill.Daemon.State.{
  Action, save_log, save_record, execute, notify, persist, Entry, Disk, WatchResult, settle, apply,
  Phase, activating, queued, running, querying, notifying, awaiting_ack, finalizing, held, released,
}
use wait_skill.Daemon.State
use wait_skill.Daemon.Delivery.{Done, behind}
use wait_skill.Daemon.Program.{
  Options, World, recovered, Activation, active, cancelled, timeout, unfinished, activate_goal_wait,
}
use wait_skill.Daemon.Watch.{
  Ending, give_up, activate_by, activate, take_up, steps, with_lock, watch, last_save, run_watch,
  returned, raised, goes_on,
}
use wait_skill.Daemon.Parts.{on_disk, Numbered, behind-Numbered, part}
use wait_skill.Daemon.Programs.{
  idle-Numbered, saved_again-Numbered, with_result-Numbered, start_program-Numbered,
}

module _ (o : Options) (w : World) where
  give_up-Numbered :
      (event : State.Event) (e : Entry)
      → e.active ≡ true
      → attempts_of e ≡ 0
      → Numbered (most_attempts o) e (give_up event e)
  unfolding give_up numbered
  give_up-Numbered event e live none_saved = record {
    safe = λ l fit reserved. ground arith;
    tracks = λ l. refl;
    within = omega arith;
    lives = ground arith;
    active = live;
  }

  activate_by-Numbered :
      (a : Activation) (e : Entry)
      → e.active ≡ true
      → attempts_of e ≡ 0
      → is_before e.phase ≡ true
      → Numbered (most_attempts o) e (activate_by o w e a)
  unfolding activate_by
  activate_by-Numbered active e live none_saved early =
      let e1 : Entry = record e { phase = queued } in
      behind-Numbered (most_attempts o) e (part (save_record e1 ∷ []) e1) _
        (omega (arith, none_saved))
        (saved_again-Numbered o w e e1 tt live refl (sym early) (omega (arith, none_saved)))
        (start_program-Numbered o w e1 live none_saved refl)
  activate_by-Numbered cancelled e live none_saved early = give_up-Numbered _ e live none_saved
  activate_by-Numbered timeout e live none_saved early = give_up-Numbered _ e live none_saved
  activate_by-Numbered unfinished e live none_saved early =
      idle-Numbered o w e goes_on live (omega (arith, none_saved))

  take_up-Numbered :
      (saved : Option WatchResult) (given : Option ℕ) (e : Entry)
      → e.result ≡ saved
      → e.active ≡ true
      → is_before e.phase ≡ false
      → attempts_of e ≤ most_attempts o
      → Numbered (most_attempts o) e (take_up saved given o w e)
  unfolding take_up
  take_up-Numbered none none e same live late room = idle-Numbered o w e raised live room
  take_up-Numbered none (some code) e same live late room = idle-Numbered o w e raised live room
  take_up-Numbered (some r) none e same live late room = idle-Numbered o w e raised live room
  take_up-Numbered (some r) (some code) e same live late room =
      let counted : attempts_of e ≡ r.notification_attempts =
        ap (λ x. elim x [ none ↦ 0 | some y ↦ y.notification_attempts ]) same in
      proceed-Numbered o w e.phase r code e live late counted (omega (arith, counted, room))

  recovered_fresh :
      (log : Option WatchResult)
      → counts_none log ≡ true
      → (recovered log).notification_attempts ≡ 0
  recovered_fresh none h = refl
  recovered_fresh (some r) h = ground arith

  -- In an early phase nothing is counted yet.
  early_counts :
      (e : Entry) (log : Option WatchResult)
      → fits (on_disk e log) ≡ true
      → is_before e.phase ≡ true
      → (attempts_of e ≡ 0) × (counts_none log ≡ true)
  early_counts e log fit early = (ground arith, ground arith)

  steps-Numbered :
      (p : Phase) (log : Option WatchResult) (e : Entry)
      → e.phase ≡ p
      → e.active ≡ true
      → fits (on_disk e log) ≡ true
      → attempts_of e ≤ most_attempts o
      → Numbered (most_attempts o) e (steps p o w log e)
  unfolding steps activate
  steps-Numbered activating log e h live fit room =
      activate_by-Numbered (activate_goal_wait w.rounds) e live
        (early_counts e log fit (ap is_before h)).0 (ap is_before h)
  steps-Numbered queued log e h live fit room =
      start_program-Numbered o w e live (early_counts e log fit (ap is_before h)).0 (ap is_before h)
  steps-Numbered running log e h live fit room =
      let none_yet = early_counts e log fit (ap is_before h) in
      with_result-Numbered o w (recovered log) e live none_yet.0 (recovered_fresh log none_yet.1)
  steps-Numbered querying log e h live fit room =
      let none_yet = early_counts e log fit (ap is_before h) in
      with_result-Numbered o w (recovered log) e live none_yet.0 (recovered_fresh log none_yet.1)
  steps-Numbered notifying log e h live fit room =
      take_up-Numbered e.result e.code e refl live (ap is_before h) room
  steps-Numbered awaiting_ack log e h live fit room =
      take_up-Numbered e.result e.code e refl live (ap is_before h) room
  steps-Numbered finalizing log e h live fit room =
      take_up-Numbered e.result e.code e refl live (ap is_before h) room

  with_lock-Numbered :
      (has_lock gets_lock : Bool) (d : Disk)
      → d.entry.active ≡ true
      → fits d ≡ true
      → attempts_of d.entry ≤ most_attempts o
      → Numbered (most_attempts o) d.entry (with_lock has_lock gets_lock o w d)
  unfolding with_lock
  with_lock-Numbered false gets_lock d live fit room =
      steps-Numbered d.entry.phase d.log d.entry refl live fit room
  with_lock-Numbered true false d live fit room = idle-Numbered o w d.entry _ live room
  with_lock-Numbered true true d live fit room =
      let most = most_attempts o in
      let e1 : Entry = record d.entry { lock_status = held } in
      let inside = steps e1.phase o w d.log e1 in
      let counts = steps-Numbered e1.phase d.log e1 refl live fit room in
      let out : Entry = record inside.entry { lock_status = released } in
      let last : Done Ending = record {
        actions = save_record out ∷ [];
        entry = out;
        value = inside.value;
      } in
      behind-Numbered most d.entry (part (save_record e1 ∷ []) e1) (behind inside.actions last) room
        (saved_again-Numbered o w d.entry e1 tt live refl refl room)
        (behind-Numbered most e1 inside last room counts (
          saved_again-Numbered o w inside.entry out inside.value counts.active refl refl
            counts.within))

last_save-numbered :
    (most : ℕ) (was_cancelled : Bool) (ending : Ending) (e : Entry) (d : Disk) (reserved : Bool)
    → numbered most d reserved (last_save was_cancelled ending e) ≡ true
unfolding last_save numbered
last_save-numbered most false (returned r code) e d reserved = refl
last_save-numbered most false raised e d reserved = refl
last_save-numbered most false goes_on e d reserved = refl
last_save-numbered most true (returned r code) e d reserved = refl
last_save-numbered most true raised e d reserved = refl
last_save-numbered most true goes_on e d reserved = refl

-- A run of a watch keeps to the monitor of attempts.
pub run_watch-numbered :
    (o : Options) (w : World) (was_cancelled : Bool) (d : Disk)
    → d.entry.active ≡ true
    → fits d ≡ true
    → attempts_of d.entry ≤ most_attempts o
    → numbered (most_attempts o) d false (run_watch o w was_cancelled d) ≡ true
unfolding run_watch watch
run_watch-numbered o w was_cancelled d live fit room =
    let run = with_lock o.has_lock_file w.gets_lock o w d in
    let counts = with_lock-Numbered o w o.has_lock_file w.gets_lock d live fit room in
    numbered-append (most_attempts o) d false run.actions _ counts.lives
      (counts.safe d.log fit false)
      (λ later. last_save-numbered _ was_cancelled run.value run.entry _ later)
