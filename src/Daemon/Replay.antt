-- ===== src/Daemon/Replay.antt =====
-- src/waitd.py, `_watch` after a stop of the service behind an attempt of which it is not known
-- whether it has reached codex.
use wait_skill.Prelude.{
  ℕ, suc, ◌+◌, ◌-◌, Bool, true, false, ◌≡◌, refl, sym, ap, List, [], ◌∷◌, ◌++◌, arith, Option, none,
  some, ◌∙◌,
}
use wait_skill.Goal.State.{codex}
use wait_skill.Watch.Delivery.{notification_limits}
use wait_skill.Daemon.State.{
  Action, save_log, save_record, execute, notify, persist, Entry, Disk, WatchResult, settle, ended,
  unconfirmed, retrying, Notification, notifying, held, released, exit_notify_failed,
}
use wait_skill.Daemon.State
use wait_skill.Daemon.Delivery.{
  Surroundings, behind, Delivery, CommandEnd, not_started, killed, exited, is_unconfirmed, verdict,
  follow_up, attempts_from, deliver, store, reserve, mark, seen_exit, is_zero,
}
use wait_skill.Daemon.Program.{Options, World}
use wait_skill.Daemon.Watch.{
  run_watch, watch, with_lock, steps, take_up, proceed, notify_client, conclude, last_save,
}
use wait_skill.Daemon.Numbers.{sent}
use wait_skill.Daemon.Crashes.{Life, submitted, ran}
use wait_skill.Daemon.Unconfirmed.{verdict_unconfirmed}

-- A watch for codex with at least two attempts.
abbrev pub codex_options : (left : ℕ) (has_goal : Bool) (timeout : Option ℕ) (ack : ℕ) → Options
codex_options left has_goal timeout ack = record {
  client = codex;
  notifies = true;
  has_lock_file = true;
  has_goal = has_goal;
  limit = some (suc (suc left));
  timeout = timeout;
  wake_ack_timeout = ack;
}

-- The files of a watch that has a result and has made no attempt yet.
abbrev pub pending_result : WatchResult → WatchResult
pending_result r = record r { notification = some State.pending; notification_attempts = 0 }

abbrev pub notifying_disk : Entry → WatchResult → ℕ → Option WatchResult → Disk
notifying_disk e r code log = record {
  entry = record e {
    active = true;
    phase = notifying;
    result = some (pending_result r);
    code = some code;
  };
  log = log;
}

-- The record with the lock held.
abbrev locked : Entry → Entry
locked e = record e { lock_status = held }

-- A run with the lock, to the save of the end of the first attempt.
abbrev unconfirmed_result : CommandEnd → WatchResult → WatchResult
unconfirmed_result end r = mark (ended unconfirmed) (seen_exit end (reserve 1 (pending_result r)))

abbrev first_attempt : World → WatchResult → Entry → List Action
first_attempt w r e =
    let e1 = locked e in
    let r1 = reserve 1 r in
    let r2 = mark (ended unconfirmed) (seen_exit (w.surroundings.command_end 1) r1) in
    save_record e1 ∷ (persist r1 e1 ++ notify 1 ∷ persist r2 (store e1 r1))

-- The files after it.
abbrev unconfirmed_disk : CommandEnd → Entry → WatchResult → ℕ → Option WatchResult → Disk
unconfirmed_disk end e r code log = record {
  entry = store (locked (notifying_disk e r code log).entry) (unconfirmed_result end r);
  log = some (unconfirmed_result end r);
}

-- A run with the lock, to the start of the command of the second attempt.
abbrev second_attempt : WatchResult → Entry → List Action
second_attempt r e = save_record (locked e) ∷ (persist (reserve 2 r) (locked e) ++ notify 2 ∷ [])

attempt_open :
    (s : Surroundings) (n left k : ℕ) (r : WatchResult) (e : Entry)
    → n ≡ suc left
    → s.stops k ≡ false
    → s.has_endpoint k ≡ true
    → is_unconfirmed codex (s.command_end k) ≡ true
    → attempts_from s codex n k r e ≡ record {
      actions =
          persist (reserve k r) e
          ++ notify k
            ∷ persist
                (mark (ended unconfirmed) (seen_exit (s.command_end k) (reserve k r)))
                (store e (reserve k r));
      entry =
          store
            (store e (reserve k r))
            (mark (ended unconfirmed) (seen_exit (s.command_end k) (reserve k r)));
      value = (
        some exit_notify_failed,
        mark (ended unconfirmed) (seen_exit (s.command_end k) (reserve k r)),
      );
    }
unfolding attempts_from follow_up
attempt_open s n left k r e go_on go resolved open_end =
    rw (go_on, go, resolved, verdict_unconfirmed s (s.command_end k) open_end) refl

-- What a run in the phase of notifying does with the lock, given its delivery.
abbrev after : Options → World → ℕ → Entry → Delivery → List Action
after o w code e d =
    let run = behind d.actions (conclude o w d.value.0 d.value.1 code d.entry) in
    let out = record run.entry { lock_status = released } in
    save_record (locked e) ∷ (run.actions ++ save_record out ∷ []) ++ last_save false run.value out

run_locked :
    (left ack : ℕ) (has_goal : Bool) (timeout : Option ℕ) (w : World) (d : Disk)
    → w.gets_lock ≡ true
    → (let o = codex_options left has_goal timeout ack in
        let run = with_lock true true o w d in
        run_watch o w false d ≡ run.actions ++ last_save false run.value run.entry)
unfolding run_watch watch
run_locked left ack has_goal timeout w d free =
    let o = codex_options left has_goal timeout ack in
    ap (λ b. let run = with_lock true b o w d in run.actions ++ last_save false run.value run.entry)
      free

first_run :
    (left code ack : ℕ) (has_goal : Bool) (timeout : Option ℕ) (w : World) (e : Entry)
    (r : WatchResult) (log : Option WatchResult)
    → w.gets_lock ≡ true
    → w.surroundings.stops 1 ≡ false
    → w.surroundings.has_endpoint 1 ≡ true
    → is_unconfirmed codex (w.surroundings.command_end 1) ≡ true
    → (rest : List Action) × (first_attempt w (pending_result r) (notifying_disk e r code log).entry
          ++ rest
        ≡ run_watch (codex_options left has_goal timeout ack) w false (notifying_disk e r code log))
unfolding with_lock steps take_up proceed notify_client deliver notification_limits
first_run left code ack has_goal timeout w e r log free go resolved open_end =
    let o = codex_options left has_goal timeout ack in
    let d = notifying_disk e r code log in
    (
      _,
      sym (
          run_locked left ack has_goal timeout w d free
          ∙ ap (after o w code d.entry) (
              attempt_open w.surroundings (suc (suc left) - 0) (suc left) 1 (pending_result r)
                (locked d.entry) (omega arith) go resolved open_end)),
    )

attempt_next :
    (s : Surroundings) (n left k : ℕ) (r : WatchResult) (e : Entry)
    → n ≡ suc left
    → s.stops k ≡ false
    → s.has_endpoint k ≡ true
    → attempts_from s codex n k r e
      ≡ behind (persist (reserve k r) e ++ notify k ∷ []) (
          follow_up s codex k
            (is_zero left)
            (seen_exit (s.command_end k) (reserve k r))
            (store e (reserve k r))
            (attempts_from s codex left (k + 1))
            (verdict s codex (s.command_end k)))
unfolding attempts_from
attempt_next s n left k r e go_on go resolved = rw (go_on, go, resolved) refl

second_run :
    (left code ack : ℕ) (has_goal : Bool) (timeout : Option ℕ) (end : CommandEnd) (w : World)
    (e : Entry) (r : WatchResult) (log : Option WatchResult)
    → w.gets_lock ≡ true
    → w.surroundings.stops 2 ≡ false
    → w.surroundings.has_endpoint 2 ≡ true
    → (rest : List Action) × (second_attempt
            (unconfirmed_result end r)
            (unconfirmed_disk end e r code log).entry
          ++ rest
        ≡ run_watch
            (codex_options left has_goal timeout ack)
            w
            false
            (unconfirmed_disk end e r code log))
unfolding with_lock steps take_up proceed notify_client deliver notification_limits
second_run left code ack has_goal timeout not_started w e r log free go resolved =
    let o = codex_options left has_goal timeout ack in
    let end : CommandEnd = not_started in
    let d = unconfirmed_disk end e r code log in
    (
      _,
      sym (
          run_locked left ack has_goal timeout w d free
          ∙ ap (after o w code d.entry) (
              attempt_next w.surroundings (suc (suc left) - 1) left 2 (unconfirmed_result end r)
                (locked d.entry) (omega arith) go resolved)),
    )
second_run left code ack has_goal timeout killed w e r log free go resolved =
    let o = codex_options left has_goal timeout ack in
    let end : CommandEnd = killed in
    let d = unconfirmed_disk end e r code log in
    (
      _,
      sym (
          run_locked left ack has_goal timeout w d free
          ∙ ap (after o w code d.entry) (
              attempt_next w.surroundings (suc (suc left) - 1) left 2 (unconfirmed_result end r)
                (locked d.entry) (omega arith) go resolved)),
    )
second_run left code ack has_goal timeout (exited c text) w e r log free go resolved =
    let o = codex_options left has_goal timeout ack in
    let end : CommandEnd = (exited c text) in
    let d = unconfirmed_disk end e r code log in
    (
      _,
      sym (
          run_locked left ack has_goal timeout w d free
          ∙ ap (after o w code d.entry) (
              attempt_next w.surroundings (suc (suc left) - 1) left 2 (unconfirmed_result end r)
                (locked d.entry) (omega arith) go resolved)),
    )

abbrev pub notification_of : Option WatchResult → Option Notification
notification_of none = none
notification_of (some r) = r.notification

-- A stop of the service between two saves has an attempt repeated that may have reached codex.
-- A watch for codex with at least two attempts has the result of its program on file and has made
-- no attempt. Where attempt 1 is made and ends unconfirmed, a run can stop so that it leaves, with
-- attempt 1 made and no other, a result that says unconfirmed in the record and in the log, and
-- the record active in the phase of notifying; and the next run goes on from there by making
-- attempt 2. In both runs the lock is free, the watch is not stopped and the endpoint resolves.
pub unconfirmed-Life :
    (left code ack : ℕ) (has_goal : Bool) (timeout : Option ℕ) (w next : World) (e : Entry)
    (r : WatchResult) (log : Option WatchResult)
    → w.gets_lock ≡ true
    → w.surroundings.stops 1 ≡ false
    → w.surroundings.has_endpoint 1 ≡ true
    → is_unconfirmed codex (w.surroundings.command_end 1) ≡ true
    → next.gets_lock ≡ true
    → next.surroundings.stops 2 ≡ false
    → next.surroundings.has_endpoint 2 ≡ true
    → (d : Disk) × (before : List Action) × Life
        (codex_options left has_goal timeout ack)
        (notifying_disk e r code log)
        d
        before
      × (sent before ≡ 1 ∷ [])
      × (notification_of d.entry.result ≡ some (ended unconfirmed))
      × (notification_of d.log ≡ some (ended unconfirmed))
      × (d.entry.active ≡ true)
      × (d.entry.phase ≡ notifying)
      × (again : List Action) × (rest : List Action) × (again ++ rest
          ≡ run_watch (codex_options left has_goal timeout ack) next false d)
      × (sent again ≡ 2 ∷ [])
unconfirmed-Life left code ack has_goal timeout w next e r log free go resolved open_end free_next
      go_on found =
    let end = w.surroundings.command_end 1 in
    let d = notifying_disk e r code log in
    let before = first_attempt w (pending_result r) d.entry in
    let first = first_run left code ack has_goal timeout w e r log free go resolved open_end in
    let second = second_run left code ack has_goal timeout end next e r log free_next go_on found in
    (
      unconfirmed_disk end e r code log,
      before,
      ran w false before first.0 submitted refl first.1 refl refl,
      refl,
      refl,
      refl,
      refl,
      refl,
      second_attempt (unconfirmed_result end r) (unconfirmed_disk end e r code log).entry,
      second.0,
      second.1,
      refl,
    )
