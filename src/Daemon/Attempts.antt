-- ===== src/Daemon/Attempts.antt =====
-- What the attempts of `_deliver` in src/waitd.py count and send.
use wait_skill.Prelude.{
  ℕ, zero, suc, ◌+◌, ◌≤◌, Bool, true, false, ◌≡◌, refl, [], ◌∷◌, ◌++◌, arith, inl, inr, Bool-cases,
  Option, sym,
}
use wait_skill.Goal.State.{Client}
use wait_skill.Daemon.State.{notify, persist, Entry, WatchResult, Failure, retrying}
use wait_skill.Daemon.Delivery.{
  Surroundings, Delivery, follow_up, attempts_from, deliver, verdict, Verdict, over, delivered,
  retry, is_zero, is_claude, CommandEnd, not_started, killed, exited, store, reserve, mark,
  seen_exit,
}
use wait_skill.Daemon.Numbers.{attempts_of, is_before, numbered}
use wait_skill.Daemon.Parts.{Numbered, behind-Numbered, part}

seen_exit-attempts :
    (end : CommandEnd) (r : WatchResult)
    → (seen_exit end r).notification_attempts ≡ r.notification_attempts
seen_exit-attempts not_started r = refl
seen_exit-attempts killed r = refl
seen_exit-attempts (exited code stderr) r = refl

module _ (most : ℕ) (s : Surroundings) (client : Client) where
  follow_up-Numbered :
      (k : ℕ) (is_last : Bool) (r : WatchResult) (e : Entry)
      (again : WatchResult → Entry → Delivery) (v : Verdict)
      → e.active ≡ true
      → is_before e.phase ≡ false
      → attempts_of e ≡ r.notification_attempts
      → r.notification_attempts ≤ most
      → (is_last ≡ false
          → (f : Failure)
          → Numbered most
              (store e (mark (retrying f) r))
              (again (mark (retrying f) r) (store e (mark (retrying f) r))))
      → Numbered most e (follow_up s client k is_last r e again v)
  unfolding follow_up numbered
  follow_up-Numbered k is_last r e again (over n code) live late same room next = record {
    safe = λ l fit reserved. ground arith;
    tracks = λ l. refl;
    within = room;
    lives = ground arith;
    active = live;
  }
  follow_up-Numbered k is_last r e again delivered live late same room next = record {
    safe = λ l fit reserved. ground arith;
    tracks = λ l. refl;
    within = room;
    lives = ground arith;
    active = live;
  }
  follow_up-Numbered k true r e again (retry f) live late same room next = record {
    safe = λ l fit reserved. ground arith;
    tracks = λ l. refl;
    within = room;
    lives = ground arith;
    active = live;
  }
  follow_up-Numbered k false r e again (retry f) live late same room next =
      let r1 = mark (retrying f) r in
      behind-Numbered most e (part (persist r1 e) (store e r1)) (again r1 (store e r1))
        (omega (arith, same, room))
        (record {
          safe = λ l fit reserved. ground arith;
          tracks = λ l. refl;
          within = room;
          lives = ground arith;
          active = live;
        })
        (next refl f)

  pub attempts_from-Numbered :
      (left k : ℕ) (r : WatchResult) (e : Entry)
      → e.active ≡ true
      → is_before e.phase ≡ false
      → attempts_of e ≡ r.notification_attempts
      → k ≡ r.notification_attempts + 1
      → left + r.notification_attempts ≤ most
      → Numbered most e (attempts_from s client left k r e)
  unfolding attempts_from numbered
  attempts_from-Numbered zero k r e live late same next room = record {
    safe = λ l fit reserved. refl;
    tracks = λ l. refl;
    within = omega (arith, same, room);
    lives = ground arith;
    active = live;
  }
  attempts_from-Numbered (suc left) k r e live late same next room = elim (Bool-cases (s.stops k)) [
    | inl stop ↦ rw stop (record {
      safe = λ l fit reserved. refl;
      tracks = λ l. refl;
      within = omega (arith, same, room);
      lives = ground arith;
      active = live;
    })
    | inr go ↦ elim (Bool-cases (s.has_endpoint k)) [
      | inl resolved ↦
          let r1 = reserve k r in
          let r2 = seen_exit (s.command_end k) r1 in
          let kept = seen_exit-attempts (s.command_end k) r1 in
          rw (go, resolved)
            (behind-Numbered most e (part (persist r1 e ++ notify k ∷ []) (store e r1)) _
              (omega (arith, same, room))
              (record {
                safe = λ l fit reserved. ground (arith, same);
                tracks = λ l. refl;
                within = omega (arith, next, room);
                lives = ground arith;
                active = live;
              })
              (follow_up-Numbered k (is_zero left) r2 (store e r1)
                (attempts_from s client left (k + 1)) (verdict s client (s.command_end k)) live late
                (sym kept) (omega (arith, kept, next, room))
                (λ more f.
                  attempts_from-Numbered left (k + 1) (mark (retrying f) r2)
                    (store (store e r1) (mark (retrying f) r2)) live late refl (omega (arith, kept))
                    (omega (arith, kept, next, room)))))
      | inr lost ↦
          rw (go, lost)
            (record {
              safe = λ l fit reserved. ground (arith, same);
              tracks = λ l. refl;
              within = omega (arith, next, room);
              lives = ground arith;
              active = live;
            })
    ]
  ]

-- Any property of the result and the record that saving keeps, and that marks and counts do not
-- touch, holds of what a delivery gives.
pub record Keeps (e : Entry) (d : Delivery) : Type 0 where
  pub phase : d.entry.phase ≡ e.phase
  pub active : d.entry.active ≡ e.active
  pub counted : attempts_of d.entry ≡ d.value.1.notification_attempts

module _ (s : Surroundings) (client : Client) where
  follow_up-Keeps :
      (k : ℕ) (is_last : Bool) (r : WatchResult) (e : Entry)
      (again : WatchResult → Entry → Delivery) (v : Verdict)
      → ((f : Failure) → Keeps e (again (mark (retrying f) r) (store e (mark (retrying f) r))))
      → Keeps e (follow_up s client k is_last r e again v)
  unfolding follow_up
  follow_up-Keeps k is_last r e again (over n code) next = record {
    phase = refl;
    active = refl;
    counted = refl;
  }
  follow_up-Keeps k is_last r e again delivered next = record {
    phase = refl;
    active = refl;
    counted = refl;
  }
  follow_up-Keeps k true r e again (retry f) next = record {
    phase = refl;
    active = refl;
    counted = refl;
  }
  follow_up-Keeps k false r e again (retry f) next = record {
    phase = (next f).phase;
    active = (next f).active;
    counted = (next f).counted;
  }

  attempts_from-Keeps :
      (left k : ℕ) (r : WatchResult) (e : Entry)
      → attempts_of e ≡ r.notification_attempts
      → Keeps e (attempts_from s client left k r e)
  unfolding attempts_from
  attempts_from-Keeps zero k r e same = record { phase = refl; active = refl; counted = same }
  attempts_from-Keeps (suc left) k r e same = elim (Bool-cases (s.stops k)) [
    | inl stop ↦ rw stop (record { phase = refl; active = refl; counted = same })
    | inr go ↦ elim (Bool-cases (s.has_endpoint k)) [
      | inr lost ↦ rw (go, lost) (record { phase = refl; active = refl; counted = refl })
      | inl resolved ↦
          let r1 = reserve k r in
          let d =
            follow_up-Keeps k (is_zero left) (seen_exit (s.command_end k) r1) (store e r1)
              (attempts_from s client left (k + 1)) (verdict s client (s.command_end k))
              (λ f.
                let next =
                  attempts_from-Keeps left (k + 1)
                    (mark (retrying f) (seen_exit (s.command_end k) r1))
                    (store (store e r1) (mark (retrying f) (seen_exit (s.command_end k) r1)))
                    refl in
                record { phase = next.phase; active = next.active; counted = next.counted }) in
          rw (go, resolved) (record { phase = d.phase; active = d.active; counted = d.counted })
    ]
  ]

  pub deliver-Keeps :
      (limit time : Option ℕ) (r : WatchResult) (e : Entry)
      → attempts_of e ≡ r.notification_attempts
      → Keeps e (deliver s client limit time r e)
  unfolding deliver
  deliver-Keeps limit time r e same = elim (Bool-cases (is_claude client)) [
    | inl native ↦ rw native (record { phase = refl; active = refl; counted = refl })
    | inr other ↦ rw other (attempts_from-Keeps _ _ r e same)
  ]
