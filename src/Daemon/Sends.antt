-- ===== src/Daemon/Sends.antt =====
-- What one run of a watch in src/waitd.py counts and sends.
use wait_skill.Prelude.{
  ℕ, ◌+◌, ◌-◌, ◌≤◌, true, false, ◌&&◌, ◌≡◌, refl, [], ◌∷◌, arith, inl, inr, Bool-cases,
  if◌then◌else◌, Option, none, some, ◌∙◌,
}
use wait_skill.Watch.Delivery.{notification_limits}
use wait_skill.Daemon.State.{
  save_record, Entry, WatchResult, Phase, activating, queued, running, querying, notifying,
  awaiting_ack, finalizing,
}
use wait_skill.Daemon.Delivery.{deliver, is_claude}
use wait_skill.Daemon.Program.{Options, World, settle_result}
use wait_skill.Daemon.Watch.{
  finish, waiting_record, over_record, or_else, acknowledge, conclude, is_reached, is_attempting,
  is_delivered, notify_client, proceed,
}
use wait_skill.Daemon.Parts.{Numbered, behind-Numbered, part}
use wait_skill.Daemon.Attempts.{deliver-Keeps, attempts_from-Numbered}
use wait_skill.Daemon.Numbers.{attempts_of, is_before, numbered}

-- The most attempts that a client gets: none are made for Claude, which is not sent a command.
abbrev pub most_attempts : Options → ℕ
most_attempts o =
    if is_claude o.client then 0 else (notification_limits o.client o.limit o.timeout).0

module _ (o : Options) (w : World) where
  deliver-Numbered :
      (r : WatchResult) (e : Entry)
      → e.active ≡ true
      → is_before e.phase ≡ false
      → attempts_of e ≡ r.notification_attempts
      → r.notification_attempts ≤ most_attempts o
      → Numbered (most_attempts o) e (deliver w.surroundings o.client o.limit o.timeout r e)
  unfolding deliver numbered
  deliver-Numbered r e live late same room = elim (Bool-cases (is_claude o.client)) [
    | inl native ↦ rw native (record {
      safe = λ l fit reserved. ground (arith, same);
      tracks = λ l. refl;
      within = omega arith;
      lives = ground arith;
      active = live;
    })
    | inr other ↦
        let most = (notification_limits o.client o.limit o.timeout).0 in
        let left = most - r.notification_attempts in
        let room' : r.notification_attempts ≤ most = ground arith in
        rw other (
          attempts_from-Numbered most w.surroundings o.client left (r.notification_attempts + 1) r e
            live late same refl (omega (arith, room')))
  ]

  acknowledge-Numbered :
      (r : WatchResult) (code : ℕ) (e : Entry)
      → e.active ≡ true
      → is_before e.phase ≡ false
      → attempts_of e ≡ r.notification_attempts
      → r.notification_attempts ≤ most_attempts o
      → Numbered (most_attempts o) e (acknowledge w r code e)
  unfolding acknowledge numbered
  acknowledge-Numbered r code e live late same room = record {
    safe = λ l fit reserved. ground (arith, same, room);
    tracks = λ l. refl;
    within = ground (arith, room);
    lives = ground arith;
    active = live;
  }

  finish-Numbered :
      (r : WatchResult) (code : ℕ) (e : Entry)
      → e.active ≡ true
      → is_before e.phase ≡ false
      → attempts_of e ≤ most_attempts o
      → Numbered (most_attempts o) e (finish r code e)
  unfolding numbered
  finish-Numbered r code e live late room = record {
    safe = λ l fit reserved. ground arith;
    tracks = λ l. refl;
    within = room;
    lives = refl;
    active = live;
  }

  saved-Numbered :
      (r : WatchResult) (e e1 : Entry)
      → e1.active ≡ true
      → is_before e1.phase ≡ false
      → e1.result ≡ some r
      → attempts_of e ≤ r.notification_attempts
      → r.notification_attempts ≤ most_attempts o
      → Numbered (most_attempts o) e (part (save_record e1 ∷ []) e1)
  unfolding numbered
  saved-Numbered r e e1 live late stored grows room = record {
    safe = λ l fit reserved. ground arith;
    tracks = λ l. refl;
    within = ground arith;
    lives = ground arith;
    active = live;
  }

  conclude-Numbered :
      (delivery : Option ℕ) (r : WatchResult) (code : ℕ) (e : Entry)
      → e.active ≡ true
      → attempts_of e ≡ r.notification_attempts
      → r.notification_attempts ≤ most_attempts o
      → Numbered (most_attempts o) e (conclude o w delivery r code e)
  unfolding conclude
  conclude-Numbered delivery r code e live same room =
      let most = most_attempts o in
      let code1 = or_else delivery code in
      let wait = waiting_record o w r code1 e in
      let end = over_record r code1 e in
      let room_e : attempts_of e ≤ most = omega (arith, same, room) in
      let grows : attempts_of e ≤ r.notification_attempts = omega (arith, same) in
      elim (Bool-cases (is_reached delivery && o.has_goal)) [
        | inl waits ↦ rw waits (
            behind-Numbered most e (part (save_record wait ∷ []) wait) _ room_e
              (saved-Numbered r e wait live refl refl grows room)
              (acknowledge-Numbered r code1 wait live refl refl room))
        | inr ends ↦ rw ends (
            behind-Numbered most e (part (save_record end ∷ []) end) _ room_e
              (saved-Numbered r e end live refl refl grows room)
              (finish-Numbered r code1 end live refl room))
      ]

  notify_client-Numbered :
      (r : WatchResult) (code : ℕ) (e : Entry)
      → e.active ≡ true
      → is_before e.phase ≡ false
      → attempts_of e ≡ r.notification_attempts
      → r.notification_attempts ≤ most_attempts o
      → Numbered (most_attempts o) e (notify_client o w r code e)
  unfolding notify_client numbered
  notify_client-Numbered r code e live late same room =
      let most = most_attempts o in
      let d = deliver w.surroundings o.client o.limit o.timeout r e in
      let keeps = deliver-Keeps w.surroundings o.client o.limit o.timeout r e same in
      let counts = deliver-Numbered r e live late same room in
      let room_d : d.value.1.notification_attempts ≤ most =
        omega (arith, keeps.counted, counts.within) in
      elim (Bool-cases (is_attempting r.notification)) [
        | inl under_way ↦ rw under_way (record {
          safe = λ l fit reserved. ground (arith, same, room);
          tracks = λ l. refl;
          within = room;
          lives = ground arith;
          active = live;
        })
        | inr free ↦ elim (Bool-cases (is_delivered r.notification)) [
          | inl reached ↦ rw (free, reached) (conclude-Numbered none r code e live same room)
          | inr open_yet ↦
              rw (free, open_yet)
                (behind-Numbered most e d _ (omega (arith, same, room)) counts (
                  conclude-Numbered d.value.0 d.value.1 code d.entry (keeps.active ∙ live)
                    keeps.counted room_d))
        ]
      ]

  pub proceed-Numbered :
      (p : Phase) (r : WatchResult) (code : ℕ) (e : Entry)
      → e.active ≡ true
      → is_before e.phase ≡ false
      → attempts_of e ≡ r.notification_attempts
      → r.notification_attempts ≤ most_attempts o
      → Numbered (most_attempts o) e (proceed p o w r code e)
  unfolding proceed
  proceed-Numbered notifying r code e live late same room =
      notify_client-Numbered r code e live late same room
  proceed-Numbered awaiting_ack r code e live late same room =
      acknowledge-Numbered r code e live late same room
  proceed-Numbered activating r code e live late same room =
      finish-Numbered r code e live late (omega (arith, same, room))
  proceed-Numbered queued r code e live late same room =
      finish-Numbered r code e live late (omega (arith, same, room))
  proceed-Numbered running r code e live late same room =
      finish-Numbered r code e live late (omega (arith, same, room))
  proceed-Numbered querying r code e live late same room =
      finish-Numbered r code e live late (omega (arith, same, room))
  proceed-Numbered finalizing r code e live late same room =
      finish-Numbered r code e live late (omega (arith, same, room))

  pub settle_result-Numbered :
      (r : WatchResult) (e : Entry)
      → e.active ≡ true
      → attempts_of e ≡ 0
      → r.notification_attempts ≡ 0
      → Numbered (most_attempts o) e (settle_result o w r e)
  unfolding settle_result numbered
  settle_result-Numbered r e live none_saved fresh = record {
    safe = λ l fit reserved. ground arith;
    tracks = λ l. refl;
    within = ground arith;
    lives = ground arith;
    active = live;
  }
