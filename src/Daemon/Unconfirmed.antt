-- ===== src/Daemon/Unconfirmed.antt =====
-- src/waitd.py, `_deliver` behind an attempt of which it is not known whether it has
-- reached codex.
use wait_skill.Prelude.{
  ℕ, zero, suc, ◌+◌, ◌≤◌, ◌<◌, Bool, true, false, ◌≡◌, ◌∙◌, refl, ap, arith, Option, some, inl, inr,
  Bool-cases, nat_eq,
}
use wait_skill.Goal.State.{codex}
use wait_skill.Daemon.State.{Entry, WatchResult, ended, unconfirmed, exit_notify_failed}
use wait_skill.Daemon.Delivery.{
  Surroundings, Delivery, CommandEnd, not_started, killed, exited, is_unconfirmed, verdict, Verdict,
  over, delivered, retry, follow_up, attempts_from, deliver, store, reserve, is_zero,
}
use wait_skill.Daemon.Numbers.{sent, Rises}

-- The delivery is over behind an unconfirmed attempt, and marks it so.
pub verdict_unconfirmed :
    (s : Surroundings) (end : CommandEnd)
    → is_unconfirmed codex end ≡ true
    → verdict s codex end ≡ over (ended unconfirmed) (some exit_notify_failed)
unfolding verdict
verdict_unconfirmed s not_started h = cc h
verdict_unconfirmed s killed h = refl
verdict_unconfirmed s (exited code stderr) h = ground arith

module _ (s : Surroundings) (last : ℕ)
    (open_end : is_unconfirmed codex (s.command_end last) ≡ true) where
  follow_up-stops :
      (k : ℕ) (is_last : Bool) (r : WatchResult) (e : Entry)
      (again : WatchResult → Entry → Delivery) (v : Verdict)
      → k ≤ last
      → v ≡ verdict s codex (s.command_end k)
      → (k < last → (r' : WatchResult) (e' : Entry) → Rises k (sent (again r' e').actions) last)
      → Rises k (sent (follow_up s codex k is_last r e again v).actions) last
  unfolding follow_up
  follow_up-stops k is_last r e again (over n code) h same next = h
  follow_up-stops k is_last r e again delivered h same next = h
  follow_up-stops k true r e again (retry f) h same next = h
  follow_up-stops k false r e again (retry f) h same next = elim (Bool-cases (nat_eq k last)) [
    | inl final ↦
        let k_last : k ≡ last = ground (arith, final) in
        let clash =
          same
          ∙ ap (λ j. verdict s codex (s.command_end j)) k_last
          ∙ verdict_unconfirmed s (s.command_end last) open_end in
        cc clash
    | inr earlier ↦ next (ground (arith, h, earlier)) _ _
  ]

  attempts_from-stops :
      (left k low : ℕ) (r : WatchResult) (e : Entry)
      → low < k
      → k ≤ last
      → Rises low (sent (attempts_from s codex left k r e).actions) last
  unfolding attempts_from
  attempts_from-stops zero k low r e h room = omega (arith, h, room)
  attempts_from-stops (suc left) k low r e h room = elim (Bool-cases (s.stops k)) [
    | inl stop ↦ rw stop (omega (arith, h, room))
    | inr go ↦ elim (Bool-cases (s.has_endpoint k)) [
      | inl resolved ↦
          rw (go, resolved)
            (
              h,
              follow_up-stops k (is_zero left) _ (store e (reserve k r))
                  (attempts_from s codex left (k + 1)) _ room refl
                  (λ earlier r' e'.
                    attempts_from-stops left (k + 1) k r' e' (omega arith)
                      (omega (arith, earlier))),
            )
      | inr lost ↦ rw (go, lost) (omega (arith, h, room))
    ]
  ]

-- In one delivery to codex no attempt comes behind attempt `last` when the end of that one leaves
-- it unconfirmed: the numbers that are sent grow from above the attempts that the result counts,
-- and none is above `last`.
pub deliver-Rises :
    (s : Surroundings) (last : ℕ) (limit timeout : Option ℕ) (r : WatchResult) (e : Entry)
    → is_unconfirmed codex (s.command_end last) ≡ true
    → r.notification_attempts < last
    → Rises r.notification_attempts (sent (deliver s codex limit timeout r e).actions) last
unfolding deliver
deliver-Rises s last limit timeout r e open_end h =
    attempts_from-stops s last open_end _ (r.notification_attempts + 1) r.notification_attempts r e
      (omega arith) (omega (arith, h))
