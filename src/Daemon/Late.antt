-- ===== src/Daemon/Late.antt =====
-- What a run of a watch in src/waitd.py does behind its program: nothing that starts it again.
use wait_skill.Prelude.{
  ℕ, zero, suc, ◌+◌, Bool, true, false, ◌&&◌, ◌≡◌, refl, List, [], ◌∷◌, ◌++◌, all, arith, inl, inr,
  Bool-cases, Option, none,
}
use wait_skill.Goal.State.{Client}
use wait_skill.Daemon.State.{
  Action, notify, persist, retrying, Entry, WatchResult, Phase, activating, queued, running,
  querying, notifying, awaiting_ack, finalizing,
}
use wait_skill.Daemon.Delivery.{
  Surroundings, Done, attempts_from, deliver, verdict, over, delivered, retry, is_zero, Verdict,
  is_claude, Delivery, behind, follow_up, store, reserve, mark,
}
use wait_skill.Daemon.Program.{is_early, World, Options, settle_result}
use wait_skill.Daemon.Watch.{
  acknowledge, conclude, notify_client, proceed, with_result, is_attempting, is_delivered,
  is_reached,
}
use wait_skill.Daemon.Once.{is_quiet, quiet-append}

-- A part behind the program: it does not start it, and its record is in a late phase.
pub record IsLate {ℓ} {A : Type ℓ} (d : Done A) : Type ℓ where
  pub quiet : all is_quiet d.actions ≡ true
  pub late : is_early d.entry.phase ≡ false

pub behind-IsLate {ℓ} :
    {A : Type ℓ} (acts : List Action) (d : Done A)
    → all is_quiet acts ≡ true
    → IsLate d
    → IsLate (behind acts d)
behind-IsLate acts d h p = record { quiet = quiet-append acts d.actions h p.quiet; late = p.late }

follow_up-IsLate :
    (s : Surroundings) (client : Client) (k : ℕ) (is_last : Bool) (r : WatchResult) (e : Entry)
    (again : WatchResult → Entry → Delivery) (v : Verdict)
    → is_early e.phase ≡ false
    → ((r' : WatchResult) → IsLate (again r' (store e r')))
    → IsLate (follow_up s client k is_last r e again v)
unfolding follow_up
follow_up-IsLate s client k is_last r e again (over n code) h next = record {
  quiet = ground arith;
  late = h;
}
follow_up-IsLate s client k is_last r e again delivered h next = record {
  quiet = ground arith;
  late = h;
}
follow_up-IsLate s client k true r e again (retry f) h next = record {
  quiet = ground arith;
  late = h;
}
follow_up-IsLate s client k false r e again (retry f) h next =
    behind-IsLate (persist (mark (retrying f) r) e) (again _ _) (ground arith) (next _)

attempts_from-IsLate :
    (s : Surroundings) (client : Client) (left k : ℕ) (r : WatchResult) (e : Entry)
    → is_early e.phase ≡ false
    → IsLate (attempts_from s client left k r e)
unfolding attempts_from
attempts_from-IsLate s client zero k r e h = record { quiet = refl; late = h }
attempts_from-IsLate s client (suc left) k r e h = elim (Bool-cases (s.stops k)) [
  | inl stop ↦ rw stop (record { quiet = refl; late = h })
  | inr go ↦ elim (Bool-cases (s.has_endpoint k)) [
    | inl yes_endpoint ↦
        rw (go, yes_endpoint)
          (behind-IsLate (persist (reserve k r) e ++ notify k ∷ []) _ (ground arith) (
            follow_up-IsLate s client k (is_zero left) _ (store e (reserve k r)) _
              (verdict s client (s.command_end k)) h
              (λ r'. attempts_from-IsLate s client left (k + 1) r' _ h)))
    | inr lost ↦ rw (go, lost) (record { quiet = ground arith; late = h })
  ]
]

deliver-IsLate :
    (s : Surroundings) (client : Client) (limit time : Option ℕ) (r : WatchResult) (e : Entry)
    → is_early e.phase ≡ false
    → IsLate (deliver s client limit time r e)
unfolding deliver
deliver-IsLate s client limit time r e h = elim (Bool-cases (is_claude client)) [
  | inl native ↦ rw native (record { quiet = ground arith; late = h })
  | inr other ↦ rw other (attempts_from-IsLate s client _ _ r e h)
]

acknowledge-IsLate :
    (w : World) (r : WatchResult) (code : ℕ) (e : Entry) → IsLate (acknowledge w r code e)
unfolding acknowledge
acknowledge-IsLate w r code e = record { quiet = refl; late = refl }

conclude-IsLate :
    (o : Options) (w : World) (delivery : Option ℕ) (r : WatchResult) (code : ℕ) (e : Entry)
    → IsLate (conclude o w delivery r code e)
unfolding conclude
conclude-IsLate o w delivery r code e = elim (Bool-cases (is_reached delivery && o.has_goal)) [
  | inl waits ↦ rw waits (behind-IsLate (_ ∷ []) _ refl (acknowledge-IsLate w r _ _))
  | inr ends ↦ rw ends (record { quiet = refl; late = refl })
]

notify_client-IsLate :
    (o : Options) (w : World) (r : WatchResult) (code : ℕ) (e : Entry)
    → is_early e.phase ≡ false
    → IsLate (notify_client o w r code e)
unfolding notify_client
notify_client-IsLate o w r code e h =
    let d = deliver-IsLate w.surroundings o.client o.limit o.timeout r e h in
    elim (Bool-cases (is_attempting r.notification)) [
      | inl under_way ↦ rw under_way (record { quiet = refl; late = refl })
      | inr free ↦ elim (Bool-cases (is_delivered r.notification)) [
        | inl reached ↦ rw (free, reached) (conclude-IsLate o w none r code e)
        | inr open_yet ↦
            rw (free, open_yet) (behind-IsLate _ _ d.quiet (conclude-IsLate o w _ _ code _))
      ]
    ]

pub proceed-IsLate :
    (p : Phase) (o : Options) (w : World) (r : WatchResult) (code : ℕ) (e : Entry)
    → is_early e.phase ≡ false
    → IsLate (proceed p o w r code e)
unfolding proceed
proceed-IsLate notifying o w r code e h = notify_client-IsLate o w r code e h
proceed-IsLate awaiting_ack o w r code e h = acknowledge-IsLate w r code e
proceed-IsLate activating o w r code e h = record { quiet = refl; late = h }
proceed-IsLate queued o w r code e h = record { quiet = refl; late = h }
proceed-IsLate running o w r code e h = record { quiet = refl; late = h }
proceed-IsLate querying o w r code e h = record { quiet = refl; late = h }
proceed-IsLate finalizing o w r code e h = record { quiet = refl; late = h }

settle_result-IsLate :
    (o : Options) (w : World) (r : WatchResult) (e : Entry) → IsLate (settle_result o w r e)
unfolding settle_result
settle_result-IsLate o w r e = record { quiet = ground arith; late = ground arith }

pub with_result-IsLate :
    (o : Options) (w : World) (r : WatchResult) (e : Entry) → IsLate (with_result o w r e)
unfolding with_result
with_result-IsLate o w r e =
    let s = settle_result-IsLate o w r e in
    behind-IsLate _ _ s.quiet (proceed-IsLate _ o w _ _ (settle_result o w r e).entry s.late)
