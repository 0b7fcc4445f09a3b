-- ===== src/Daemon/Success.antt =====
-- src/waitd.py, `_deliver`, when an attempt reaches the client behind attempts that failed.
use wait_skill.Prelude.{
  ℕ, zero, suc, ◌+◌, ◌-◌, ◌≤◌, ◌<◌, Bool, true, false, ◌≡◌, ◌∙◌, refl, ap, List, [], ◌∷◌, arith,
  Option, none, some, String,
}
use wait_skill.Goal.State.{Client}
use wait_skill.Watch.Delivery.{notification_limits}
use wait_skill.Daemon.State.{Entry, WatchResult, retrying, Failure, exit}
use wait_skill.Daemon.Delivery.{
  Surroundings, Delivery, exited, verdict, Verdict, over, delivered, retry, follow_up,
  attempts_from, deliver, store, reserve, mark, seen_exit, is_zero, is_claude, success,
}
use wait_skill.Daemon.Numbers.{sent}

-- The numbers from `low + 1` on.
abbrev pub numbers_above : (low count : ℕ) → List ℕ
numbers_above low zero = []
numbers_above low (suc n) = (low + 1) ∷ numbers_above (low + 1) n

abbrev pub is_retry : Verdict → Bool
is_retry (retry f) = true
is_retry _ = false

-- The client has been reached, by the last of the attempts that are sent.
abbrev pub Reaches : Client → (low count : ℕ) → Delivery → Type 0
Reaches client low n d =
    (sent d.actions ≡ numbers_above low n)
    × ((d.value.0 ≡ none)
        × ((d.entry.result ≡ some d.value.1)
            × ((d.value.1.notification ≡ some (success client))
                × (d.value.1.notification_attempts ≡ low + n))))

verdict_zero :
    (s : Surroundings) (client : Client) (text : String)
    → verdict s client (exited (exit 0) text) ≡ delivered
unfolding verdict
verdict_zero s client text = ground arith

-- Another attempt follows one that failed.
retry_follows :
    (s : Surroundings) (client : Client) (k : ℕ) (is_last : Bool) (r : WatchResult) (e : Entry)
    (again : WatchResult → Entry → Delivery) (v : Verdict) (n : ℕ)
    → is_retry v ≡ true
    → is_last ≡ false
    → ((f : Failure)
        → Reaches client k n (again (mark (retrying f) r) (store e (mark (retrying f) r))))
    → Reaches client k n (follow_up s client k is_last r e again v)
unfolding follow_up
retry_follows s client k true r e again v n failed last next = cc last
retry_follows s client k false r e again (over m code) n failed last next = cc failed
retry_follows s client k false r e again delivered n failed last next = cc failed
retry_follows s client k false r e again (retry f) n failed last next = next f

is_zero_above : (n left : ℕ) → n < left → is_zero left ≡ false
is_zero_above n zero h = absurd (omega (arith, h))
is_zero_above n (suc left) h = refl

module _ (s : Surroundings) (client : Client) where
  go_on-Reaches :
      (left low n : ℕ) (r : WatchResult) (e : Entry)
      → s.stops (low + 1) ≡ false
      → s.has_endpoint (low + 1) ≡ true
      → Reaches client (low + 1) n (
          follow_up s client
            (low + 1)
            (is_zero left)
            (seen_exit (s.command_end (low + 1)) (reserve (low + 1) r))
            (store e (reserve (low + 1) r))
            (attempts_from s client left (low + 1 + 1))
            (verdict s client (s.command_end (low + 1))))
      → Reaches client low (suc n) (attempts_from s client (suc left) (low + 1) r e)
  unfolding attempts_from
  go_on-Reaches left low n r e go resolved h =
      rw (go, resolved)
        (ap (λ ks. (low + 1) ∷ ks) h.0, (h.1.0, (h.1.1.0, (h.1.1.1.0, h.1.1.1.1 ∙ omega arith))))

  attempts_from-Reaches :
      (n left low : ℕ) (r : WatchResult) (e : Entry) (text : String)
      → n < left
      → ((j : ℕ) → low < j → j ≤ low + suc n → (s.stops j ≡ false) × (s.has_endpoint j ≡ true))
      → ((j : ℕ) → low < j → j < low + suc n → is_retry (verdict s client (s.command_end j)) ≡ true)
      → s.command_end (low + suc n) ≡ exited (exit 0) text
      → Reaches client low (suc n) (attempts_from s client left (low + 1) r e)
  unfolding follow_up
  attempts_from-Reaches n zero low r e text room free failed last = absurd (omega (arith, room))
  attempts_from-Reaches zero (suc left) low r e text room free failed last =
      let at = free (low + 1) (omega arith) (omega arith) in
      go_on-Reaches left low zero r e at.0 at.1
        (rw (last, verdict_zero s client text) (refl, (refl, (refl, (refl, omega arith)))))
  attempts_from-Reaches (suc n) (suc left) low r e text room free failed last =
      let at = free (low + 1) (omega arith) (omega arith) in
      let end = s.command_end (low + 1) in
      let r1 = seen_exit end (reserve (low + 1) r) in
      let e1 = store e (reserve (low + 1) r) in
      go_on-Reaches left low (suc n) r e at.0 at.1 (
        retry_follows s client (low + 1) (is_zero left) r1 e1
          (attempts_from s client left (low + 1 + 1)) (verdict s client end) (suc n)
          (failed (low + 1) (omega arith) (omega arith))
          (is_zero_above n left (omega (arith, room)))
          (λ f.
            attempts_from-Reaches n left (low + 1) (mark (retrying f) r1)
              (store e1 (mark (retrying f) r1)) text (omega (arith, room))
              (λ j above upto. free j (omega (arith, above)) (omega (arith, upto)))
              (λ j above under. failed j (omega (arith, above)) (omega (arith, under)))
              (ap s.command_end (omega arith) ∙ last)))

-- A client other than claude is reached, when attempt k is allowed and its command ends with exit
-- code 0, none to k is stopped, each has its endpoint, and each between those that the result
-- counts and k fails in a way that lets another follow. All of these attempts are made, in order,
-- and no other; the result says so.
pub deliver-Reaches :
    (s : Surroundings) (client : Client) (limit timeout : Option ℕ) (r : WatchResult) (e : Entry)
    (n : ℕ) (text : String)
    → is_claude client ≡ false
    → r.notification_attempts + suc n ≤ (notification_limits client limit timeout).0
    → ((j : ℕ)
        → r.notification_attempts < j
        → j ≤ r.notification_attempts + suc n
        → (s.stops j ≡ false) × (s.has_endpoint j ≡ true))
    → ((j : ℕ)
        → r.notification_attempts < j
        → j < r.notification_attempts + suc n
        → is_retry (verdict s client (s.command_end j)) ≡ true)
    → s.command_end (r.notification_attempts + suc n) ≡ exited (exit 0) text
    → Reaches client r.notification_attempts (suc n) (deliver s client limit timeout r e)
unfolding deliver
deliver-Reaches s client limit timeout r e n text other room free failed last = rw other (
    attempts_from-Reaches s client n
      ((notification_limits client limit timeout).0 - r.notification_attempts)
      r.notification_attempts r e text (omega (arith, room)) free failed last)
