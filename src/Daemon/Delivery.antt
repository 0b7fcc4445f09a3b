-- ===== src/Daemon/Delivery.antt =====
-- src/waitd.py, `_deliver`: the attempts to wake the client of a watch.
use wait_skill.Prelude.{
  ℕ, zero, suc, ◌+◌, ◌-◌, ◌*◌, Bool, true, false, ◌&&◌, ◌||◌, Option, none, some, List, [], ◌∷◌,
  ◌++◌, String, if◌then◌else◌,
}
use Prim.Native.Nat.{◌^◌, min}
use wait_skill.Goal.State.{Client, claude}
use wait_skill.Watch.Delivery.{is_codex, notification_limits}
use wait_skill.Daemon.State.{
  Exit, Failure, unconfirmed, notification_unavailable, busy, failed, Notification, pending,
  attempting, native_pending, started, completed, ended, retrying, WatchResult, Entry, Action,
  save_log, save_record, notify, persist, exit_is, exit_notify_failed, exit_notify_unconfirmed,
  exit_activation_cancelled,
}
use wait_skill.Daemon.State

-- How the command of an attempt ends: it is not started, it is killed at its timeout, or it exits.
pub data CommandEnd : Type 0 where
  not_started killed : CommandEnd
  exited : Exit → (stderr : String) → CommandEnd

-- What `_deliver` meets: before attempt k, whether the watch was cancelled or has lost its wait,
-- and whether the endpoint resolves; how the command of attempt k ends; and the clock.
pub record Surroundings : Type 0 where
  pub stops : ℕ → Bool
  pub has_endpoint : ℕ → Bool
  pub command_end : ℕ → CommandEnd
  pub clock : ℕ → ℕ
  pub says_unavailable : String → Bool

-- What a part of a watch does: its actions, its record after them, and what it returns.
pub record Done {ℓ} (A : Type ℓ) : Type ℓ where
  pub actions : List Action
  pub entry : Entry
  pub value : A

-- `actions` come first.
abbrev pub behind {ℓ} : {A : Type ℓ} → List Action → Done A → Done A
behind actions d = record d { actions = actions ++ d.actions }

abbrev pub store : Entry → WatchResult → Entry
store e r = record e { result = some r }

-- The result is saved, and `value` is returned.
abbrev pub save_and_return {ℓ} : {A : Type ℓ} → WatchResult → Entry → A → Done A
save_and_return r e value = record { actions = persist r e; entry = store e r; value = value }

-- `notification_success`
abbrev pub success : Client → Notification
success client = if is_codex client then started else completed

-- `notification_is_unconfirmed`
abbrev pub is_unconfirmed : Client → CommandEnd → Bool
is_unconfirmed client not_started = false
is_unconfirmed client killed = true
is_unconfirmed client (exited code stderr) =
    is_codex client && exit_is (some code) exit_notify_unconfirmed

abbrev pub failure_of : (says_unavailable : String → Bool) → Client → Exit → String → Failure
failure_of says client code stderr =
    if is_codex client && (exit_is (some code) exit_notify_failed || says stderr)
    then notification_unavailable
    else if is_codex client && exit_is (some code) 75
    then busy
    else failed

abbrev pub reserve : ℕ → WatchResult → WatchResult
reserve k r = record r { notification = some attempting; notification_attempts = k }

abbrev pub mark : Notification → WatchResult → WatchResult
mark n r = record r { notification = some n }

-- A command that is not started leaves the exit code of an earlier one in the result.
abbrev pub seen_exit : CommandEnd → WatchResult → WatchResult
seen_exit not_started r = r
seen_exit killed r = record r { notification_exit_code = none }
seen_exit (exited code stderr) r = record r { notification_exit_code = some code }

-- What an attempt comes to: the delivery is over with a mark and a code, or another attempt may
-- follow a failure.
pub data Verdict : Type 0 where
  over : Notification → Option ℕ → Verdict
  delivered : Verdict
  retry : Failure → Verdict

unfoldable pub verdict : Surroundings → Client → CommandEnd → Verdict
verdict s client not_started = over (ended failed) (some exit_notify_failed)
verdict s client killed =
    if is_codex client
    then over (ended unconfirmed) (some exit_notify_failed)
    else retry unconfirmed
verdict s client (exited code stderr) =
    if is_unconfirmed client (exited code stderr)
    then over (ended unconfirmed) (some exit_notify_failed)
    else if exit_is (some code) 0
    then delivered
    else retry (failure_of s.says_unavailable client code stderr)

abbrev pub is_zero : ℕ → Bool
is_zero zero = true
is_zero (suc n) = false

-- What `_deliver` returns: a code, or none when the client has been reached, with the result as it
-- is in memory then.
abbrev pub Delivery : Type 0
Delivery = Done (Option ℕ × WatchResult)

-- The verdict on attempt k is saved. `again` is what follows a failure, on its result and record.
unfoldable pub follow_up :
    Surroundings
    → Client
    → (k : ℕ) → (is_last : Bool) → WatchResult
    → Entry
    → (again : WatchResult → Entry → Delivery) → Verdict
    → Delivery
follow_up s client k is_last r e again (over n code) = save_and_return (mark n r) e (code, mark n r)
follow_up s client k is_last r e again delivered =
    let r1 = record (mark (success client) r) { delivered_at = some (s.clock k) } in
    save_and_return r1 e (none, r1)
follow_up s client k is_last r e again (retry f) =
    let r1 = mark (retrying f) r in
    if is_last
    then save_and_return (mark (ended f) r) e (some exit_notify_failed, mark (ended f) r)
    else behind (persist r1 e) (again r1 (store e r1))

-- The loop of `_deliver`, with `left` attempts to go, the next being number k.
unfoldable pub attempts_from : Surroundings → Client → (left k : ℕ) → WatchResult → Entry → Delivery
attempts_from s client zero k r e = record {
  actions = [];
  entry = e;
  value = (some exit_notify_failed, r);
}
attempts_from s client (suc left) k r e =
    let r1 = reserve k r in
    let e1 = store e r1 in
    if s.stops k
    then record {
      actions = [];
      entry = e;
      value = (some exit_activation_cancelled, mark State.cancelled r);
    }
    else if s.has_endpoint k
    then behind (persist r1 e ++ notify k ∷ []) (
        follow_up s client k (is_zero left) (seen_exit (s.command_end k) r1) e1
          (attempts_from s client left (k + 1)) (verdict s client (s.command_end k)))
    else behind (persist r1 e) (
        save_and_return (mark (ended notification_unavailable) r1) e1
          (some exit_notify_failed, mark (ended notification_unavailable) r1))

abbrev pub is_claude : Client → Bool
is_claude claude = true
is_claude _ = false

-- `limit` is the limit of attempts that the options give, if any.
unfoldable pub deliver :
    Surroundings → Client → (limit timeout : Option ℕ) → WatchResult → Entry → Delivery
deliver s client limit timeout r e =
    let r1 = record r {
      notification = some native_pending;
      notification_attempts = 0;
      available_at = some (s.clock 0);
    } in
    let most = (notification_limits client limit timeout).0 in
    if is_claude client
    then save_and_return r1 e (none, r1)
    else attempts_from s client (most - r.notification_attempts) (r.notification_attempts + 1) r e

-- The pause behind a failed attempt, in seconds.
unfoldable pub retry_delay : (interval attempt : ℕ) → ℕ
retry_delay interval attempt = min (interval * 2 ^ min (attempt - 1) 10) 300
