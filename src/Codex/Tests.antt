-- ===== src/Codex/Tests.antt =====
-- Wakes of small app servers, and frames.
use wait_skill.Prelude.{◌≡◌, ◌≢◌, refl, false, none, some, [], ◌∷◌, ◌++◌, ok, ◌>>=◌, ◌⊎◌, arith}
use wait_skill.Daemon.Samples.{busy_first}
use wait_skill.Daemon.Delivery.{verdict}
use wait_skill.Codex.Rpc.{call, await_response}
use wait_skill.Codex.Wake.{
  wake, enter, then_ask, resume, start, status_in, thread_of, turn_of, exit_code,
}
use wait_skill.Codex.Retries.{asks_start, IsRefused, wake-is_retry}
use wait_skill.Codex.Success.{IsStarted, wake-IsStarted}
use wait_skill.Codex.Frames.{frame, receive}
use wait_skill.Codex.Masking.{decode, frame-decode}
use wait_skill.Codex.Fragments.{wire}
use wait_skill.Codex.Messages.{receive-wire}
use wait_skill.Codex.Fuel.{receive-ends}
use wait_skill.Codex.Samples.{willing, unwilling, mask, pieces}

wake-is_retry_example : (asks_start (wake unwilling "t1").requests ≡ false) ⊎ IsRefused unwilling
unfolding wake enter then_ask resume start status_in thread_of turn_of exit_code call await_response
    verdict
wake-is_retry_example = wake-is_retry busy_first unwilling "t1" "" refl

wake-IsStarted_example : IsStarted willing (wake willing "t1").requests
unfolding wake enter then_ask resume start status_in thread_of turn_of exit_code call await_response
wake-IsStarted_example = wake-IsStarted willing "t1" refl

frame-decode_example :
    (frame mask 1 (123 ∷ 125 ∷ 0 ∷ 255 ∷ 7 ∷ []) >>= λ sent. decode (sent ++ 9 ∷ []))
    ≡ ok ((1, 123 ∷ 125 ∷ 0 ∷ 255 ∷ 7 ∷ []), 9 ∷ [])
frame-decode_example =
    frame-decode mask 1 (123 ∷ 125 ∷ 0 ∷ 255 ∷ 7 ∷ []) (9 ∷ []) (omega arith) refl refl
      (omega arith)

receive-wire_example :
    receive (wire false pieces (125 ∷ []) ++ 129 ∷ [])
    ≡ record { pongs = (1 ∷ []) ∷ []; outcome = some (ok (123 ∷ 34 ∷ 34 ∷ 125 ∷ [], 129 ∷ [])) }
receive-wire_example = receive-wire pieces (125 ∷ []) (129 ∷ []) refl (omega arith)

receive-ends_example : (receive (137 ∷ 0 ∷ 1 ∷ 200 ∷ [])).outcome ≢ none
receive-ends_example = receive-ends (137 ∷ 0 ∷ 1 ∷ 200 ∷ [])
