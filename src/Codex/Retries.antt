-- ===== src/Codex/Retries.antt =====
-- The exits of src/codex.py, as `_deliver` of src/waitd.py reads them.
use wait_skill.Prelude.{
  ℕ, Bool, true, false, ◌||◌, some, List, [], ◌∷◌, ◌++◌, String, Result, ok, err, ◌>>=◌, ◌≡◌, refl,
  ◌⊎◌, inl, inr, Bool-cases, any, arith, nat_eq, Option-cases,
}
use wait_skill.Goal.State.{codex}
use wait_skill.Daemon.State.{exit}
use wait_skill.Daemon.Delivery.{Surroundings, exited, verdict}
use wait_skill.Daemon.Success.{is_retry}
use wait_skill.Codex.Rpc.{
  Raised, os_error, value_error, key_error, type_error, other_error, rpc_error, unconfirmed_error,
  Json, Fields, call, is_text, get, object, text, number, other,
}
use wait_skill.Codex.Wake.{
  Method, thread_read, turn_start, Server, Asked, then_ask, enter, resume, start, wake, exit_code,
  turn_of, confirm, confirmed_turn, is_confirmed,
}

abbrev is_start : Method → Bool
is_start turn_start = true
is_start _ = false

abbrev pub asks_start : List Method → Bool
asks_start requests = any is_start requests

-- The server has rejected the turn, or an exception that no handler names has ended the client.
pub data IsRefused (server : Server) : Type 0 where
  rejected : (id : ℕ) → call id server.on_start ≡ err rpc_error → IsRefused server
  broken : (id : ℕ) → call id server.on_start ≡ err other_error → IsRefused server

-- The codes 0 and 71.
abbrev is_final : ℕ → Bool
is_final code = nat_eq code 0 || nat_eq code 71

abbrev IsSettled : Server → Asked ℕ → Type 0
IsSettled server a =
    (is_final (exit_code a.outcome) ≡ true) ⊎ ((asks_start a.requests ≡ false) ⊎ IsRefused server)

any-append :
    (xs ys : List Method)
    → asks_start xs ≡ false
    → asks_start ys ≡ false
    → asks_start (xs ++ ys) ≡ false
any-append [] ys h k = k
any-append (x ∷ xs) ys h k = ground (arith, any-append xs ys)

then_ask-IsSettled {ℓ} :
    {A : Type ℓ} (server : Server) (requests : List Method) (r : Result Raised A)
    (next : A → Asked ℕ)
    → asks_start requests ≡ false
    → ((a : A) → IsSettled server (next a))
    → IsSettled server (then_ask requests r next)
unfolding then_ask
then_ask-IsSettled server requests (ok a) next h k = elim (k a) [
  | inl final ↦ inl final
  | inr (inl quiet) ↦ inr (inl (any-append requests (next a).requests h quiet))
  | inr (inr refused) ↦ inr (inr refused)
]
then_ask-IsSettled server requests (err e) next h k = inr (inl h)

confirmed_turn_final : (turn : Json) → is_final (exit_code (confirm (confirmed_turn turn))) ≡ true
unfolding exit_code
confirmed_turn_final (object turn) = elim (Bool-cases (is_confirmed turn)) [
  | inl yes_turn ↦ rw yes_turn refl
  | inr no_turn ↦ rw no_turn refl
]
confirmed_turn_final (text s) = refl
confirmed_turn_final (number n) = refl
confirmed_turn_final other = refl

turn_of_final : (result : Fields) → is_final (exit_code (confirm (turn_of result))) ≡ true
unfolding turn_of exit_code
turn_of_final result = elim (Option-cases (get "turn" result)) [
  | inl lost ↦ rw (lost, exit_code) refl
  | inr (turn, found) ↦ rw (found, exit_code) (confirmed_turn_final turn)
]

-- The end of a call of `turn/start`.
call_settled :
    (server : Server) (id : ℕ) (r : Result Raised Fields)
    → call id server.on_start ≡ r
    → (is_final (exit_code (confirm (r >>= turn_of))) ≡ true) ⊎ IsRefused server
unfolding exit_code
call_settled server id (ok result) h = inl (turn_of_final result)
call_settled server id (err rpc_error) h = inr (rejected id h)
call_settled server id (err other_error) h = inr (broken id h)
call_settled server id (err os_error) h = inl refl
call_settled server id (err value_error) h = inl refl
call_settled server id (err key_error) h = inl refl
call_settled server id (err type_error) h = inl refl
call_settled server id (err unconfirmed_error) h = inl refl

start-IsSettled :
    (server : Server) (id : ℕ) (status : Json) → IsSettled server (start server id status)
unfolding start
start-IsSettled server id status = elim (Bool-cases (is_text "active" (some status))) [
  | inl busy ↦ rw busy (inr (inl refl))
  | inr free ↦ elim (Bool-cases (is_text "idle" (some status))) [
    | inl idle ↦
        rw (free, idle)
          (elim (call_settled server id (call id server.on_start) refl) [
            | inl final ↦ inl final
            | inr refused ↦ inr (inr refused)
          ])
    | inr wrong ↦ rw (free, wrong) (inr (inl refl))
  ]
]

enter_quiet : (server : Server) → asks_start (enter server).requests ≡ false
unfolding enter then_ask
enter_quiet server = ground arith

resume_quiet :
    (server : Server) (session : String) (status : Json)
    → asks_start (resume server session status).requests ≡ false
unfolding resume
resume_quiet server session status = ground arith

wake-IsSettled : (server : Server) (session : String) → IsSettled server (wake server session)
unfolding wake
wake-IsSettled server session =
    then_ask-IsSettled server (enter server).requests (enter server).outcome _ (enter_quiet server)
      (λ _. then_ask-IsSettled server (thread_read ∷ []) _ _ refl (λ first.
        then_ask-IsSettled server (resume server session first).requests _ _
          (resume_quiet server session first) (λ status. start-IsSettled server _ status)))

final_over :
    (s : Surroundings) (code : ℕ) (stderr : String)
    → is_final code ≡ true
    → is_retry (verdict s codex (exited (exit code) stderr)) ≡ false
unfolding verdict
final_over s code stderr h = ground arith

-- When the daemon takes the exit code of the client as one behind which another attempt may
-- follow, the client has not sent `turn/start`, or the server has rejected that request, or an
-- exception has ended the client that none of its handlers names.
pub wake-is_retry :
    (s : Surroundings) (server : Server) (session stderr : String)
    → is_retry (verdict s codex (exited (exit (exit_code (wake server session).outcome)) stderr))
      ≡ true
    → (asks_start (wake server session).requests ≡ false) ⊎ IsRefused server
wake-is_retry s server session stderr h = elim (wake-IsSettled server session) [
  | inl final ↦ absurd (cc (h, final_over s (exit_code (wake server session).outcome) stderr final))
  | inr safe ↦ safe
]
