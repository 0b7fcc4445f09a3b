-- ===== src/Codex/Wake.antt =====
-- src/codex.py: `wake` and `main`.
use wait_skill.Prelude.{
  ℕ, Bool, false, not, ◌&&◌, ◌||◌, Option, none, some, List, [], ◌∷◌, ◌++◌, String, ◌==◌, Result,
  ok, err, ◌>>=◌, ◌>>◌, raise_unless, if◌then◌else◌,
}
use wait_skill.Daemon.State.{exit_notify_failed, exit_notify_unconfirmed}
use wait_skill.Codex.Rpc.{
  Raised, os_error, value_error, key_error, type_error, other_error, rpc_error, unconfirmed_error,
  Json, object, text, Fields, get, item, item_of, is_text, Exchange, call,
}

pub data Method : Type 0 where
  initialize thread_read thread_resume turn_start : Method

-- What a run of the client meets: a failure to connect or of the handshake, the calls, and a
-- failure to announce that the client is ready.
pub record Server : Type 0 where
  pub connect_fails : Option Raised
  pub on_initialize : Exchange
  pub announce_fails : Option Raised
  pub on_read : Exchange
  pub on_resume : Exchange
  pub on_start : Exchange

-- The requests that may have been sent, in order, and how the code that sends them ends.
pub record Asked {ℓ} (A : Type ℓ) : Type ℓ where
  pub requests : List Method
  pub outcome : Result Raised A

-- More code behind some that has ended.
unfoldable pub then_ask {ℓ κ} :
    {A : Type ℓ} {B : Type κ} → List Method → Result Raised A → (A → Asked B) → Asked B
then_ask requests (ok a) next = record {
  requests = requests ++ (next a).requests;
  outcome = (next a).outcome;
}
then_ask requests (err e) next = record { requests = requests; outcome = err e }

abbrev raises_some : Option Raised → Result Raised (Unit {0})
raises_some none = ok tt
raises_some (some e) = err e

-- `__enter__`
unfoldable pub enter : Server → Asked (Unit {0})
enter server = then_ask [] (raises_some server.connect_fails) (λ _.
    then_ask (initialize ∷ []) (call 1 server.on_initialize)
      (λ _. record { requests = []; outcome = raises_some server.announce_fails }))

abbrev own_thread : (session : String) → Json → Result Raised Fields
own_thread session (object thread) =
    raise_unless (is_text session (get "id" thread)) value_error >> ok thread
own_thread session _ = err value_error

-- The thread of a response, when it is the one that was asked for.
unfoldable pub thread_of : (session : String) → Fields → Result Raised Fields
thread_of session result = item "thread" result >>= own_thread session

-- `thread["status"]["type"]`
abbrev pub status_of : Fields → Result Raised Json
status_of thread = item "status" thread >>= λ status. item_of "type" status

unfoldable pub status_in : (session : String) → Result Raised Fields → Result Raised Json
status_in session answer = do result ← answer; thread ← thread_of session result; status_of thread

-- A thread that is not loaded is resumed.
unfoldable pub resume : Server → (session : String) → Json → Asked Json
resume server session status =
    if is_text "notLoaded" (some status)
    then record {
      requests = thread_resume ∷ [];
      outcome = status_in session (call 3 server.on_resume);
    }
    else record { requests = []; outcome = ok status }

abbrev pub is_turn_id : Option Json → Bool
is_turn_id (some (text id)) = not (id == "")
is_turn_id _ = false

abbrev pub is_confirmed : Fields → Bool
is_confirmed turn =
    is_turn_id (get "id" turn)
    && (is_text "inProgress" (get "status" turn) || is_text "completed" (get "status" turn))

-- A status that cannot be a member of a set raises a TypeError, to the same end.
abbrev pub confirmed_turn : Json → Result Raised Fields
confirmed_turn (object turn) = raise_unless (is_confirmed turn) value_error >> ok turn
confirmed_turn _ = err value_error

-- The turn of a response to `turn/start`.
unfoldable pub turn_of : Fields → Result Raised Fields
turn_of result = item "turn" result >>= confirmed_turn

-- `except RpcError: raise`, and `except (OSError, ValueError, KeyError, TypeError)`.
abbrev pub as_unconfirmed : Raised → Raised
as_unconfirmed rpc_error = rpc_error
as_unconfirmed other_error = other_error
as_unconfirmed _ = unconfirmed_error

abbrev pub exit_busy : ℕ
exit_busy = 75

-- The number of the request `turn/start`: one more behind `thread/resume`.
abbrev start_id : Json → ℕ
start_id status = if is_text "notLoaded" (some status) then 4 else 3

abbrev pub confirm : Result Raised Fields → Result Raised ℕ
confirm (ok turn) = ok 0
confirm (err e) = err (as_unconfirmed e)

abbrev start_turn : Server → (request_id : ℕ) → Result Raised ℕ
start_turn server id = confirm (call id server.on_start >>= turn_of)

-- What `wake` does with a thread whose status is known.
unfoldable pub start : Server → (request_id : ℕ) → Json → Asked ℕ
start server id status =
    if is_text "active" (some status)
    then record { requests = []; outcome = ok exit_busy }
    else if is_text "idle" (some status)
    then record { requests = turn_start ∷ []; outcome = start_turn server id }
    else record { requests = []; outcome = err rpc_error }

-- `wake`: the exit code of the result. The number of a request counts the calls before it.
unfoldable pub wake : Server → (session : String) → Asked ℕ
wake server session =
    let entered = enter server in
    then_ask entered.requests entered.outcome (λ _.
      then_ask (thread_read ∷ []) (status_in session (call 2 server.on_read)) (λ first.
        let loaded = resume server session first in
        then_ask loaded.requests loaded.outcome (λ status. start server (start_id first) status)))

-- The exit code of `main`; an exception that it does not name ends the interpreter with 1.
unfoldable pub exit_code : Result Raised ℕ → ℕ
exit_code (ok code) = code
exit_code (err unconfirmed_error) = exit_notify_unconfirmed
exit_code (err os_error) = exit_notify_failed
exit_code (err value_error) = 2
exit_code (err rpc_error) = 2
exit_code (err key_error) = 2
exit_code (err type_error) = 2
exit_code (err other_error) = 1
