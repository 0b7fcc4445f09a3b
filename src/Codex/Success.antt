-- ===== src/Codex/Success.antt =====
-- The successful end of src/codex.py.
use wait_skill.Prelude.{
  ℕ, true, some, List, [], ◌∷◌, ◌++◌, String, Result, ok, err, ◌>>=◌, ◌≡◌, ◌∙◌, refl, sym, ap, inl,
  inr, Bool-cases, Option-cases, >>=-eq-ok,
}
use mathlib.Core.List.{append_assoc}
use wait_skill.Codex.Rpc.{
  Raised, os_error, value_error, key_error, type_error, other_error, rpc_error, unconfirmed_error,
  Json, Fields, call, is_text, get, item, object, text, number, other,
}
use wait_skill.Codex.Wake.{
  Method, thread_read, turn_start, Server, Asked, then_ask, enter, resume, start, wake, exit_code,
  turn_of, as_unconfirmed, confirm, confirmed_turn, is_confirmed, exit_busy,
}

raised_exit : (e : Raised) → exit_code (err e) ≡ 0 → ⊥
unfolding exit_code
raised_exit os_error h = cc h
raised_exit value_error h = cc h
raised_exit key_error h = cc h
raised_exit type_error h = cc h
raised_exit other_error h = cc h
raised_exit rpc_error h = cc h
raised_exit unconfirmed_error h = cc h

-- Code that ends with 0 behind other code has had that succeed.
then_ask-zero {ℓ} :
    {A : Type ℓ} (requests : List Method) (r : Result Raised A) (next : A → Asked ℕ)
    → exit_code (then_ask requests r next).outcome ≡ 0
    → (a : A) × (exit_code (next a).outcome ≡ 0)
      × ((then_ask requests r next).requests ≡ requests ++ (next a).requests)
unfolding then_ask
then_ask-zero requests (ok a) next h = (a, h, refl)
then_ask-zero requests (err e) next h = absurd (raised_exit e h)

-- The last request was `turn/start`, and the response to it confirmed a turn.
pub record IsStarted (server : Server) (requests : List Method) : Type 0 where
  pub before : List Method
  pub last : requests ≡ before ++ turn_start ∷ []
  pub id : ℕ
  pub result : Fields
  pub turn : Fields
  pub answered : call id server.on_start ≡ ok result
  pub given : get "turn" result ≡ some (object turn)
  pub confirmed : is_confirmed turn ≡ true

busy_exit : exit_code (ok exit_busy) ≡ 0 → ⊥
unfolding exit_code
busy_exit h = cc h

confirmed_turn-ok :
    (value : Json) (turn : Fields)
    → confirmed_turn value ≡ ok turn
    → (value ≡ object turn) × (is_confirmed turn ≡ true)
confirmed_turn-ok (object fields) turn h = elim (Bool-cases (is_confirmed fields)) [
  | inl good ↦
      let same : ok fields ≡ ok turn = rw good at h in
      let inner : fields ≡ turn = cc same in (ap object inner, ap is_confirmed (sym inner) ∙ good)
  | inr bad ↦ absurd (cc (rw bad at h))
]
confirmed_turn-ok (text s) turn h = absurd (cc h)
confirmed_turn-ok (number n) turn h = absurd (cc h)
confirmed_turn-ok other turn h = absurd (cc h)

item-ok :
    (name : String) (fields : Fields) (value : Json)
    → item name fields ≡ ok value
    → get name fields ≡ some value
item-ok name fields value h = elim (Option-cases (get name fields)) [
  | inl lost ↦ absurd (cc (rw (lost, item) at h))
  | inr (found, same) ↦
      let inner : ok found ≡ ok value = rw (same, item) at h in
      let equal : found ≡ value = cc inner in same ∙ ap some equal
]

turn_of-ok :
    (result turn : Fields)
    → turn_of result ≡ ok turn
    → (get "turn" result ≡ some (object turn)) × (is_confirmed turn ≡ true)
unfolding turn_of
turn_of-ok result turn h =
    let found = >>=-eq-ok (item "turn" result) confirmed_turn h in
    let good = confirmed_turn-ok found.0 turn found.2 in
    (item-ok "turn" result found.0 found.1 ∙ ap some good.0, good.1)

confirm-zero :
    (r : Result Raised Fields) → exit_code (confirm r) ≡ 0 → (turn : Fields) × (r ≡ ok turn)
confirm-zero (ok turn) h = (turn, refl)
confirm-zero (err e) h = absurd (raised_exit (as_unconfirmed e) h)

start-IsStarted :
    (server : Server) (id : ℕ) (status : Json)
    → exit_code (start server id status).outcome ≡ 0
    → IsStarted server (start server id status).requests
unfolding start
start-IsStarted server id status h = elim (Bool-cases (is_text "active" (some status))) [
  | inl busy ↦ absurd (busy_exit (rw busy at h))
  | inr free ↦ elim (Bool-cases (is_text "idle" (some status))) [
    | inl idle ↦
        let ended = confirm-zero (call id server.on_start >>= turn_of) (rw (free, idle) at h) in
        let given = >>=-eq-ok (call id server.on_start) turn_of ended.1 in
        let good = turn_of-ok given.0 ended.0 given.2 in
        rw (free, idle)
          (record {
            before = [];
            last = refl;
            id = id;
            result = given.0;
            turn = ended.0;
            answered = given.1;
            given = good.0;
            confirmed = good.1;
          })
    | inr wrong ↦ absurd (raised_exit rpc_error (rw (free, wrong) at h))
  ]
]

-- More requests come before.
behind-IsStarted :
    (server : Server) (first rest requests : List Method)
    → requests ≡ first ++ rest
    → IsStarted server rest
    → IsStarted server requests
behind-IsStarted server first rest requests h s = record {
  before = first ++ s.before;
  last = h ∙ ap (first ++◌) s.last ∙ sym (append_assoc first s.before (turn_start ∷ []));
  id = s.id;
  result = s.result;
  turn = s.turn;
  answered = s.answered;
  given = s.given;
  confirmed = s.confirmed;
}

-- When the client ends with exit code 0, its last request was `turn/start`, and the server has
-- answered it with a turn that has an identifier and is in progress or completed.
pub wake-IsStarted :
    (server : Server) (session : String)
    → exit_code (wake server session).outcome ≡ 0
    → IsStarted server (wake server session).requests
unfolding wake
wake-IsStarted server session h =
    let inside = then_ask-zero (enter server).requests (enter server).outcome _ h in
    let read = then_ask-zero (thread_read ∷ []) _ _ inside.1 in
    let loaded = then_ask-zero (resume server session read.0).requests _ _ read.1 in
    behind-IsStarted server _ _ _ inside.2 (
      behind-IsStarted server (thread_read ∷ []) _ _ read.2
        (behind-IsStarted server _ _ _ loaded.2 (start-IsStarted server _ loaded.0 loaded.1)))
