-- ===== src/Codex/Samples.antt =====
-- Small app servers, and frames.
use wait_skill.Prelude.{ℕ, none, List, [], ◌∷◌, String, ok}
use wait_skill.Codex.Rpc.{Json, object, text, number, other, no_fields, field, Exchange}
use wait_skill.Codex.Wake.{Server}
use wait_skill.Codex.Frames.{Mask}
use wait_skill.Codex.Fragments.{Piece, fragment, pings, pongs}

-- A call that is answered, behind a notification.
abbrev answers : ℕ → String → Json → Exchange
answers id name value = record {
  send_fails = none;
  messages =
      ok (object (field "method" (text "note") no_fields))
      ∷ ok (object (field "id" (number id) (field name value no_fields)))
      ∷ [];
}

abbrev thread : String → Json
thread status = object (
    field "thread"
      (object (
        field "id" (text "t1")
          (field "status" (object (field "type" (text status) no_fields)) no_fields)))
      no_fields)

abbrev turn : Json
turn = object (
    field "turn" (object (field "id" (text "u1") (field "status" (text "inProgress") no_fields)))
      no_fields)

-- An idle thread, whose turn is started.
abbrev pub willing : Server
willing = record {
  connect_fails = none;
  on_initialize = answers 1 "result" (object no_fields);
  announce_fails = none;
  on_read = answers 2 "result" (thread "idle");
  on_resume = answers 3 "result" (thread "idle");
  on_start = answers 3 "result" turn;
}

-- It rejects the turn.
abbrev pub unwilling : Server
unwilling = record willing { on_start = answers 3 "error" other }

abbrev pub mask : Mask
mask = record { key0 = 17; key1 = 34; key2 = 51; key3 = 255 }

abbrev pub pieces : List Piece
pieces = pings (1 ∷ []) ∷ fragment (123 ∷ 34 ∷ []) ∷ pongs [] ∷ fragment (34 ∷ []) ∷ []
