-- ===== src/Codex/Messages.antt =====
-- Whole messages that src/codex.py receives.
use wait_skill.Prelude.{
  ℕ, zero, suc, ◌+◌, ◌<◌, ◌≤◌, Bool, true, false, ◌≡◌, ◌∙◌, refl, ap, some, List, [], ◌∷◌, ◌++◌,
  length, length-append, all, ok, arith,
}
use mathlib.Core.List.{append_assoc}
use wait_skill.Codex.Frames.{
  max_message_bytes, ping, nothing, part, end, Received, act_on, receive_from, receive,
}
use wait_skill.Codex.Fragments.{
  server_frame, Piece, fragment, pings, pongs, wire, joined, all_pings, is_permitted, text_opcode,
  step, end-meaning, part-meaning, ping-meaning, pong-meaning, no_flags_text,
}

abbrev received : List Piece → (held last rest : List ℕ) → Received
received pieces held last rest = record {
  pongs = all_pings pieces;
  outcome = some (ok (held ++ joined pieces last, rest));
}

receive_from-wire :
    (n : ℕ) (held : List ℕ) (fragmented : Bool) (pieces : List Piece) (last rest : List ℕ)
    → length pieces < n
    → all is_permitted pieces ≡ true
    → length held + length (joined pieces last) + 125 ≤ max_message_bytes
    → receive_from n held fragmented (wire fragmented pieces last ++ rest)
      ≡ received pieces held last rest
unfolding act_on
receive_from-wire zero held fragmented pieces last rest fuel short room =
    absurd (omega (arith, fuel))
receive_from-wire (suc n) held fragmented [] last rest fuel short room =
    step n held fragmented (128 + text_opcode fragmented) last rest end (no_flags_text fragmented).1
      (omega (arith, room)) (end-meaning fragmented (length last))
receive_from-wire (suc n) held fragmented (fragment p ∷ pieces) last rest fuel short room =
    let sizes = length-append p (joined pieces last) in
    let held_sizes = length-append held p in
    let next = wire true pieces last in
    let more =
      receive_from-wire n (held ++ p) true pieces last rest (omega (arith, fuel)) short
        (omega (arith, room, sizes, held_sizes)) in
    ap (receive_from (suc n) held fragmented)
      (append_assoc (server_frame (text_opcode fragmented) p) next rest)
    ∙ step n held fragmented (text_opcode fragmented) p (next ++ rest) part
        (no_flags_text fragmented).0 (omega (arith, room, sizes))
        (part-meaning fragmented (length p))
    ∙ more
    ∙ ap {B = Received} (λ x. record { pongs = all_pings pieces; outcome = some (ok (x, rest)) })
        (append_assoc held p (joined pieces last))
receive_from-wire (suc n) held fragmented (pings p ∷ pieces) last rest fuel short room =
    let next = wire fragmented pieces last in
    let more =
      receive_from-wire n held fragmented pieces last rest (omega (arith, fuel))
        (ground (arith, short)) room in
    let control : length p ≤ 125 = ground (arith, short) in
    ap (receive_from (suc n) held fragmented) (append_assoc (server_frame 137 p) next rest)
    ∙ step n held fragmented 137 p (next ++ rest) ping refl (omega (arith, room, control))
        (ping-meaning fragmented (length p) (ground (arith, short)))
    ∙ ap {A = Received} (λ x. record x { pongs = p ∷ x.pongs }) more
receive_from-wire (suc n) held fragmented (pongs p ∷ pieces) last rest fuel short room =
    let next = wire fragmented pieces last in
    let more =
      receive_from-wire n held fragmented pieces last rest (omega (arith, fuel))
        (ground (arith, short)) room in
    let control : length p ≤ 125 = ground (arith, short) in
    ap (receive_from (suc n) held fragmented) (append_assoc (server_frame 138 p) next rest)
    ∙ step n held fragmented 138 p (next ++ rest) nothing refl (omega (arith, room, control))
        (pong-meaning fragmented (length p) (ground (arith, short)))
    ∙ more

length-wire :
    (fragmented : Bool) (pieces : List Piece) (last : List ℕ)
    → length pieces ≤ length (wire fragmented pieces last)
length-wire fragmented [] last = omega arith
length-wire fragmented (fragment p ∷ pieces) last = omega (
  arith,
  length-append (server_frame (text_opcode fragmented) p) (wire true pieces last),
  length-wire true pieces last,
)
length-wire fragmented (pings p ∷ pieces) last = omega (
  arith,
  length-append (server_frame 137 p) (wire fragmented pieces last),
  length-wire fragmented pieces last,
)
length-wire fragmented (pongs p ∷ pieces) last = omega (
  arith,
  length-append (server_frame 138 p) (wire fragmented pieces last),
  length-wire fragmented pieces last,
)

-- A text message that a server sends in any number of fragments, with pings and pongs of 125 bytes
-- at most between them, is received whole: the fragments are joined in order, each ping is
-- answered with its own bytes, and what comes behind the message is left. The message is at least
-- 125 bytes below the permitted size, since a control frame counts against it as well.
pub receive-wire :
    (pieces : List Piece) (last rest : List ℕ)
    → all is_permitted pieces ≡ true
    → length (joined pieces last) + 125 ≤ max_message_bytes
    → receive (wire false pieces last ++ rest)
      ≡ record { pongs = all_pings pieces; outcome = some (ok (joined pieces last, rest)) }
unfolding receive
receive-wire pieces last rest short room =
    receive_from-wire (length (wire false pieces last ++ rest) + 1) [] false pieces last rest
      (omega (arith, length-wire false pieces last, length-append (wire false pieces last) rest))
      short (omega (arith, room))
