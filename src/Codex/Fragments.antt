-- ===== src/Codex/Fragments.antt =====
-- The messages that src/codex.py receives, as a server sends them.
use wait_skill.Prelude.{
  ℕ, suc, ◌+◌, ◌<◌, ◌≤◌, Bool, true, false, ◌≡◌, ◌∙◌, refl, ap, List, [], ◌∷◌, ◌++◌, length, ltb,
  leb, ok, if◌then◌else◌, arith, inl, inr, Bool-cases,
}
use mathlib.Core.List.{append_assoc}
use Prim.Native.Nat.{bit_and}
use wait_skill.Codex.Bytes.{pack, take_bytes-append, low-bit_and, flag-bit_and}
use wait_skill.Codex.Masking.{packed-read}
use wait_skill.Codex.Frames.{
  head_of, read_size, read_frame, max_message_bytes, Meaning, ping, nothing, part, end, meaning,
  act_on, receive_next, receive_from,
}

-- A frame of a server by RFC 6455: without extensions or a mask, its size as short as can be.
abbrev size_field : ℕ → List ℕ
size_field size =
    if ltb size 126
    then size ∷ []
    else if leb size 65535
    then 126 ∷ pack 2 size
    else 127 ∷ pack 8 size

abbrev pub server_frame : (first : ℕ) → List ℕ → List ℕ
server_frame first payload = first ∷ size_field (length payload) ++ payload

-- What a server sends before the last fragment of a message.
pub data Piece : Type 0 where
  fragment pings pongs : List ℕ → Piece

-- The first byte of a frame: 128 for the last one, and the opcode.
abbrev pub text_opcode : (fragmented : Bool) → ℕ
text_opcode fragmented = if fragmented then 0 else 1

-- The bytes of a message: its pieces, and its last fragment.
abbrev pub wire : (fragmented : Bool) → List Piece → (last : List ℕ) → List ℕ
wire fragmented [] last = server_frame (128 + text_opcode fragmented) last
wire fragmented (fragment p ∷ pieces) last =
    server_frame (text_opcode fragmented) p ++ wire true pieces last
wire fragmented (pings p ∷ pieces) last = server_frame 137 p ++ wire fragmented pieces last
wire fragmented (pongs p ∷ pieces) last = server_frame 138 p ++ wire fragmented pieces last

abbrev pub joined : List Piece → (last : List ℕ) → List ℕ
joined [] last = last
joined (fragment p ∷ pieces) last = p ++ joined pieces last
joined (_ ∷ pieces) last = joined pieces last

abbrev pub all_pings : List Piece → List (List ℕ)
all_pings [] = []
all_pings (pings p ∷ pieces) = p ∷ all_pings pieces
all_pings (_ ∷ pieces) = all_pings pieces

-- Control frames are short.
abbrev pub is_permitted : Piece → Bool
is_permitted (fragment p) = true
is_permitted (pings p) = leb (length p) 125
is_permitted (pongs p) = leb (length p) 125

size_field-read :
    (size : ℕ) (tail : List ℕ)
    → size ≤ max_message_bytes
    → (second : ℕ) × (more : List ℕ) × (size_field size ++ tail ≡ second ∷ more)
      × (bit_and second 128 ≡ 0)
      × (read_size (bit_and second 127) more ≡ ok (size, tail))
size_field-read size tail h = elim (Bool-cases (ltb size 126)) [
  | inl short ↦
      let low : size < 126 = ground (arith, short) in
      let plain : read_size size tail ≡ ok (size, tail) = ground (arith, low) in
      let code = low-bit_and size (omega (arith, low)) in
      rw short (
        size,
        tail,
        refl,
        flag-bit_and size (omega (arith, low)),
        ap (λ x. read_size x tail) code ∙ plain,
      )
  | inr long ↦ elim (Bool-cases (leb size 65535)) [
    | inl two ↦
        rw (long, two)
          (126, pack 2 size ++ tail, refl, refl, packed-read 2 size tail (ground (arith, two)))
    | inr eight ↦
        rw (long, eight)
          (127, pack 8 size ++ tail, refl, refl, packed-read 8 size tail (omega (arith, h)))
  ]
]

sized_frame-read :
    (held first second : ℕ) (more payload rest : List ℕ)
    → bit_and first 112 ≡ 0
    → bit_and second 128 ≡ 0
    → read_size (bit_and second 127) more ≡ ok (length payload, payload ++ rest)
    → held + length payload ≤ max_message_bytes
    → read_frame held (first ∷ second ∷ more) ≡ ok ((head_of first (length payload), payload), rest)
unfolding read_frame
sized_frame-read held first second more payload rest no_flags no_mask sized room =
    let fits : ltb max_message_bytes (held + length payload) ≡ false = ground (arith, room) in
    let chunk = take_bytes-append (length payload) payload rest refl in
    rw (no_flags, no_mask, sized, fits, chunk) refl

server_frame-read :
    (held first : ℕ) (payload rest : List ℕ)
    → bit_and first 112 ≡ 0
    → held + length payload ≤ max_message_bytes
    → read_frame held (server_frame first payload ++ rest)
      ≡ ok ((head_of first (length payload), payload), rest)
server_frame-read held first payload rest no_flags room =
    let f = size_field-read (length payload) (payload ++ rest) (omega (arith, room)) in
    let whole = append_assoc (size_field (length payload)) payload rest ∙ f.2 in
    ap (λ s. read_frame held (first ∷ s)) whole
    ∙ sized_frame-read held first f.0 f.1 payload rest no_flags f.3 f.4 room

pub end-meaning :
    (fragmented : Bool) (size : ℕ)
    → meaning fragmented (head_of (128 + text_opcode fragmented) size) ≡ end
unfolding meaning
end-meaning true size = refl
end-meaning false size = refl

pub part-meaning :
    (fragmented : Bool) (size : ℕ)
    → meaning fragmented (head_of (text_opcode fragmented) size) ≡ part
unfolding meaning
part-meaning true size = refl
part-meaning false size = refl

pub no_flags_text :
    (fragmented : Bool)
    → (bit_and (text_opcode fragmented) 112 ≡ 0) × (bit_and (128 + text_opcode fragmented) 112 ≡ 0)
no_flags_text true = (refl, refl)
no_flags_text false = (refl, refl)

pub ping-meaning :
    (fragmented : Bool) (size : ℕ)
    → leb size 125 ≡ true
    → meaning fragmented (head_of 137 size) ≡ ping
unfolding meaning
ping-meaning fragmented size h = ground (arith, h)

pub pong-meaning :
    (fragmented : Bool) (size : ℕ)
    → leb size 125 ≡ true
    → meaning fragmented (head_of 138 size) ≡ nothing
unfolding meaning
pong-meaning fragmented size h = ground (arith, h)

-- One frame that is read, in the loop.
pub step :
    (n : ℕ) (held : List ℕ) (fragmented : Bool) (first : ℕ) (payload rest : List ℕ) (m : Meaning)
    → bit_and first 112 ≡ 0
    → length held + length payload ≤ max_message_bytes
    → meaning fragmented (head_of first (length payload)) ≡ m
    → receive_from (suc n) held fragmented (server_frame first payload ++ rest)
      ≡ act_on m held payload rest fragmented (receive_from n)
unfolding receive_from receive_next
step n held fragmented first payload rest m no_flags room h =
    ap (λ r. receive_next r held fragmented (receive_from n))
      (server_frame-read (length held) first payload rest no_flags room)
    ∙ ap (λ x. act_on x held payload rest fragmented (receive_from n)) h
