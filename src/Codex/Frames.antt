-- ===== src/Codex/Frames.antt =====
-- src/codex.py, WebSocket frames: `AppServer.frame` and `AppServer.receive`.
use wait_skill.Prelude.{
  ℕ, zero, suc, ◌+◌, ◌*◌, Bool, true, false, not, ◌&&◌, ◌||◌, Option, none, some, List, [], ◌∷◌,
  ◌++◌, length, ltb, leb, nat_eq, Result, ok, err, ◌>>=◌, ◌>>◌, raise_if, raise_unless,
  if◌then◌else◌,
}
use Prim.Native.Nat.{◌%◌, bit_and, bit_or, bit_xor}
use wait_skill.Codex.Rpc.{Raised, os_error, value_error}
use wait_skill.Codex.Bytes.{pack, unpack, take_bytes}

abbrev pub max_message_bytes : ℕ
max_message_bytes = 8 * 1024 * 1024

-- `secrets.token_bytes(4)`
pub record Mask : Type 0 where
  pub key0 : ℕ
  pub key1 : ℕ
  pub key2 : ℕ
  pub key3 : ℕ

-- `mask[i % 4]`
abbrev pub key_at : Mask → ℕ → ℕ
key_at mask i =
    if nat_eq (i % 4) 0
    then mask.key0
    else if nat_eq (i % 4) 1
    then mask.key1
    else if nat_eq (i % 4) 2
    then mask.key2
    else mask.key3

abbrev pub key_bytes : Mask → List ℕ
key_bytes mask = mask.key0 ∷ mask.key1 ∷ mask.key2 ∷ mask.key3 ∷ []

-- The bytes from number i on.
unfoldable pub masked : Mask → (i : ℕ) → List ℕ → List ℕ
masked mask i [] = []
masked mask i (b ∷ payload) = bit_xor b (key_at mask i) ∷ masked mask (i + 1) payload

abbrev pub size_bytes : ℕ → List ℕ
size_bytes size =
    if ltb size 126
    then bit_or 128 size ∷ []
    else if leb size 65535
    then bit_or 128 126 ∷ pack 2 size
    else bit_or 128 127 ∷ pack 8 size

-- `frame`: what is sent.
unfoldable pub frame : Mask → (opcode : ℕ) → (payload : List ℕ) → Result Raised (List ℕ)
frame mask opcode payload = do
  raise_if (ltb max_message_bytes (length payload)) value_error
  ok (bit_or 128 opcode ∷ size_bytes (length payload) ++ key_bytes mask ++ masked mask 0 payload)

pub record Head : Type 0 where
  pub final : Bool
  pub opcode : ℕ
  pub size : ℕ

abbrev pub size_of : Result Raised (List ℕ × List ℕ) → Result Raised (ℕ × List ℕ)
size_of r = r >>= λ taken. ok (unpack taken.0, taken.1)

-- The size of a frame, by the seven low bits of its second byte.
abbrev pub read_size : ℕ → List ℕ → Result Raised (ℕ × List ℕ)
read_size size s =
    if nat_eq size 126
    then size_of (take_bytes 2 s)
    else if nat_eq size 127
    then size_of (take_bytes 8 s)
    else ok (size, s)

abbrev pub head_of : (first size : ℕ) → Head
head_of first size = record {
  final = not (nat_eq (bit_and first 128) 0);
  opcode = bit_and first 15;
  size = size;
}

abbrev pub with_chunk :
    (first size : ℕ) → List ℕ × List ℕ → Result Raised ((Head × List ℕ) × List ℕ)
with_chunk first size taken = ok ((head_of first size, taken.0), taken.1)

-- The chunk of a frame, behind its size.
abbrev pub read_chunk : (held first : ℕ) → ℕ × List ℕ → Result Raised ((Head × List ℕ) × List ℕ)
read_chunk held first sized =
    raise_if (ltb max_message_bytes (held + sized.0)) os_error
    >> (take_bytes sized.0 sized.1 >>= with_chunk first sized.0)

-- One frame, its head and its chunk; `held` is the size of the payload so far.
unfoldable pub read_frame : (held : ℕ) → List ℕ → Result Raised ((Head × List ℕ) × List ℕ)
read_frame held (first ∷ second ∷ s) =
    raise_unless (nat_eq (bit_and first 112) 0 && nat_eq (bit_and second 128) 0) os_error
    >> (read_size (bit_and second 127) s >>= read_chunk held first)
read_frame held _ = err os_error

-- What a frame means: an error, a ping, nothing, a part of the message, or its end.
pub data Meaning : Type 0 where
  refused : Raised → Meaning
  ping nothing part end : Meaning

abbrev control : Head → Meaning
control head =
    if not head.final || ltb 125 head.size
    then refused os_error
    else if nat_eq head.opcode 8
    then refused os_error
    else if nat_eq head.opcode 9
    then ping
    else if nat_eq head.opcode 10
    then nothing
    else refused os_error

unfoldable pub meaning : (fragmented : Bool) → Head → Meaning
meaning fragmented head =
    if leb 8 head.opcode
    then control head
    else if not (nat_eq head.opcode (if fragmented then 0 else 1))
    then refused os_error
    else if head.final
    then end
    else part

-- The pings that were answered, and how `receive` ends, with the rest of the stream: none when the
-- fuel is spent.
pub record Received : Type 0 where
  pub pongs : List (List ℕ)
  pub outcome : Option (Result Raised (List ℕ × List ℕ))

abbrev ends : Result Raised (List ℕ × List ℕ) → Received
ends r = record { pongs = []; outcome = some r }

-- `again` is the rest of the loop.
unfoldable pub act_on :
    Meaning
    → (payload chunk rest : List ℕ) → (fragmented : Bool)
    → (again : List ℕ → Bool → List ℕ → Received) → Received
act_on (refused e) payload chunk rest fragmented again = ends (err e)
act_on ping payload chunk rest fragmented again =
    let more = again payload fragmented rest in record more { pongs = chunk ∷ more.pongs }
act_on nothing payload chunk rest fragmented again = again payload fragmented rest
act_on part payload chunk rest fragmented again = again (payload ++ chunk) true rest
act_on end payload chunk rest fragmented again = ends (ok (payload ++ chunk, rest))

unfoldable pub receive_next :
    Result Raised ((Head × List ℕ) × List ℕ)
    → (payload : List ℕ) → (fragmented : Bool) → (again : List ℕ → Bool → List ℕ → Received)
    → Received
receive_next (err e) payload fragmented again = ends (err e)
receive_next (ok ((head, chunk), rest)) payload fragmented again =
    act_on (meaning fragmented head) payload chunk rest fragmented again

unfoldable pub receive_from :
    (fuel : ℕ) → (payload : List ℕ) → (fragmented : Bool) → List ℕ → Received
receive_from zero payload fragmented s = record { pongs = []; outcome = none }
receive_from (suc n) payload fragmented s =
    receive_next (read_frame (length payload) s) payload fragmented (receive_from n)

-- `receive`, to the bytes of the message. Each frame takes two bytes at least.
unfoldable pub receive : List ℕ → Received
receive s = receive_from (length s + 1) [] false s
