-- ===== src/Codex/Masking.antt =====
-- The frames that src/codex.py sends, as a server reads them.
use wait_skill.Prelude.{
  ℕ, ◌+◌, ◌-◌, ◌<◌, ◌≤◌, Bool, true, false, ◌||◌, ◌≡◌, ◌∙◌, refl, ap, List, [], ◌∷◌, ◌++◌, length,
  all, ltb, leb, Result, ok, err, ◌>>=◌, if◌then◌else◌, arith, inl, inr, Bool-cases,
}
use mathlib.Core.List.{append_assoc}
use Prim.Native.Nat.{◌^◌, ◌%◌, bit_or, bit_xor}
use wait_skill.Codex.Rpc.{Raised, os_error}
use wait_skill.Codex.Bytes.{
  is_byte, pack, unpack-pack, length-pack, take_bytes, take_bytes-append, xor_twice, flag-bit_or,
}
use wait_skill.Codex.Frames.{
  Mask, key_at, key_bytes, masked, size_bytes, frame, max_message_bytes, read_size, size_of,
}

-- The receiver's side of the masking: each byte of the payload is taken with the key byte in front,
-- which then goes behind the others.
abbrev unmask : (keys payload : List ℕ) → List ℕ
unmask (k ∷ keys) (b ∷ payload) = bit_xor b k ∷ unmask (keys ++ k ∷ []) payload
unmask _ _ = []

-- A frame of a client by RFC 6455: unfragmented, without extensions, and masked.
abbrev decode_size : List ℕ → Result Raised (ℕ × List ℕ)
decode_size (second ∷ s) = if ltb second 128 then err os_error else read_size (second - 128) s
decode_size [] = err os_error

abbrev decode_rest : (opcode : ℕ) → List ℕ → Result Raised ((ℕ × List ℕ) × List ℕ)
decode_rest opcode s = do
  sized ← decode_size s
  keys ← take_bytes 4 sized.1
  chunk ← take_bytes sized.0 keys.1
  ok ((opcode, unmask keys.0 chunk.0), chunk.1)

unfoldable pub decode : List ℕ → Result Raised ((ℕ × List ℕ) × List ℕ)
decode (first ∷ s) =
    if ltb first 128 || leb 144 first then err os_error else decode_rest (first - 128) s
decode [] = err os_error

abbrev pub has_bytes : Mask → Bool
has_bytes mask = all is_byte (key_bytes mask)

key_at-is_byte : (mask : Mask) (i : ℕ) → has_bytes mask ≡ true → key_at mask i < 256
key_at-is_byte mask i h = ground (arith, h)

key_at-period : (mask : Mask) (i : ℕ) → key_at mask (i + 4) ≡ key_at mask i
key_at-period mask i = let same : (i + 4) % 4 ≡ i % 4 = omega arith in rw same refl

-- The key bytes from number i on.
abbrev keys_from : Mask → ℕ → List ℕ
keys_from mask i =
    key_at mask i ∷ key_at mask (i + 1) ∷ key_at mask (i + 2) ∷ key_at mask (i + 3) ∷ []

keys_from-rotate :
    (mask : Mask) (i : ℕ)
    → key_at mask (i + 1) ∷ key_at mask (i + 2) ∷ key_at mask (i + 3) ∷ key_at mask i ∷ []
      ≡ keys_from mask (i + 1)
keys_from-rotate mask i =
    let two : i + 1 + 1 ≡ i + 2 = omega arith in
    let three : i + 1 + 2 ≡ i + 3 = omega arith in
    let four : i + 1 + 3 ≡ i + 4 = omega arith in
    let last = key_at-period mask i in rw (two, three, four, last) refl

unmask-masked :
    (mask : Mask) (i : ℕ) (payload : List ℕ)
    → has_bytes mask ≡ true
    → all is_byte payload ≡ true
    → unmask (keys_from mask i) (masked mask i payload) ≡ payload
unfolding masked
unmask-masked mask i [] h k = refl
unmask-masked mask i (b ∷ payload) h k =
    let here = xor_twice b (key_at mask i) (ground (arith, k)) (key_at-is_byte mask i h) in
    let more = unmask-masked mask (i + 1) payload h (ground (arith, k)) in
    let rest =
      ap (λ keys. unmask keys (masked mask (i + 1) payload)) (keys_from-rotate mask i) ∙ more in
    cc (here, rest)

length-masked :
    (mask : Mask) (i : ℕ) (payload : List ℕ) → length (masked mask i payload) ≡ length payload
unfolding masked
length-masked mask i [] = refl
length-masked mask i (b ∷ payload) = omega (arith, length-masked mask (i + 1) payload)

pub packed-read :
    (n size : ℕ) (tail : List ℕ)
    → size < 256 ^ n
    → size_of (take_bytes n (pack n size ++ tail)) ≡ ok (size, tail)
packed-read n size tail h =
    ap size_of (take_bytes-append n (pack n size) tail (length-pack n size))
    ∙ ap (λ x. ok (x, tail)) (unpack-pack n size h)

short-read :
    (size : ℕ) (tail : List ℕ) → size < 126 → decode_size ((128 + size) ∷ tail) ≡ ok (size, tail)
short-read size tail h = ground (arith, h)

size_bytes-read :
    (size : ℕ) (tail : List ℕ)
    → size ≤ max_message_bytes
    → decode_size (size_bytes size ++ tail) ≡ ok (size, tail)
size_bytes-read size tail h = elim (Bool-cases (ltb size 126)) [
  | inl short ↦
      rw (short, flag-bit_or size (ground (arith, short)))
        (short-read size tail (ground (arith, short)))
  | inr long ↦ elim (Bool-cases (leb size 65535)) [
    | inl two ↦ rw (long, two) (packed-read 2 size tail (ground (arith, two)))
    | inr eight ↦ rw (long, eight) (packed-read 8 size tail (omega (arith, h)))
  ]
]

decode-first :
    (opcode : ℕ) (s : List ℕ) → opcode < 16 → decode (bit_or 128 opcode ∷ s) ≡ decode_rest opcode s
unfolding decode
decode-first opcode s h =
    let first = flag-bit_or opcode (omega (arith, h)) in
    let low : ltb (128 + opcode) 128 || leb 144 (128 + opcode) ≡ false = ground (arith, h) in
    let same : 128 + opcode - 128 ≡ opcode = omega arith in rw (first, low, same) refl

decode_rest-frame :
    (mask : Mask) (opcode : ℕ) (payload rest : List ℕ)
    → has_bytes mask ≡ true
    → all is_byte payload ≡ true
    → length payload ≤ max_message_bytes
    → decode_rest opcode
        (size_bytes (length payload) ++ (key_bytes mask ++ (masked mask 0 payload ++ rest)))
      ≡ ok ((opcode, payload), rest)
decode_rest-frame mask opcode payload rest keys bytes room =
    let size =
      size_bytes-read (length payload) (key_bytes mask ++ (masked mask 0 payload ++ rest)) room in
    let four = take_bytes-append 4 (key_bytes mask) (masked mask 0 payload ++ rest) refl in
    let chunk =
      take_bytes-append (length payload) (masked mask 0 payload) rest
        (length-masked mask 0 payload) in
    let again = unmask-masked mask 0 payload keys bytes in rw (size, four, chunk, again) refl

-- A frame that the client sends is read as it was meant by a server that unmasks it with the four
-- key bytes of the frame in turn, whatever comes behind it: when the opcode has four bits, mask and payload are bytes, and the payload has the permitted
-- size.
pub frame-decode :
    (mask : Mask) (opcode : ℕ) (payload rest : List ℕ)
    → opcode < 16
    → has_bytes mask ≡ true
    → all is_byte payload ≡ true
    → length payload ≤ max_message_bytes
    → (frame mask opcode payload >>= λ sent. decode (sent ++ rest)) ≡ ok ((opcode, payload), rest)
unfolding frame decode
frame-decode mask opcode payload rest small keys bytes room =
    let whole = length payload in
    let allowed : ltb max_message_bytes whole ≡ false = ground (arith, room) in
    let size = size_bytes whole in
    let keys_of = key_bytes mask in
    let hidden = masked mask 0 payload in
    let assoc =
      append_assoc (size ++ keys_of) hidden rest ∙ append_assoc size keys_of (hidden ++ rest) in
    rw allowed (
      decode-first opcode (size ++ keys_of ++ hidden ++ rest) small
      ∙ ap (decode_rest opcode) assoc
      ∙ decode_rest-frame mask opcode payload rest keys bytes room)
