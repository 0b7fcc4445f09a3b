-- ===== src/Codex/Fuel.antt =====
-- The loop of `receive` in src/codex.py ends.
use wait_skill.Prelude.{
  ℕ, zero, suc, ◌+◌, ◌<◌, ◌≤◌, Bool, true, false, ◌&&◌, ◌≡◌, ◌≢◌, ◌∙◌, sym, ap, none, List, [], ◌∷◌,
  ◌++◌, length, ltb, nat_eq, Result, ok, err, ◌>>=◌, raise_if, raise_unless, arith, inl, inr,
  Bool-cases, Result-cases, >>=-eq-ok,
}
use Prim.Native.Nat.{bit_and}
use wait_skill.Codex.Rpc.{Raised, os_error}
use wait_skill.Codex.Bytes.{take_bytes, unpack}
use wait_skill.Codex.Frames.{
  Head, read_chunk, with_chunk, read_size, size_of, read_frame, max_message_bytes, Meaning, refused,
  ping, nothing, part, end, meaning, Received, act_on, receive_next, receive_from, receive,
}

take_bytes-shrinks :
    (n : ℕ) (s : List ℕ) (taken : List ℕ × List ℕ)
    → take_bytes n s ≡ ok taken
    → length taken.1 ≤ length s
unfolding take_bytes
take_bytes-shrinks zero s taken h =
    let same : ([], s) ≡ taken = cc h in omega (arith, ap (λ x. length x.1) same)
take_bytes-shrinks (suc n) [] taken h = absurd (cc h)
take_bytes-shrinks (suc n) (b ∷ s) taken h =
    let found = >>=-eq-ok (take_bytes n s) (λ t. ok (b ∷ t.0, t.1)) h in
    let same : (b ∷ found.0.0, found.0.1) ≡ taken = cc (found.2) in
    omega (arith, ap (λ x. length x.1) same, take_bytes-shrinks n s found.0 found.1)

size_of-shrinks :
    (n : ℕ) (s : List ℕ) (sized : ℕ × List ℕ)
    → size_of (take_bytes n s) ≡ ok sized
    → length sized.1 ≤ length s
size_of-shrinks n s sized h =
    let found = >>=-eq-ok (take_bytes n s) (λ t. ok (unpack t.0, t.1)) h in
    let same : (unpack found.0.0, found.0.1) ≡ sized = cc (found.2) in
    omega (arith, ap (λ x. length x.1) same, take_bytes-shrinks n s found.0 found.1)

read_size-shrinks :
    (size : ℕ) (s : List ℕ) (sized : ℕ × List ℕ)
    → read_size size s ≡ ok sized
    → length sized.1 ≤ length s
read_size-shrinks size s sized h = elim (Bool-cases (nat_eq size 126)) [
  | inl two ↦ size_of-shrinks 2 s sized (rw two at h)
  | inr other ↦ elim (Bool-cases (nat_eq size 127)) [
    | inl eight ↦ size_of-shrinks 8 s sized (rw (other, eight) at h)
    | inr plain ↦
        let found : ok (size, s) ≡ ok sized = rw (other, plain) at h in
        let same : (size, s) ≡ sized = cc found in omega (arith, ap (λ x. length x.1) same)
  ]
]

abbrev left_over : Result Raised ((Head × List ℕ) × List ℕ) → ℕ
left_over (ok got) = length got.1
left_over (err e) = 0

read_frame-shrinks :
    (held : ℕ) (s : List ℕ) (got : (Head × List ℕ) × List ℕ)
    → read_frame held s ≡ ok got
    → length got.1 < length s
unfolding read_frame
read_frame-shrinks held [] got h = absurd (cc h)
read_frame-shrinks held (first ∷ []) got h = absurd (cc h)
read_frame-shrinks held (first ∷ second ∷ s) got h =
    let flags =
      >>=-eq-ok
        (raise_unless (nat_eq (bit_and first 112) 0 && nat_eq (bit_and second 128) 0) os_error)
        (λ _. read_size (bit_and second 127) s >>= read_chunk held first) h in
    let sized = >>=-eq-ok (read_size (bit_and second 127) s) (read_chunk held first) flags.2 in
    let size = sized.0.0 in
    let tail = sized.0.1 in
    let room =
      >>=-eq-ok (raise_if (ltb max_message_bytes (held + size)) os_error)
        (λ _. take_bytes size tail >>= with_chunk first size) sized.2 in
    let taken = >>=-eq-ok (take_bytes size tail) (with_chunk first size) room.2 in
    let left = ap left_over taken.2 in
    omega (
      arith,
      left,
      read_size-shrinks (bit_and second 127) s sized.0 sized.1,
      take_bytes-shrinks size tail taken.0 taken.1,
    )

act_on-ends :
    (m : Meaning) (payload chunk rest : List ℕ) (fragmented : Bool)
    (again : List ℕ → Bool → List ℕ → Received)
    → ((p : List ℕ) (f : Bool) → (again p f rest).outcome ≢ none)
    → (act_on m payload chunk rest fragmented again).outcome ≢ none
unfolding act_on
act_on-ends (refused e) payload chunk rest fragmented again h k = cc k
act_on-ends ping payload chunk rest fragmented again h k = h payload fragmented k
act_on-ends nothing payload chunk rest fragmented again h k = h payload fragmented k
act_on-ends part payload chunk rest fragmented again h k = h (payload ++ chunk) true k
act_on-ends end payload chunk rest fragmented again h k = cc k

receive_from-ends :
    (n : ℕ) (payload : List ℕ) (fragmented : Bool) (s : List ℕ)
    → length s < n
    → (receive_from n payload fragmented s).outcome ≢ none
unfolding receive_from receive_next
receive_from-ends zero payload fragmented s fuel k = absurd (omega (arith, fuel))
receive_from-ends (suc n) payload fragmented s fuel k =
    elim (Result-cases (read_frame (length payload) s)) [
      | inl (((head, chunk), rest), got) ↦
          let shrinks = read_frame-shrinks (length payload) s ((head, chunk), rest) got in
          act_on-ends (meaning fragmented head) payload chunk rest fragmented (receive_from n)
            (λ p f. receive_from-ends n p f rest (omega (arith, fuel, shrinks)))
            (ap (λ r. (receive_next r payload fragmented (receive_from n)).outcome) (sym got) ∙ k)
      | inr (e, failed) ↦
          cc (
            ap (λ r. (receive_next r payload fragmented (receive_from n)).outcome) (sym failed) ∙ k)
    ]

-- On any stream, `receive` ends within its fuel, with a message or an error.
pub receive-ends : (s : List ℕ) → (receive s).outcome ≢ none
unfolding receive
receive-ends s = receive_from-ends (length s + 1) [] false s (omega arith)
