-- ===== src/Codex/Bytes.antt =====
-- Bytes as natural numbers below 256, and numbers in network order, as `struct` packs them.
use wait_skill.Prelude.{
  ℕ, zero, suc, ◌+◌, ◌*◌, ◌<◌, Bool, true, ◌&&◌, ◌≡◌, refl, ap, ◌∙◌, List, [], ◌∷◌, ◌++◌, length,
  length-append, ltb, nat_eq, arith, Result, ok, err, ◌>>=◌,
}
use Prim.Native.Nat.{◌/◌, ◌%◌, ◌^◌, bit_xor, bit_or, bit_and}
use native.Mathlib.Omega.{pow_step}
use wait_skill.Codex.Rpc.{Raised, os_error}

abbrev pub is_byte : ℕ → Bool
is_byte b = ltb b 256

-- `struct.pack`, for an unsigned number of `count` bytes in network order.
unfoldable pub pack : (count value : ℕ) → List ℕ
pack zero value = []
pack (suc n) value = pack n (value / 256) ++ (value % 256 ∷ [])

abbrev unpack_from : (high : ℕ) → List ℕ → ℕ
unpack_from high [] = high
unpack_from high (b ∷ bytes) = unpack_from (high * 256 + b) bytes

-- `struct.unpack`
unfoldable pub unpack : List ℕ → ℕ
unpack bytes = unpack_from 0 bytes

unpack_from-append :
    (high b : ℕ) (bytes : List ℕ)
    → unpack_from high (bytes ++ b ∷ []) ≡ unpack_from high bytes * 256 + b
unpack_from-append high b [] = refl
unpack_from-append high b (x ∷ bytes) = unpack_from-append (high * 256 + x) b bytes

pub unpack-pack : (n value : ℕ) → value < 256 ^ n → unpack (pack n value) ≡ value
unfolding pack unpack
unpack-pack zero value h = omega (arith, h)
unpack-pack (suc n) value h =
    unpack_from-append 0 (value % 256) (pack n (value / 256))
    ∙ omega (arith, unpack-pack n (value / 256) (omega (arith, h, pow_step 256 n)))

pub length-pack : (n value : ℕ) → length (pack n value) ≡ n
unfolding pack
length-pack zero value = refl
length-pack (suc n) value =
    omega
      (arith, length-append (pack n (value / 256)) (value % 256 ∷ []), length-pack n (value / 256))

-- `take`: so many bytes off a stream, or the connection ends before.
unfoldable pub take_bytes : ℕ → List ℕ → Result Raised (List ℕ × List ℕ)
take_bytes zero s = ok ([], s)
take_bytes (suc n) [] = err os_error
take_bytes (suc n) (b ∷ s) = take_bytes n s >>= λ taken. ok (b ∷ taken.0, taken.1)

pub take_bytes-append :
    (n : ℕ) (xs rest : List ℕ) → length xs ≡ n → take_bytes n (xs ++ rest) ≡ ok (xs, rest)
unfolding take_bytes
take_bytes-append zero [] rest h = refl
take_bytes-append zero (x ∷ xs) rest h = absurd (omega (arith, h))
take_bytes-append (suc n) [] rest h = absurd (omega (arith, h))
take_bytes-append (suc n) (x ∷ xs) rest h =
    ap (λ r. r >>= λ taken. ok (x ∷ taken.0, taken.1))
      (take_bytes-append n xs rest (omega (arith, h)))

-- What is true of every number below a bound.
abbrev all_below : ℕ → (ℕ → Bool) → Bool
all_below zero p = true
all_below (suc n) p = p n && all_below n p

below : (n : ℕ) (p : ℕ → Bool) (x : ℕ) → all_below n p ≡ true → x < n → p x ≡ true
below zero p x h lt = absurd (omega (arith, lt))
below (suc n) p x h lt = ground (arith, below n p x)

same_number : (a b : ℕ) → nat_eq a b ≡ true → a ≡ b
same_number a b h = ground (arith, h)

same_below :
    (n : ℕ) (f g : ℕ → ℕ) (x : ℕ) → all_below n (λ y. nat_eq (f y) (g y)) ≡ true → x < n → f x ≡ g x
same_below n f g x h lt = same_number (f x) (g x) (below n (λ y. nat_eq (f y) (g y)) x h lt)

xor_table : all_below 256 (λ k. all_below 256 (λ b. nat_eq (bit_xor (bit_xor b k) k) b)) ≡ true
xor_table = refl

-- A byte that is masked twice is as it was.
pub xor_twice : (b k : ℕ) → b < 256 → k < 256 → bit_xor (bit_xor b k) k ≡ b
xor_twice b k hb hk =
    same_below 256 (λ b. bit_xor (bit_xor b k) k) (λ b. b) b
      (below 256 (λ k. all_below 256 (λ b. nat_eq (bit_xor (bit_xor b k) k) b)) k xor_table hk) hb

pub flag-bit_or : (x : ℕ) → x < 128 → bit_or 128 x ≡ 128 + x
flag-bit_or x h = same_below 128 (λ x. bit_or 128 x) (λ x. 128 + x) x refl h

pub low-bit_and : (x : ℕ) → x < 128 → bit_and x 127 ≡ x
low-bit_and x h = same_below 128 (λ x. bit_and x 127) (λ x. x) x refl h

pub flag-bit_and : (x : ℕ) → x < 128 → bit_and x 128 ≡ 0
flag-bit_and x h = same_below 128 (λ x. bit_and x 128) (λ x. 0) x refl h
