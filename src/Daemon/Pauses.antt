-- ===== src/Daemon/Pauses.antt =====
-- src/waitd.py, `_deliver`: the pauses behind failed attempts.
use wait_skill.Prelude.{ℕ, ◌+◌, ◌-◌, ◌*◌, ◌≤◌, arith}
use Prim.Native.Nat.{◌^◌, min}
use native.Mathlib.Nat.{one-le-pow, pow-le-pow_right, mul-le-mul_left}
use wait_skill.Daemon.Delivery.{retry_delay}

-- The pause behind an attempt is no shorter than the interval, no longer than 300 seconds, and no
-- longer than the pause behind the next attempt, when the interval is 300 seconds at most.
pub retry_delay-bounds :
    (interval attempt : ℕ)
    → interval ≤ 300
    → (interval ≤ retry_delay interval attempt)
      × ((retry_delay interval attempt ≤ retry_delay interval (attempt + 1))
          × (retry_delay interval attempt ≤ 300))
unfolding retry_delay
retry_delay-bounds interval attempt h =
    let pow = min (attempt - 1) 10 in
    let low : interval * 1 ≤ interval * 2 ^ pow =
      mul-le-mul_left interval (one-le-pow pow 2 (omega arith)) in
    let grows : interval * 2 ^ pow ≤ interval * 2 ^ min (attempt + 1 - 1) 10 =
      mul-le-mul_left interval (pow-le-pow_right (omega arith) (omega arith)) in
    (omega (arith, h, low), (omega (arith, grows), omega arith))
