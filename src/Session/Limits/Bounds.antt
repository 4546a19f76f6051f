-- ===== src/Session/Limits/Bounds.antt =====
-- The limits hold whatever the broker sends.
use Prim.Native.Nat.{min}
use native.Mathlib.Nat.{pow-le-pow_right, one-le-pow}
use butterstack_connector.Prelude.{ℕ, ◌+◌, ◌-◌, ◌*◌, ◌%◌, ◌^◌, ◌≤◌, ◌<◌, ◌≡◌, refl, some, arith}
use butterstack_connector.Prelude.Int.{ℤ, pos, ◌≤ℤ◌, word}
use butterstack_connector.Session.Limits.{
  millisecond, backoff_min, backoff_max, min_heartbeat, max_heartbeat, max_deadline, backoff,
  choose_heartbeat, choose_deadline, choose_max_bytes,
}

backoff_value :
    (draw : ℕ → ℕ) (attempt p : ℕ)
    → 1 ≤ attempt
    → 2 ^ min (attempt - 1) 12 ≡ p
    → 1 ≤ p
    → p ≤ 4096
    → backoff draw attempt ≡ some (draw (min (backoff_min * p) backoff_max) + backoff_min)
unfolding backoff
backoff_value draw attempt p a e lo hi =
    let fits : 500000000 * p % word ≡ 500000000 * p = omega arith in
    rw (e, backoff) (rw fits (ground arith))

pow_bounds : (k : ℕ) → (1 ≤ 2 ^ min k 12) × (2 ^ min k 12 ≤ 4096)
pow_bounds k =
    (one-le-pow (min k 12) 2 (omega arith), pow-le-pow_right (omega arith) {j = 12} (omega arith))

-- With a lawful source of random numbers the backoff is computed from the first attempt on without
-- a panic or an overflow; it is at least the minimum, below the cap plus the minimum, and below
-- the doubled bound of its attempt plus the minimum.
pub backoff_bounds :
    (draw : ℕ → ℕ) (attempt : ℕ)
    → ((n : ℕ) → 0 < n → draw n < n)
    → 1 ≤ attempt
    → (d : ℕ) × (backoff draw attempt ≡ some d)
      × (backoff_min ≤ d)
      × (d < backoff_max + backoff_min)
      × (d < backoff_min * 2 ^ (attempt - 1) + backoff_min)
backoff_bounds draw attempt lawful a =
    let p : ℕ = 2 ^ min (attempt - 1) 12 in
    let (lo, hi) = pow_bounds (attempt - 1) in
    let bound : ℕ = min (backoff_min * p) backoff_max in
    let drawn : draw bound < bound = lawful bound (omega arith) in
    let grows : p ≤ 2 ^ (attempt - 1) =
      pow-le-pow_right (omega arith) {i = min (attempt - 1) 12} (omega arith) in
    (
      draw bound + backoff_min,
      backoff_value draw attempt p a refl lo hi,
      omega arith,
      omega arith,
      omega arith,
    )

-- Whatever interval the broker names, overflows included, the heartbeat lies within its bounds.
pub choose_heartbeat_bounds :
    (interval : ℤ)
    → (min_heartbeat ≤ℤ choose_heartbeat interval) × (choose_heartbeat interval ≤ℤ max_heartbeat)
unfolding choose_heartbeat
choose_heartbeat_bounds interval = ground arith

-- Whatever deadline the broker names, overflows included, the command gets some time and at most
-- the maximum.
pub choose_deadline_bounds :
    (deadline_ms : ℤ)
    → (pos 1 ≤ℤ choose_deadline deadline_ms) × (choose_deadline deadline_ms ≤ℤ max_deadline)
unfolding choose_deadline
choose_deadline_bounds deadline_ms = ground arith

-- A deadline within the maximum is kept as it was asked for.
choose_deadline_exact :
    (n : ℕ) → 1 ≤ n → n ≤ 60000 → choose_deadline (pos n) ≡ pos (millisecond * n)
unfolding choose_deadline
choose_deadline_exact n lo hi = ground arith

-- The budget never exceeds the verb's, and is positive for a verb with a positive budget.
pub choose_max_bytes_bounds :
    (asked : ℤ) (default_max : ℕ)
    → 1 ≤ default_max
    → (pos 1 ≤ℤ choose_max_bytes asked default_max)
      × (choose_max_bytes asked default_max ≤ℤ pos default_max)
unfolding choose_max_bytes
choose_max_bytes_bounds asked default_max h = ground arith
