-- ===== src/Session/Limits.antt =====
-- The constants of internal/session/session.go and what is computed from them: the backoff, the
-- heartbeat, the deadline and the size budget. Durations are nanoseconds, as in Go.
pub mod Bounds
use Prim.Native.Nat.{min}
use butterstack_connector.Prelude.{
  ℕ, ◌+◌, ◌-◌, ◌*◌, ◌%◌, ◌^◌, Bool, ◌&&◌, ◌||◌, Option, none, some, if◌then◌else◌, ltb, leb,
}
use butterstack_connector.Prelude.Int.{ℤ, pos, ltb_ℤ, leb_ℤ, pos_part, wrap64, scale}

abbrev pub millisecond : ℕ
millisecond = 1000000

abbrev pub second : ℕ
second = 1000000000

abbrev pub backoff_min : ℕ
backoff_min = 500000000

abbrev pub backoff_max : ℕ
backoff_max = 60000000000

abbrev pub default_heartbeat : ℤ
default_heartbeat = pos 25000000000

abbrev pub min_heartbeat : ℤ
min_heartbeat = pos 5000000000

abbrev pub max_heartbeat : ℤ
max_heartbeat = pos 120000000000

abbrev pub read_slack : ℕ
read_slack = 2

abbrev pub dedupe_window : ℕ
dedupe_window = 600000000000

abbrev pub dedupe_max_keys : ℕ
dedupe_max_keys = 4096

abbrev pub max_deadline : ℤ
max_deadline = pos 60000000000

abbrev pub default_deadline : ℤ
default_deadline = pos 15000000000

-- `backoff`. `draw n` is what `rand.Int63n(n)` returns. `none` is a panic: of the shift, by a
-- negative count, at attempt 0, or of `Int63n`, at a bound that is not positive.
unfoldable pub backoff : (ℕ → ℕ) → ℕ → Option ℕ
backoff draw attempt =
    let shifted : ℤ = wrap64 (pos (backoff_min * 2 ^ min (attempt - 1) 12)) in
    let d : ℤ = if ltb_ℤ (pos backoff_max) shifted then pos backoff_max else shifted in
    if ltb attempt 1 || leb_ℤ d (pos 0) then none else some (draw (pos_part d) + backoff_min)

-- The heartbeat of `runOnce`, from the interval that the broker names, in seconds.
unfoldable pub choose_heartbeat : ℤ → ℤ
choose_heartbeat interval =
    let hb : ℤ = wrap64 (scale second interval) in
    if ltb_ℤ (pos 0) interval && (leb_ℤ min_heartbeat hb && leb_ℤ hb max_heartbeat)
    then hb
    else default_heartbeat

-- The deadline of `handle`, from the command's milliseconds; the product wraps around.
unfoldable pub choose_deadline : ℤ → ℤ
choose_deadline deadline_ms =
    let asked : ℤ = wrap64 (scale millisecond deadline_ms) in
    let deadline : ℤ = if leb_ℤ asked (pos 0) then default_deadline else asked in
    if ltb_ℤ max_deadline deadline then max_deadline else deadline

-- The size budget of `handle`.
unfoldable pub choose_max_bytes : ℤ → ℕ → ℤ
choose_max_bytes asked default_max =
    if leb_ℤ asked (pos 0) || ltb_ℤ (pos default_max) asked then pos default_max else asked
