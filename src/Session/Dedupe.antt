-- ===== src/Session/Dedupe.antt =====
-- `claim` of internal/session/session.go: the sliding window of command ids. The map `seen` is an
-- association list with one entry for each id. A time is a count of nanoseconds; `now.Sub(t)`
-- where `t` is later is negative in Go and 0 here, and both lie within the window.
pub mod History
pub mod Replay
use butterstack_connector.Prelude.{
  ℕ, ◌-◌, Bool, true, false, List, [], ◌∷◌, Option, none, some, Bytes, if◌then◌else◌, ltb, leb,
  length, bytes_eq,
}
use butterstack_connector.Session.Limits.{dedupe_window, dedupe_max_keys}

abbrev pub Seen : Type 0
Seen = List (Bytes × ℕ)

-- `r.seen[id]`.
unfoldable pub seen_at : Seen → Bytes → Option ℕ
unfolding bytes_eq
seen_at [] id = none
seen_at ((j, t) ∷ m) id = if bytes_eq j id then some t else seen_at m id

-- `r.seen[id] = now`.
unfoldable pub mark_seen : Bytes → ℕ → Seen → Seen
unfolding bytes_eq
mark_seen id now [] = (id, now) ∷ []
mark_seen id now ((j, t) ∷ m) = if bytes_eq j id then (id, now) ∷ m else (j, t) ∷ mark_seen id now m

-- The loop that deletes what the window has left behind.
unfoldable pub purge : ℕ → Seen → Seen
purge now [] = []
purge now ((j, t) ∷ m) = if ltb dedupe_window (now - t) then purge now m else (j, t) ∷ purge now m

abbrev pub trim_seen : ℕ → Seen → Seen
trim_seen now m = if ltb dedupe_max_keys (length m) then purge now m else m

-- The answer says whether the id may be executed.
unfoldable pub claim : ℕ → Bytes → Seen → Bool × Seen
unfolding seen_at mark_seen purge
claim now id seen =
    let m = trim_seen now seen in
    elim (seen_at m id) [
      | none ↦ (true, mark_seen id now m)
      | some t ↦ if leb (now - t) dedupe_window then (false, m) else (true, mark_seen id now m)
    ]

-- Claims one after another, with their answers.
unfoldable pub claims : List (ℕ × Bytes) → Seen → List Bool
claims [] seen = []
claims ((now, id) ∷ cs) seen = let (fresh, seen') = claim now id seen in fresh ∷ claims cs seen'
