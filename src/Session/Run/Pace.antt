-- ===== src/Session/Run/Pace.antt =====
-- The waits between the attempts of `Run`.
use butterstack_connector.Prelude.{
  ℕ, ◌+◌, ◌-◌, ◌*◌, ◌^◌, ◌<◌, ◌≤◌, ◌≡◌, List, [], ◌∷◌, Option, some, All,
}
use butterstack_connector.Session.Limits.{backoff_min, backoff_max}
use butterstack_connector.Session.Run.{Attempt, Scheduled, classify, next_attempt}

-- The bounds on a wait: those of `backoff`, for the failures in a row that the line counts.
pub record IsPaced (s : Scheduled) : Type 0 where
  pub counted : 1 ≤ s.attempt
  pub least : backoff_min ≤ s.wait
  pub most : s.wait < backoff_max + backoff_min
  pub doubled : s.wait < backoff_min * 2 ^ (s.attempt - 1) + backoff_min

-- The random source gives numbers below the bound asked for.
abbrev pub IsLawful : Attempt → Type 0
IsLawful a = (n : ℕ) → 0 < n → a.draw n < n

-- The counts of failures in a row: a session that came up starts the count anew.
abbrev pub Counts : ℕ → List Attempt → List Scheduled → Type 0
Counts n as' [] = Unit
Counts n [] (s ∷ ss) = ⊥
Counts n (a ∷ as') (s ∷ ss) = (s.attempt ≡ next_attempt a.connected n) × Counts s.attempt as' ss

abbrev Goes : ℕ → List Attempt → Option (List Scheduled) → Type 0
Goes n as' o = (ss : List Scheduled) × (o ≡ some ss) × All IsPaced ss × Counts n as' ss

abbrev line_of : ℕ → ℕ → Attempt → Scheduled
line_of next d a = record { reason = classify a.error; wait = d; attempt = next }
