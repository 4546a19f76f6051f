-- ===== src/Session/Run.antt =====
-- `Run` and `classify` of internal/session/session.go: the loop that reconnects. What a round meets
-- is its input `Attempt`: how `runOnce` ends, what the random source gives, and whether the context
-- is cancelled then or during the wait.
pub mod Pace
use mathlib.Core.Option
use butterstack_connector.Prelude.{
  ℕ, suc, Bool, true, false, List, [], ◌∷◌, Option, none, some, Bytes, codes, if◌then◌else◌,
}
use butterstack_connector.Session.Limits.{backoff}

-- The errors that `classify` tells apart.
pub data SessionError : Type 0 where
  unauthorized closed_by_server query_string : SessionError
  transport : Bytes → SessionError

unfoldable pub classify : Option SessionError → Bytes
classify none = codes "closed"
classify (some SessionError.unauthorized) = codes "unauthorized"
classify (some SessionError.closed_by_server) = codes "closed_by_broker"
classify (some SessionError.query_string) = codes "endpoint_query_string"
classify (some (SessionError.transport s)) = codes "transport_error"

pub record Attempt : Type 0 where
  pub connected : Bool
  pub error : Option SessionError
  pub draw : ℕ → ℕ
  pub cancelled : Bool
  pub stopped : Bool

-- The line `reconnect_scheduled`, with the wait and the count that its message names.
pub record Scheduled : Type 0 where
  pub reason : Bytes
  pub wait : ℕ
  pub attempt : ℕ

abbrev pub next_attempt : Bool → ℕ → ℕ
next_attempt connected n = suc (if connected then 0 else n)

-- The lines that the loop writes, from the count `n` on; `none` is a panic in `backoff`.
unfoldable pub run_loop : ℕ → List Attempt → Option (List Scheduled)
run_loop n [] = some []
run_loop n (a ∷ as') =
    let next = next_attempt a.connected n in
    let rest = run_loop next as' in
    if a.cancelled then some [] else elim (backoff a.draw next) [
      | none ↦ none
      | some d ↦
          let line : Scheduled = record { reason = classify a.error; wait = d; attempt = next } in
          if a.stopped then some (line ∷ []) else Option.map (◌∷◌ line) rest
    ]

-- `Run`.
unfoldable pub run : List Attempt → Option (List Scheduled)
run as' = run_loop 0 as'
