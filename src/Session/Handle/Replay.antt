-- ===== src/Session/Handle/Replay.antt =====
-- Replayed commands, over any run of `handle`.
use butterstack_connector.Prelude.{
  ℕ, ◌+◌, ◌≤◌, ◌≡◌, inl, inr, refl, ap, ◌∙◌, Bool, true, false, List, [], ◌∷◌, Option, none, some,
  Bytes, if◌then◌else◌, arith, All, Bool-cases, ok, err,
}
use butterstack_connector.Protocol.{Command, deny}
use butterstack_connector.Vocab.Schema.{Verb, Args, Checked, reason_token, duplicate_command_id}
use butterstack_connector.Vocab.Resolve.{resolve, is_empty}
use butterstack_connector.Session.Limits.{dedupe_window}
use butterstack_connector.Session.Dedupe.{claim}
use butterstack_connector.Session.Dedupe.Replay.{after_claims, claim_replay}
use butterstack_connector.Session.Handle.{
  Executed, Body, Host, Runner, finish, conclude, perform, decide, handle,
}

-- A command with its arrival time and whether its deadline passed.
pub record Arrival : Type 0 where
  pub now : ℕ
  pub overdue : Bool
  pub command : Command

module _ {T : Type 0} (h : Host T) where
  unfoldable pub run_handles : List Arrival → Runner → Runner
  run_handles [] r = r
  run_handles (a ∷ as') r = run_handles as' (handle h r a.now a.overdue a.command).0

  conclude_seen :
      (r : Runner) (cmd : Command) (overdue : Bool) (x : Executed (Body T))
      → (conclude h r cmd overdue x).0.seen ≡ r.seen
  unfolding conclude finish
  conclude_seen r cmd overdue x = ground arith

  pub decide_seen :
      (r : Runner) (cmd : Command) (overdue : Bool) (a : Option Verb × Checked Args)
      → (decide h r cmd overdue a).0.seen ≡ r.seen
  unfolding decide perform finish
  decide_seen r cmd overdue (v, err e) = refl
  decide_seen r cmd overdue (some v, ok args) = conclude_seen _ cmd overdue _
  decide_seen r cmd overdue (none, ok args) = refl

  -- The claims that arrivals make.
  claims_of : List Arrival → List (ℕ × Bytes)
  claims_of [] = []
  claims_of (a ∷ as') =
      if is_empty a.command.id then claims_of as' else (a.now, a.command.id) ∷ claims_of as'

  handle_seen :
      (r : Runner) (a : Arrival)
      → (handle h r a.now a.overdue a.command).0.seen
        ≡ (if is_empty a.command.id then r.seen else (claim a.now a.command.id r.seen).1)
  unfolding handle
  handle_seen r a = elim (Bool-cases (is_empty a.command.id)) [
    | inl e ↦ rw (e, handle) (unfold finish in refl)
    | inr n ↦
        rw (n, handle)
          (elim (Bool-cases (claim a.now a.command.id r.seen).0) [
            | inl f ↦ rw f (
                decide_seen (record r { seen = (claim a.now a.command.id r.seen).1 }) a.command
                  a.overdue (resolve a.command.verb a.command.args h.scopes h.tools))
            | inr f ↦ rw f (unfold finish in refl)
          ])
  ]

  run_handles_seen :
      (as' : List Arrival) (r : Runner)
      → (run_handles as' r).seen ≡ after_claims (claims_of as') r.seen
  unfolding run_handles claims_of after_claims
  run_handles_seen [] r = refl
  run_handles_seen (a ∷ as') r = elim (Bool-cases (is_empty a.command.id)) [
    | inl e ↦ rw e (
        run_handles_seen as' (handle h r a.now a.overdue a.command).0
        ∙ ap (after_claims (claims_of as')) (handle_seen r a ∙ rw e))
    | inr n ↦ rw n (
        run_handles_seen as' (handle h r a.now a.overdue a.command).0
        ∙ ap (after_claims (claims_of as')) (handle_seen r a ∙ rw n))
  ]

  claims_of-All :
      (as' : List Arrival) (last : ℕ)
      → All (λ a. a.now ≤ last) as'
      → All (λ c. c.0 ≤ last) (claims_of as')
  unfolding claims_of
  claims_of-All [] last w = tt
  claims_of-All (a ∷ as') last w = elim (Bool-cases (is_empty a.command.id)) [
    | inl e ↦ rw e (claims_of-All as' last w.1)
    | inr n ↦ rw n (w.0, claims_of-All as' last w.1)
  ]

  duplicate :
      (r : Runner) (now : ℕ) (overdue : Bool) (cmd : Command)
      → is_empty cmd.id ≡ false
      → (claim now cmd.id r.seen).0 ≡ false
      → ((handle h r now overdue cmd).1 ≡ deny cmd.id (reason_token duplicate_command_id))
        × ((handle h r now overdue cmd).0.calls ≡ r.calls)
  unfolding handle finish
  duplicate r now overdue cmd n f = rw (n, handle) (rw f (refl, refl))

  -- After a command has been let through, every command with its id that arrives within the window
  -- is answered with a duplicate denial and touches no tool, whatever else arrived in between.
  pub handle_replay :
      (r : Runner) (first again : Arrival) (between : List Arrival)
      → is_empty first.command.id ≡ false
      → (claim first.now first.command.id r.seen).0 ≡ true
      → All (λ a. a.now ≤ first.now + dedupe_window) between
      → again.now ≤ first.now + dedupe_window
      → again.command.id ≡ first.command.id
      → let r' = run_handles between (handle h r first.now first.overdue first.command).0 in
        ((handle h r' again.now again.overdue again.command).1
          ≡ deny first.command.id (reason_token duplicate_command_id))
        × ((handle h r' again.now again.overdue again.command).0.calls ≡ r'.calls)
  handle_replay r first again between n fresh w le same =
      let r' : Runner = run_handles between (handle h r first.now first.overdue first.command).0 in
      let known : r'.seen
          ≡ after_claims (claims_of between) (claim first.now first.command.id r.seen).1 =
        run_handles_seen between _
        ∙ ap (after_claims (claims_of between)) (handle_seen r first ∙ rw n) in
      let refused : (claim again.now first.command.id r'.seen).0 ≡ false =
        ap (λ m. (claim again.now first.command.id m).0) known
        ∙ claim_replay first.now again.now first.command.id r.seen (claims_of between) fresh
            (claims_of-All between (first.now + dedupe_window) w) le in
      let (answer, calls) =
        duplicate r' again.now again.overdue again.command (ap is_empty same ∙ n)
          (ap (λ i. (claim again.now i r'.seen).0) same ∙ refused) in
      (answer ∙ ap (λ i. deny i (reason_token duplicate_command_id)) same, calls)
