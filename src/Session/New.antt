-- ===== src/Session/New.antt =====
-- `New` of internal/session/session.go: the executors, made once from the configuration, and the host
-- of the command path with them.
pub mod Configured
use mathlib.Core.Option
use butterstack_connector.Prelude.{
  Bool, true, false, Option, none, some, Bytes, codes, if◌then◌else◌, bytes_eq, Except, ok, err,
  ◌>>=◌, ◌>>◌,
}
use butterstack_connector.Json.{RawMessage}
use butterstack_connector.Config.{Config, configured_tools}
use butterstack_connector.Vocab.Selfcheck.{Violation, selfcheck}
use butterstack_connector.Session.Handle.{ToolCall, Executed, Host}
use butterstack_connector.Tools.Perforce.{PerforceConfig}
use butterstack_connector.Tools.Perforce.Failures.{Machine}
use butterstack_connector.Tools.Perforce.Running.{Start, P4Body, new_perforce, execute_perforce}
use butterstack_connector.Tools.Teamcity.Connection.{
  Web, Send, Teamcity, TeamcityError, new_teamcity,
}
use butterstack_connector.Tools.Teamcity.{TeamcityBody, execute_teamcity}

pub data NewError : Type 0 where
  vocabulary : Violation → NewError
  teamcity : TeamcityError → NewError
  perforce_not_configured : NewError

-- `execs`, by its two keys.
pub record Executors : Type 0 where
  pub teamcity : Option Teamcity
  pub perforce : Option PerforceConfig

abbrev teamcity_result : Except TeamcityError Teamcity → Except NewError (Option Teamcity)
teamcity_result (err e) = err (NewError.teamcity e)
teamcity_result (ok t) = ok (some t)

abbrev perforce_result : Option PerforceConfig → Except NewError (Option PerforceConfig)
perforce_result none = err NewError.perforce_not_configured
perforce_result (some p) = ok (some p)

abbrev checked : Except Violation (Unit {0}) → Except NewError (Unit {0})
checked (err v) = err (NewError.vocabulary v)
checked (ok u) = ok u

unfoldable pub make_teamcity : Web → Config → Except NewError (Option Teamcity)
unfolding new_teamcity
make_teamcity web cfg =
    if cfg.teamcity.enabled then teamcity_result (new_teamcity web cfg.teamcity) else ok none

unfoldable pub make_perforce : Config → Except NewError (Option PerforceConfig)
unfolding new_perforce
make_perforce cfg =
    if cfg.perforce.enabled then perforce_result (new_perforce cfg.perforce) else ok none

unfoldable pub new_executors : Web → Config → Except NewError Executors
unfolding make_teamcity make_perforce
new_executors web cfg = make_teamcity web cfg >>= λ tc.
    make_perforce cfg >>= λ p4. ok (record { teamcity = tc; perforce = p4 })

-- `New`.
unfoldable pub new_session : Web → Config → Except NewError Executors
unfolding selfcheck new_executors
new_session web cfg = checked selfcheck >> new_executors web cfg

-- What the executors return.
pub data ToolBody : Type 0 where
  teamcity : TeamcityBody → ToolBody
  perforce : P4Body → ToolBody

abbrev wrap : {A : Type 0} → (A → ToolBody) → Executed A → Executed ToolBody
wrap f x = record { body = f x.body; bytes = x.bytes; truncated = x.truncated; error = x.error }

module _ {F : Type 0} (machine : Machine F) (start : Start) (web : Web) (send : Send) where
  abbrev run_teamcity : Teamcity → ToolCall → Executed ToolBody
  run_teamcity t call = wrap ToolBody.teamcity (execute_teamcity web send t call).0

  abbrev run_perforce : PerforceConfig → ToolCall → Executed ToolBody
  run_perforce cfg call = wrap ToolBody.perforce (execute_perforce machine start cfg call).0

  -- `r.execs[verb.Tool]`.
  unfoldable pub executor : Executors → Bytes → Option (ToolCall → Executed ToolBody)
  executor x tool =
      if bytes_eq tool (codes "teamcity")
      then Option.map run_teamcity x.teamcity
      else if bytes_eq tool (codes "perforce")
      then Option.map run_perforce x.perforce
      else none

  abbrev pub host_of : Config → Bytes → (RawMessage → Bytes) → Executors → Host ToolBody
  host_of cfg version args_digest x = record {
    version = version;
    scopes = cfg.scopes;
    tools = configured_tools cfg;
    execs = executor x;
    args_digest = args_digest;
  }
