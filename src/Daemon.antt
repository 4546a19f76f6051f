-- ===== src/Daemon.antt =====
-- cmd/butterstack-connector/main.go: how the process starts. The directory of the log, the user id
-- and the session that `Run` leads are the parameter `World`; the lines of the log are entries.
pub mod Lines
pub mod Startup
use butterstack_connector.Prelude.{
  ℕ, Bool, true, false, List, [], ◌∷◌, ◌++◌, map, Option, none, some, Bytes, codes, if◌then◌else◌,
  ◌==◌, Except, ok, err,
}
use butterstack_connector.Vocab.Resolve.{is_empty}
use butterstack_connector.Protocol.{protocol_version}
use butterstack_connector.Audit.{Entry, event_entry}
use butterstack_connector.Config.{Config, System, ConfigError, load}
use butterstack_connector.Config.Redacted.{redacted}
use butterstack_connector.Vocab.Selfcheck.{Violation, selfcheck}
use butterstack_connector.Session.New.{NewError, Executors, new_session}
use butterstack_connector.Tools.Teamcity.Connection.{Web}

-- `splitLines`: the loop, with the lines so far and the bytes since the last break.
unfoldable pub split_from : List Bytes → Bytes → Bytes → List Bytes
split_from out line [] = if is_empty line then out else out ++ line ∷ []
split_from out line (c ∷ s) =
    let next = split_from (out ++ line ∷ []) [] s in
    let more = split_from out (line ++ c ∷ []) s in if c == b'\n' then next else more

unfoldable pub split_lines : Bytes → List Bytes
unfolding split_from
split_lines s = split_from [] [] s

-- `session` has the lines that `Run` writes, and its error.
pub record World : Type 0 where
  pub system : System
  pub web : Web
  pub make_dir : Bytes → Bool
  pub is_root : Bool
  pub session : Executors → List Entry × Option Bytes

pub data RunError : Type 0 where
  bad_vocabulary : Violation → RunError
  bad_config : ConfigError → RunError
  no_log_dir : RunError
  no_session : NewError → RunError
  session_ended : Bytes → RunError

abbrev root_warning : Bool → List Entry
root_warning true =
    event_entry (codes "warning")
      (codes "running as root; the install doc asks for a dedicated non-root user")
    ∷ []
root_warning false = []

abbrev config_entry : Bytes → Entry
config_entry l = event_entry (codes "config") l

-- The lines in front of the session.
abbrev pub startup_of : Bytes → Bool → Bytes → List Entry
startup_of version is_root text =
    (event_entry (codes "startup")
        (codes "butterstack-connector " ++ version ++ codes " protocol v" ++ protocol_version)
      ∷ map config_entry (split_lines text))
    ++ root_warning is_root

unfoldable pub startup_lines : Bytes → Bool → Config → List Entry
unfolding split_lines redacted
startup_lines version is_root cfg = startup_of version is_root (redacted cfg)

abbrev pub shutdown_line : Entry
shutdown_line =
    event_entry (codes "shutdown") (codes "signal received; socket closed and audit log flushed")

abbrev ended : Option Bytes → Except RunError (Unit {0})
ended none = ok tt
ended (some e) = err (RunError.session_ended e)

-- How `run` ends: the lines in the log, the executors of the session that was led, if one was, and
-- its error.
pub record Ended : Type 0 where
  pub lines : List Entry
  pub led : Option Executors
  pub result : Except RunError (Unit {0})

abbrev pub failed : List Entry → RunError → Ended
failed lines e = record { lines = lines; led = none; result = err e }

-- From `session.New` on, with the lines so far.
unfoldable pub lead_session : World → List Entry → Except NewError Executors → Ended
lead_session w lines (err e) = failed lines (RunError.no_session e)
lead_session w lines (ok x) =
    let (more, error) = w.session x in
    record { lines = lines ++ (more ++ shutdown_line ∷ []); led = some x; result = ended error }

unfoldable pub run_config : World → Bytes → Config → Ended
unfolding startup_lines lead_session new_session
run_config w version cfg =
    if w.make_dir cfg.log_dir
    then lead_session w (startup_lines version w.is_root cfg) (new_session w.web cfg)
    else failed [] RunError.no_log_dir

-- `run`, given what `vocab.Selfcheck` returns (`selfcheck` of Vocab.Selfcheck).
unfoldable pub run_daemon : Except Violation (Unit {0}) → World → Bytes → Bytes → Ended
unfolding run_config load
run_daemon (err v) w version path = failed [] (RunError.bad_vocabulary v)
run_daemon (ok u) w version path = elim (load w.system path) [
  | err e ↦ failed [] (RunError.bad_config e)
  | ok cfg ↦ run_config w version cfg
]
