-- ===== src/Tests/Connect.antt =====
-- The properties of the handshake at concrete inputs.
use butterstack_connector.Prelude.{◌≡◌, ◌⊎◌, refl, true, [], some, none, codes, ok}
use butterstack_connector.Prelude.Int.{pos}
use butterstack_connector.Json.{
  Json, is_field, decode_string, decode_int, num, str, obj, end, field,
}
use butterstack_connector.Protocol.{unmarshal, store_welcome, store_envelope, decode_envelope}
use butterstack_connector.Session.Run.{SessionError}
use butterstack_connector.Session.Limits.{choose_heartbeat}
use butterstack_connector.Session.Connect.{
  Printer, Meeting, hello_of, accept, on_kind, on_message, greet, run_once,
}
use butterstack_connector.Session.Connect.Handshake.{IsConnected, IsFailed, run_once-IsFailed}
use butterstack_connector.Tests.Config.{loaded}
use butterstack_connector.Tests.Session.{fresh_runner}

abbrev printer : Printer
printer = record { duration = λ d. []; error = λ e. [] }

abbrev welcome_frame : Json
welcome_frame = obj (
    field (codes "type") (str (codes "welcome")) (
      field (codes "session_id") (str (codes "s7"))
        (field (codes "heartbeat_interval") (num (codes "30")) end)))

abbrev welcoming : Meeting
welcoming = record {
  dialed = ok tt;
  wrote = ok tt;
  read = ok (some welcome_frame);
  pumped = some SessionError.closed_by_server;
}

run_once_run :
    ((run_once printer loaded (codes "1") none fresh_runner welcoming).connected ≡ true)
    × ((run_once printer loaded (codes "1") none fresh_runner welcoming).runner.session_id
        ≡ codes "s7")
    × ((run_once printer loaded (codes "1") none fresh_runner welcoming).heartbeat
        ≡ some (pos 30000000000))
unfolding run_once greet on_message on_kind accept choose_heartbeat decode_envelope store_envelope
    unmarshal store_welcome is_field decode_string decode_int codes
run_once_run = (refl, refl, refl)

run_once-IsFailed_example :
    IsConnected printer fresh_runner welcoming
      (hello_of loaded (codes "1") none)
      (run_once printer loaded (codes "1") none fresh_runner welcoming)
    ⊎ IsFailed fresh_runner welcoming
        (run_once printer loaded (codes "1") none fresh_runner welcoming)
run_once-IsFailed_example = run_once-IsFailed printer loaded (codes "1") none fresh_runner welcoming
