-- ===== src/Session/Connect.antt =====
-- `runOnce` of internal/session/session.go: the handshake with the broker in front of the pump. What
-- the connection gives is the input `Meeting`: how `Dial` ends, whether the hello is written, the
-- message that is read (`none` is text that is no JSON), and how the pump ends. The texts of errors
-- and of durations are the parameter `Printer`.
pub mod Handshake
use butterstack_connector.Prelude.{
  Bool, true, false, List, [], ◌∷◌, ◌++◌, Option, none, some, Bytes, codes, if◌then◌else◌, bytes_eq,
  Except, ok, err, ◌>>=◌,
}
use butterstack_connector.Prelude.Int.{ℤ}
use butterstack_connector.Json.{Json, RawMessage}
use butterstack_connector.Protocol.{
  Hello, Welcome, Reject, EnvelopeError, unmarshal, zero_welcome, store_welcome, zero_reject,
  store_reject, decode_envelope, new_hello,
}
use butterstack_connector.Audit.{Entry, zero_entry}
use butterstack_connector.Vocab.Resolve.{compiled_verbs, is_empty}
use butterstack_connector.Config.{Config, integration_id}
use butterstack_connector.Session.Limits.{choose_heartbeat}
use butterstack_connector.Session.Handle.{Runner}
use butterstack_connector.Session.Run.{SessionError}

-- The errors of `runOnce`: of the connection, of the frame that is read, and its own.
pub data ConnectError : Type 0 where
  connection : SessionError → ConnectError
  envelope : EnvelopeError → ConnectError
  malformed_welcome : ConnectError
  rejected : Bytes → ConnectError
  unexpected : Bytes → ConnectError

pub record Printer : Type 0 where
  pub duration : ℤ → Bytes
  pub error : ConnectError → Bytes

pub record Meeting : Type 0 where
  pub dialed : Except SessionError (Unit {0})
  pub wrote : Except SessionError (Unit {0})
  pub read : Except SessionError RawMessage
  pub pumped : Option SessionError

-- What `runOnce` leaves: the runner, the hello if it was sent, the heartbeat with which the pump is
-- started if it is, and its two results.
pub record Outcome : Type 0 where
  pub runner : Runner
  pub sent : List Hello
  pub heartbeat : Option ℤ
  pub connected : Bool
  pub error : Option ConnectError

-- `toolVersions`; `version` is what the TeamCity executor says of itself, if there is one.
unfoldable pub tool_versions : Option Bytes → List (Bytes × Bytes)
tool_versions none = []
tool_versions (some v) = if is_empty v then [] else (codes "teamcity", v) ∷ []

unfoldable pub hello_of : Config → Bytes → Option Bytes → Hello
unfolding new_hello integration_id tool_versions
hello_of cfg version teamcity =
    new_hello cfg.connector_id (integration_id cfg.token) version compiled_verbs
      (tool_versions teamcity)

abbrev pub connected_entry : Printer → Bytes → ℤ → Entry
connected_entry pr session_id heartbeat = record zero_entry {
  event = codes "connected";
  session_id = session_id;
  message = codes "broker accepted; heartbeat " ++ pr.duration heartbeat;
}

abbrev pub rejected_entry : Bytes → Entry
rejected_entry reason = record zero_entry { event = codes "rejected"; reason = reason }

abbrev pub failed : Runner → List Hello → ConnectError → Outcome
failed r sent e = record {
  runner = r;
  sent = sent;
  heartbeat = none;
  connected = false;
  error = some e;
}

abbrev map_error : Option SessionError → Option ConnectError
map_error none = none
map_error (some e) = some (ConnectError.connection e)

-- The case `protocol.TypeWelcome`, and the pump behind it.
unfoldable pub accept : Printer → Runner → Meeting → List Hello → Welcome × Bool → Outcome
unfolding choose_heartbeat
accept pr r m sent (w, true) = failed r sent ConnectError.malformed_welcome
accept pr r m sent (w, false) =
    let heartbeat : ℤ = choose_heartbeat w.heartbeat_interval in
    record {
      runner = record r {
        session_id = w.session_id;
        log = r.log ++ connected_entry pr w.session_id heartbeat ∷ [];
      };
      sent = sent;
      heartbeat = some heartbeat;
      connected = true;
      error = map_error m.pumped;
    }

-- The case `protocol.TypeReject`: an error in the frame is ignored, and what was decoded is used.
unfoldable pub refuse : Runner → List Hello → Reject × Bool → Outcome
refuse r sent (rj, bad) =
    failed (record r { log = r.log ++ rejected_entry rj.reason ∷ [] }) sent
      (ConnectError.rejected rj.reason)

unfoldable pub on_kind : Printer → Runner → Meeting → List Hello → Json → Bytes → Outcome
unfolding accept refuse unmarshal
on_kind pr r m sent j kind =
    if bytes_eq kind (codes "welcome")
    then accept pr r m sent (unmarshal store_welcome zero_welcome j)
    else if bytes_eq kind (codes "reject")
    then refuse r sent (unmarshal store_reject zero_reject j)
    else failed r sent (ConnectError.unexpected kind)

-- `DecodeEnvelope` fails on a text that is no JSON, so the second case does not arise.
unfoldable pub on_message : Printer → Runner → Meeting → List Hello → RawMessage → Outcome
unfolding on_kind decode_envelope
on_message pr r m sent raw = elim (decode_envelope raw) [
  | err e ↦ failed r sent (ConnectError.envelope e)
  | ok kind ↦ elim raw [
    | none ↦ failed r sent (ConnectError.envelope EnvelopeError.malformed)
    | some j ↦ on_kind pr r m sent j kind
  ]
]

-- The three early returns in front of it.
unfoldable pub greet :
    Printer
    → Runner
    → Meeting
    → Hello
    → Except SessionError (Unit {0})
    → Except SessionError (Unit {0})
    → Except SessionError RawMessage
    → Outcome
unfolding on_message
greet pr r m hello (err e) wrote read = failed r [] (ConnectError.connection e)
greet pr r m hello (ok u) (err e) read = failed r [] (ConnectError.connection e)
greet pr r m hello (ok u) (ok u') (err e) = failed r (hello ∷ []) (ConnectError.connection e)
greet pr r m hello (ok u) (ok u') (ok raw) = on_message pr r m (hello ∷ []) raw

-- `runOnce`.
unfoldable pub run_once : Printer → Config → Bytes → Option Bytes → Runner → Meeting → Outcome
unfolding greet
run_once pr cfg version teamcity r m =
    greet pr r m (hello_of cfg version teamcity) m.dialed m.wrote m.read

-- The error as `Run` sees it: one that is of the connection is told apart by `classify`.
unfoldable pub session_error : Printer → Option ConnectError → Option SessionError
session_error pr none = none
session_error pr (some (ConnectError.connection e)) = some e
session_error pr (some e) = some (SessionError.transport (pr.error e))
