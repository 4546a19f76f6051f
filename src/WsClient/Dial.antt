-- ===== src/WsClient/Dial.antt =====
-- `Dial` of internal/wsclient/wsclient.go: the guards in front of a socket, the request, and the
-- tests of the response. URLs, files, TLS, the random source, SHA-1, base64 and the HTTP parser are
-- the parameter `Network`; what `Dial` does to a socket is recorded in `Dialed`.
pub mod Handshake
pub mod Request
use butterstack_connector.Prelude.{
  ℕ, Bool, true, false, not, ◌||◌, List, [], ◌∷◌, ◌++◌, Option, none, some, Bytes, codes,
  if◌then◌else◌, ◌==◌, bytes_eq, contains, Except, ok, err,
}
use butterstack_connector.Prelude.Int.{ℤ, pos}
use butterstack_connector.Json.{fold_name}
use butterstack_connector.Vocab.Resolve.{is_empty}
use butterstack_connector.Config.{or_int}

pub record Options : Type 0 where
  pub endpoint : Bytes
  pub token : Bytes
  pub ca_file : Bytes
  pub user_agent : Bytes
  pub dial_timeout : ℤ
  pub handshake_limit : ℤ

pub record Endpoint : Type 0 where
  pub scheme : Bytes
  pub host : Bytes
  pub hostname : Bytes
  pub raw_query : Bytes
  pub escaped_path : Bytes

-- The response's status and the two headers that are read; a missing header is empty.
pub record Answer : Type 0 where
  pub status : ℕ
  pub upgrade : Bytes
  pub accept : Bytes

-- The TLS settings and timeouts with which a socket is opened. There is no way to skip verification.
pub record Socket : Type 0 where
  pub address : Bytes
  pub server_name : Bytes
  pub roots : Option Bytes
  pub timeout : ℤ
  pub limit : ℤ

-- `random` is the key that `rand.Read` gives; `write` and `respond` are given the request.
pub record Network : Type 0 where
  pub parse_url : Bytes → Option Endpoint
  pub read_file : Bytes → Option Bytes
  pub has_certificates : Bytes → Bool
  pub open_tls : Socket → Except Bytes (Unit {0})
  pub random : Option Bytes
  pub base64 : Bytes → Bytes
  pub sha1 : Bytes → Bytes
  pub write : Bytes → Except Bytes (Unit {0})
  pub respond : Bytes → Except Bytes Answer

pub data DialError : Type 0 where
  bad_endpoint query_string no_ca_file no_certificates rand_failed : DialError
  not_wss dial_failed write_failed handshake : Bytes → DialError
  unauthorized bad_status : ℕ → DialError

-- The socket that was opened, what was handed to it, whether it was closed, and the result.
pub record Dialed : Type 0 where
  pub opened : Option Socket
  pub sent : Option Bytes
  pub closed : Bool
  pub result : Except DialError (Unit {0})

abbrev ws_guid : Bytes
ws_guid = codes "258EAFA5-E914-47DA-95CA-5AB0DC85B11C"

-- `AcceptKey`.
abbrev pub accept_key : Network → Bytes → Bytes
accept_key net client_key = net.base64 (net.sha1 (client_key ++ ws_guid))

abbrev pub crlf : Bytes
crlf = b'\r' ∷ b'\n' ∷ []

abbrev pub line : Bytes → Bytes
line s = s ++ crlf

abbrev pub request_path : Endpoint → Bytes
request_path u = if is_empty u.escaped_path then codes "/" else u.escaped_path

-- The header lines of the request, without their ends.
abbrev pub agent_lines : Bytes → List Bytes
agent_lines agent = if is_empty agent then [] else (codes "User-Agent: " ++ agent) ∷ []

abbrev pub header_lines : Options → Endpoint → Bytes → List Bytes
header_lines opts u key =
    (codes "GET " ++ request_path u ++ codes " HTTP/1.1")
    ∷ (codes "Host: " ++ u.host)
    ∷ codes "Upgrade: websocket"
    ∷ codes "Connection: Upgrade"
    ∷ (codes "Sec-WebSocket-Key: " ++ key)
    ∷ codes "Sec-WebSocket-Version: 13"
    ∷ (codes "Authorization: Bearer " ++ opts.token)
    ∷ agent_lines opts.user_agent

-- The lines, and an empty one behind them.
unfoldable pub write_lines : List Bytes → Bytes
write_lines [] = crlf
write_lines (s ∷ ss) = line s ++ write_lines ss

unfoldable pub request : Options → Endpoint → Bytes → Bytes
unfolding write_lines
request opts u key = write_lines (header_lines opts u key)

-- The tests of the response.
unfoldable pub check_answer : Network → Bytes → Answer → Except DialError (Unit {0})
check_answer net key a =
    if a.status == 401 || a.status == 403
    then err (DialError.unauthorized a.status)
    else if not (a.status == 101)
    then err (DialError.bad_status a.status)
    else if not (bytes_eq (fold_name a.upgrade) (codes "websocket"))
    then err (DialError.handshake (codes "missing Upgrade: websocket"))
    else if not (bytes_eq a.accept (accept_key net key))
    then err (DialError.handshake (codes "Sec-WebSocket-Accept mismatch"))
    else ok tt

abbrev is_err : Except DialError (Unit {0}) → Bool
is_err (err e) = true
is_err (ok u) = false

-- With the request written: a failure closes the socket.
abbrev pub answered : Socket → Bytes → Except DialError (Unit {0}) → Dialed
answered s req result = record {
  opened = some s;
  sent = some req;
  closed = is_err result;
  result = result;
}

abbrev pub abandoned : Socket → DialError → Dialed
abandoned s e = record { opened = some s; sent = none; closed = true; result = err e }

abbrev pub unopened : DialError → Dialed
unopened e = record { opened = none; sent = none; closed = false; result = err e }

abbrev pub read_answer : Network → Bytes → Except Bytes Answer → Except DialError (Unit {0})
read_answer net key (err e) = err (DialError.handshake e)
read_answer net key (ok a) = check_answer net key a

unfoldable pub shake_hands : Network → Options → Endpoint → Socket → Bytes → Dialed
unfolding request check_answer
shake_hands net opts u s key =
    let req = request opts u key in
    elim (net.write req) [
      | err e ↦ answered s req (err (DialError.write_failed e))
      | ok v ↦ answered s req (read_answer net key (net.respond req))
    ]

-- With the key that was drawn, if there is one.
unfoldable pub with_key : Network → Options → Endpoint → Socket → Option Bytes → Dialed
unfolding shake_hands
with_key net opts u s none = abandoned s DialError.rand_failed
with_key net opts u s (some raw) = shake_hands net opts u s (net.base64 raw)

-- From the opening of the socket on.
unfoldable pub open_socket : Network → Options → Endpoint → Socket → Dialed
unfolding with_key
open_socket net opts u s = elim (net.open_tls s) [
  | err e ↦ unopened (DialError.dial_failed e)
  | ok v ↦ with_key net opts u s net.random
]

-- The host with a port.
abbrev pub dial_address : Bytes → Bytes
dial_address host = if contains host (codes ":") then host else host ++ codes ":443"

abbrev pub read_roots : Network → Bytes → Except DialError (Option Bytes)
read_roots net file = if is_empty file then ok none else elim (net.read_file file) [
  | none ↦ err DialError.no_ca_file
  | some pem ↦ if net.has_certificates pem then ok (some pem) else err DialError.no_certificates
]

abbrev pub socket_of : Options → Endpoint → Option Bytes → Socket
socket_of opts u roots = record {
  address = dial_address u.host;
  server_name = u.hostname;
  roots = roots;
  timeout = or_int opts.dial_timeout (pos 10000000000);
  limit = or_int opts.handshake_limit (pos 15000000000);
}

unfoldable pub dial_endpoint : Network → Options → Endpoint → Dialed
unfolding open_socket
dial_endpoint net opts u =
    if not (bytes_eq u.scheme (codes "wss"))
    then unopened (DialError.not_wss u.scheme)
    else if not (is_empty u.raw_query)
    then unopened DialError.query_string
    else elim (read_roots net opts.ca_file) [
      | err e ↦ unopened e
      | ok roots ↦ open_socket net opts u (socket_of opts u roots)
    ]

-- `Dial`.
unfoldable pub dial : Network → Options → Dialed
unfolding dial_endpoint
dial net opts = elim (net.parse_url opts.endpoint) [
  | none ↦ unopened DialError.bad_endpoint
  | some u ↦ dial_endpoint net opts u
]
