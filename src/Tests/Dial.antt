-- ===== src/Tests/Dial.antt =====
-- The properties of the WebSocket handshake at concrete inputs.
use butterstack_connector.Prelude.{
  ◌≡◌, refl, false, [], none, some, codes, ok, bytes_eq, mem_byte, split,
}
use butterstack_connector.Prelude.Int.{pos}
use butterstack_connector.Json.{fold_name}
use butterstack_connector.WsClient.Dial.{
  Options, Endpoint, Network, DialError, request, check_answer, shake_hands, with_key, open_socket,
  dial_endpoint, dial, unopened,
}
use butterstack_connector.WsClient.Dial.Request.{returned, expected_lines, split-request}

abbrev options : Options
options = record {
  endpoint = codes "wss://b.example/v0";
  token = codes "bsc_x_y";
  ca_file = [];
  user_agent = codes "butterstack-connector/1";
  dial_timeout = pos 0;
  handshake_limit = pos 0;
}

abbrev broker : Endpoint
broker = record {
  scheme = codes "wss";
  host = codes "b.example";
  hostname = codes "b.example";
  raw_query = [];
  escaped_path = codes "/v0";
}

-- A network whose server switches protocols; its digest is the key itself.
abbrev network : Network
network = record {
  parse_url = λ s. some broker;
  read_file = λ s. none;
  has_certificates = λ s. false;
  open_tls = λ s. ok tt;
  random = some (codes "k");
  base64 = λ s. s;
  sha1 = λ s. [];
  write = λ s. ok tt;
  respond = λ s. ok (record { status = 101; upgrade = codes "WebSocket"; accept = [] });
}

dial_run : ((dial network options).result ≡ ok tt) × ((dial network options).closed ≡ false)
unfolding dial dial_endpoint open_socket with_key shake_hands check_answer fold_name bytes_eq codes
dial_run = (refl, refl)

query_run :
    dial_endpoint network options (record broker { raw_query = codes "t=1" })
    ≡ unopened DialError.query_string
unfolding dial_endpoint bytes_eq codes
query_run = refl

split-request_example :
    split (request options broker (codes "k")) b'\n'
    ≡ returned (expected_lines options broker (codes "k"))
unfolding mem_byte codes
split-request_example = split-request options broker (codes "k") refl refl refl refl refl
