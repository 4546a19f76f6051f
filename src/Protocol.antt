-- ===== src/Protocol.antt =====
-- internal/protocol/protocol.go: the wire frames, and how `json.Unmarshal` fills them.
pub mod Frames
use butterstack_connector.Prelude.{
  ℕ, String, Bool, true, false, ◌||◌, List, [], ◌∷◌, Option, none, some, Bytes, codes,
  if◌then◌else◌, bytes_eq, Except,
}
use butterstack_connector.Prelude.Int.{ℤ, pos}
use butterstack_connector.Json.{
  Json, Fields, end, field, RawMessage, decode_string, decode_int, is_field,
}

pub data Status : Type 0 where
  ok error denied timeout : Status

unfoldable pub status_token : Status → Bytes
unfolding codes
status_token Status.ok = codes "ok"
status_token Status.error = codes "error"
status_token Status.denied = codes "denied"
status_token Status.timeout = codes "timeout"

pub record Command : Type 0 where
  pub frame_type : Bytes
  pub id : Bytes
  pub verb : Bytes
  pub args : RawMessage
  pub deadline_ms : ℤ
  pub max_bytes : ℤ

pub record Welcome : Type 0 where
  pub frame_type : Bytes
  pub session_id : Bytes
  pub server_time : Bytes
  pub min_supported_version : Bytes
  pub heartbeat_interval : ℤ

pub record Reject : Type 0 where
  pub frame_type : Bytes
  pub reason : Bytes

-- A result answers one command. `B` is the type of the bodies; the frame type is always "result".
pub record ResultFrame (B : Type 0) : Type 0 where
  pub id : Bytes
  pub status : Status
  pub reason : Bytes
  pub body : Option B
  pub truncated : Bool
  pub bytes : ℕ

module _ {B : Type 0} where
  -- `Deny`.
  abbrev pub deny : Bytes → Bytes → ResultFrame B
  deny id reason = record {
    id = id;
    status = Status.denied;
    reason = reason;
    body = none;
    truncated = false;
    bytes = 0;
  }

  -- `Errorf`, with its text printed.
  abbrev pub errorf : Bytes → Bytes → ResultFrame B
  errorf id reason = record {
    id = id;
    status = Status.error;
    reason = reason;
    body = none;
    truncated = false;
    bytes = 0;
  }

  -- `OK`.
  abbrev pub ok_result : Bytes → B → ℕ → Bool → ResultFrame B
  ok_result id body n truncated = record {
    id = id;
    status = Status.ok;
    reason = [];
    body = some body;
    truncated = truncated;
    bytes = n;
  }

-- What storing a member does to a struct: the struct, and whether the member had the wrong type
-- (it is then left out, and decoding goes on).
abbrev pub Store : Type 0 → Type 0
Store S = Bytes → Json → S → S × Bool

module _ {S : Type 0} (store : Store S) where
  unfoldable pub store_members : Fields → S → S × Bool
  store_members end s = (s, false)
  store_members (field k v fs) s =
      let (s', bad) = store k v s in let (s'', worse) = store_members fs s' in (s'', bad || worse)

  -- `json.Unmarshal` into a struct with zero value `zero`; the flag says that it returns an error.
  unfoldable pub unmarshal : S → Json → S × Bool
  unfolding store_members
  unmarshal zero (Json.obj fs) = store_members fs zero
  unmarshal zero Json.null = (zero, false)
  unmarshal zero _ = (zero, true)

module _ {S : Type 0} where
  -- A member of type `string` or `int` that `set` writes.
  abbrev pub put_string : Json → Bytes → (Bytes → S) → S → S × Bool
  put_string v old set s = elim (decode_string v old) [ none ↦ (s, true) | some x ↦ (set x, false) ]

  abbrev pub put_int : Json → ℤ → (ℤ → S) → S → S × Bool
  put_int v old set s = elim (decode_int v old) [ none ↦ (s, true) | some x ↦ (set x, false) ]

abbrev pub zero_command : Command
zero_command = record {
  frame_type = [];
  id = [];
  verb = [];
  args = none;
  deadline_ms = pos 0;
  max_bytes = pos 0;
}

unfoldable pub store_command : Store Command
store_command k v c =
    if is_field k (codes "type")
    then put_string v c.frame_type (λ x. record c { frame_type = x }) c
    else if is_field k (codes "id")
    then put_string v c.id (λ x. record c { id = x }) c
    else if is_field k (codes "verb")
    then put_string v c.verb (λ x. record c { verb = x }) c
    else if is_field k (codes "args")
    then (record c { args = some v }, false)
    else if is_field k (codes "deadline_ms")
    then put_int v c.deadline_ms (λ x. record c { deadline_ms = x }) c
    else if is_field k (codes "max_bytes")
    then put_int v c.max_bytes (λ x. record c { max_bytes = x }) c
    else (c, false)

abbrev pub zero_welcome : Welcome
zero_welcome = record {
  frame_type = [];
  session_id = [];
  server_time = [];
  min_supported_version = [];
  heartbeat_interval = pos 0;
}

unfoldable pub store_welcome : Store Welcome
store_welcome k v w =
    if is_field k (codes "type")
    then put_string v w.frame_type (λ x. record w { frame_type = x }) w
    else if is_field k (codes "session_id")
    then put_string v w.session_id (λ x. record w { session_id = x }) w
    else if is_field k (codes "server_time")
    then put_string v w.server_time (λ x. record w { server_time = x }) w
    else if is_field k (codes "min_supported_version")
    then put_string v w.min_supported_version (λ x. record w { min_supported_version = x }) w
    else if is_field k (codes "heartbeat_interval")
    then put_int v w.heartbeat_interval (λ x. record w { heartbeat_interval = x }) w
    else (w, false)

abbrev pub zero_reject : Reject
zero_reject = record { frame_type = []; reason = [] }

unfoldable pub store_reject : Store Reject
store_reject k v r =
    if is_field k (codes "type")
    then put_string v r.frame_type (λ x. record r { frame_type = x }) r
    else if is_field k (codes "reason")
    then put_string v r.reason (λ x. record r { reason = x }) r
    else (r, false)

-- `Envelope` has the one field.
unfoldable pub store_envelope : Store Bytes
store_envelope k v t = if is_field k (codes "type") then put_string v t (λ x. x) t else (t, false)

pub data EnvelopeError : Type 0 where
  malformed no_type : EnvelopeError

-- `DecodeEnvelope`, on the value that the text spells; `none` is text that is no JSON.
unfoldable pub decode_envelope : Option Json → Except EnvelopeError Bytes
unfolding unmarshal store_envelope
decode_envelope none = Except.err malformed
decode_envelope (some j) =
    let (t, bad) = unmarshal store_envelope [] j in
    if bad
    then Except.err malformed
    else elim t [ [] ↦ Except.err no_type | c ∷ s ↦ Except.ok (c ∷ s) ]

pub record Hello : Type 0 where
  pub frame_type : Bytes
  pub connector_id : Bytes
  pub integration_id : Bytes
  pub version : Bytes
  pub protocol : Bytes
  pub capabilities : List Bytes
  pub tool_versions : List (Bytes × Bytes)

-- `Version` and `NewHello`.
abbrev pub protocol_version : Bytes
protocol_version = codes "0"

unfoldable pub new_hello : Bytes → Bytes → Bytes → List Bytes → List (Bytes × Bytes) → Hello
new_hello connector_id integration_id version capabilities tool_versions = record {
  frame_type = codes "hello";
  connector_id = connector_id;
  integration_id = integration_id;
  version = version;
  protocol = protocol_version;
  capabilities = capabilities;
  tool_versions = tool_versions;
}
