-- ===== src/Session/Handle.antt =====
-- `handle` and `execute` of internal/session/session.go: the command path. The tools, the SHA-256
-- digest of the arguments and the clock are parameters; the calls of tools are recorded in the
-- state, so that one can say when a tool is touched. Time stamps in bodies are left out.
pub mod Outcome
pub mod Calls
pub mod Replay
pub mod Secrecy
use butterstack_connector.Prelude.{
  ℕ, Bool, true, false, List, [], ◌∷◌, ◌++◌, Option, none, some, Bytes, codes, if◌then◌else◌,
  bytes_eq, Except, ok, err,
}
use butterstack_connector.Prelude.Int.{ℤ}
use butterstack_connector.Json.{RawMessage}
use butterstack_connector.Protocol.{
  Command, Status, status_token, ResultFrame, deny, errorf, ok_result, protocol_version,
}
use butterstack_connector.Audit.{DetailText, empty, fixed, denial, failure, Entry, zero_entry}
use butterstack_connector.Vocab.Schema.{
  Verb, Scopes, Args, Checked, DenyReason, reason_token, malformed_args, duplicate_command_id,
  deadline_exceeded,
}
use butterstack_connector.Vocab.Resolve.{ConfiguredTools, compiled_verbs, resolve, is_empty}
use butterstack_connector.Session.Limits.{choose_deadline, choose_max_bytes}
use butterstack_connector.Session.Dedupe.{Seen, claim}

-- What an executor is called with.
pub record ToolCall : Type 0 where
  pub tool : Bytes
  pub verb : Bytes
  pub args : Args
  pub max_bytes : ℤ
  pub deadline : ℤ

-- The four results of `Execute`.
pub record Executed (B : Type 0) : Type 0 where
  pub body : B
  pub bytes : ℕ
  pub truncated : Bool
  pub error : Option Bytes

-- The bodies: of the connector's own verbs, and of the tools.
pub data Body (T : Type 0) : Type 0 where
  nil pong : Body T
  version : Bytes → Bytes → Body T
  capabilities : List Bytes → ConfiguredTools → Body T
  from_tool : T → Body T

-- The configuration and what the connector calls. `T` is the type of what tools return.
pub record Host (T : Type 0) : Type 0 where
  pub version : Bytes
  pub scopes : Scopes
  pub tools : ConfiguredTools
  pub execs : Bytes → Option (ToolCall → Executed T)
  pub args_digest : RawMessage → Bytes

pub record Runner : Type 0 where
  pub session_id : Bytes
  pub seen : Seen
  pub log : List Entry
  pub calls : List ToolCall

abbrev pub tool_call : Verb → Args → ℤ → ℤ → ToolCall
tool_call v args max_bytes deadline = record {
  tool = v.tool;
  verb = v.name;
  args = args;
  max_bytes = max_bytes;
  deadline = deadline;
}

abbrev pub reason_tool_error : Bytes
reason_tool_error = codes "tool_error"

module _ {T : Type 0} where
  abbrev pub own : Body T → Executed (Body T)
  own b = record { body = b; bytes = 0; truncated = false; error = none }

  abbrev pub lift_tool : Executed T → Executed (Body T)
  lift_tool x = record {
    body = Body.from_tool x.body;
    bytes = x.bytes;
    truncated = x.truncated;
    error = x.error;
  }

  -- `ErrNotConfigured`.
  abbrev pub not_configured : Executed (Body T)
  not_configured = record {
    body = Body.nil;
    bytes = 0;
    truncated = false;
    error = some (codes "tools: tool is not configured");
  }

  -- What `execute` returns, and the calls that it makes.
  unfoldable pub execute : Host T → Verb → Args → ℤ → ℤ → Executed (Body T) × List ToolCall
  execute h v args max_bytes deadline =
      if bytes_eq v.name (codes "sys.ping")
      then (own Body.pong, [])
      else if bytes_eq v.name (codes "sys.version")
      then (own (Body.version h.version protocol_version), [])
      else if bytes_eq v.name (codes "sys.capabilities")
      then (own (Body.capabilities compiled_verbs h.tools), [])
      else elim (h.execs v.tool) [
        | none ↦ (not_configured, [])
        | some ex ↦
            let call = tool_call v args max_bytes deadline in (lift_tool (ex call), call ∷ [])
      ]

  -- `finish`: the audit line, and the result.
  abbrev pub command_entry : Host T → Runner → Command → ResultFrame (Body T) → DetailText → Entry
  command_entry h r cmd res detail = record {
    event = codes "command";
    session_id = r.session_id;
    command_id = cmd.id;
    verb = cmd.verb;
    args_sha256 = h.args_digest cmd.args;
    status = status_token res.status;
    reason = res.reason;
    detail = detail;
    bytes_out = res.bytes;
    truncated = res.truncated;
    message = [];
  }

  unfoldable pub finish :
      Host T → Runner → Command → ResultFrame (Body T) → DetailText → Runner × ResultFrame (Body T)
  finish h r cmd res detail =
      (record r { log = r.log ++ command_entry h r cmd res detail ∷ [] }, res)

  abbrev pub timeout_result : Bytes → ResultFrame (Body T)
  timeout_result id = record {
    id = id;
    status = Status.timeout;
    reason = reason_token deadline_exceeded;
    body = none;
    truncated = false;
    bytes = 0;
  }

  -- The switch behind `execute`; `overdue` says that the deadline has passed.
  unfoldable pub conclude :
      Host T → Runner → Command → Bool → Executed (Body T) → Runner × ResultFrame (Body T)
  conclude h r cmd overdue x =
      if overdue then finish h r cmd (timeout_result cmd.id) DetailText.empty else elim x.error [
        | some e ↦ finish h r cmd (errorf cmd.id reason_tool_error) (DetailText.failure e)
        | none ↦ finish h r cmd (ok_result cmd.id x.body x.bytes x.truncated) DetailText.empty
      ]

  -- From the resolved verb on.
  unfoldable pub perform :
      Host T → Runner → Command → Bool → Verb → Args → Runner × ResultFrame (Body T)
  perform h r cmd overdue v args =
      let (x, calls) =
        execute h v args (choose_max_bytes cmd.max_bytes v.default_max_bytes)
          (choose_deadline cmd.deadline_ms) in
      conclude h (record r { calls = r.calls ++ calls }) cmd overdue x

  -- `Resolve` returns a verb whenever it returns no denial, so the last case does not arise (in Go
  -- it would be a nil dereference).
  unfoldable pub decide :
      Host T → Runner → Command → Bool → Option Verb × Checked Args → Runner × ResultFrame (Body T)
  decide h r cmd overdue (v, err e) =
      finish h r cmd (deny cmd.id (reason_token e.reason)) (DetailText.denial e.detail)
  decide h r cmd overdue (some v, ok args) = perform h r cmd overdue v args
  decide h r cmd overdue (none, ok args) = (r, errorf cmd.id [])

  -- `handle`, for a command that arrives at `now`.
  unfoldable pub handle : Host T → Runner → ℕ → Bool → Command → Runner × ResultFrame (Body T)
  handle h r now overdue cmd =
      if is_empty cmd.id
      then finish h r cmd (deny [] (reason_token malformed_args))
          (DetailText.fixed "command has no id")
      else let (fresh, seen) = claim now cmd.id r.seen in
        if fresh
        then decide h (record r { seen = seen }) cmd overdue
            (resolve cmd.verb cmd.args h.scopes h.tools)
        else finish h (record r { seen = seen }) cmd
            (deny cmd.id (reason_token duplicate_command_id)) DetailText.empty
