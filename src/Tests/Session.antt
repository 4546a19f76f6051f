-- ===== src/Tests/Session.antt =====
-- The properties of the session, the protocol and the audit log at concrete inputs.
use butterstack_connector.Prelude.{
  ℕ, ◌≡◌, ◌≢◌, inr, refl, Bool, true, false, List, [], ◌∷◌, Option, none, some, Bytes, String,
  codes, arith, bytes_eq, if◌then◌else◌,
}
use butterstack_connector.Json.{Fields, is_field, decode_string, str, obj, end, field}
use butterstack_connector.Protocol.{Command, Status, deny, zero_command, store_command, unmarshal}
use butterstack_connector.Protocol.Frames.{IsForeign, append_members}
use butterstack_connector.Audit.{Disk, event_entry}
use butterstack_connector.Audit.Lines.{Call}
use butterstack_connector.Vocab.Schema.{reason_token, duplicate_command_id}
use butterstack_connector.Vocab.Resolve.{is_empty, resolve}
use butterstack_connector.Session.Dedupe.{claim, claims}
use butterstack_connector.Session.Dedupe.History.{history_answers, claims-history_answers}
use butterstack_connector.Session.Run.{SessionError, Attempt}
use butterstack_connector.Session.Handle.{
  ToolCall, Executed, Host, Runner, handle, decide, perform, conclude, execute, finish,
}
use butterstack_connector.Session.Handle.Calls.{Touches, handle-Touches}
use butterstack_connector.Session.Handle.Outcome.{Answered, handle-Answered}
use butterstack_connector.Session.Handle.Replay.{Arrival, run_handles, handle_replay}
use butterstack_connector.Session.Handle.Secrecy.{SameTool, handle_secrecy}

abbrev pub is_perforce : Bytes → Bool
is_perforce tool = bytes_eq tool (codes "perforce")

-- A Perforce tool that answers, and one that fails with a text of its own.
abbrev pub answering : ToolCall → Executed ℕ
answering call = record { body = 7; bytes = 3; truncated = false; error = none }

abbrev failing : String → ToolCall → Executed ℕ
failing s call = record { body = 0; bytes = 9; truncated = true; error = some (codes s) }

abbrev pub boxed : (ToolCall → Executed ℕ) → Bool → Option (ToolCall → Executed ℕ)
boxed ex b = if b then some ex else none

abbrev pub tool_box : (ToolCall → Executed ℕ) → Bytes → Option (ToolCall → Executed ℕ)
tool_box ex tool = boxed ex (is_perforce tool)

abbrev pub game_host : (ToolCall → Executed ℕ) → Host ℕ
game_host ex = record {
  version = codes "0.2.3";
  scopes = record {
    depot_scope = codes "//depot/game/" ∷ [];
    allowed_build_types = [];
    repo_allowlist = [];
  };
  tools = is_perforce;
  execs = tool_box ex;
  args_digest = λ raw. [];
}

abbrev pub fresh_runner : Runner
fresh_runner = record { session_id = codes "s1"; seen = []; log = []; calls = [] }

abbrev pub changes_command : String → Command
changes_command id = record zero_command {
  frame_type = codes "command";
  id = codes id;
  verb = codes "p4.changes";
  args = some (obj (field (codes "path") (str (codes "//depot/game/...")) end));
}

handle_run :
    ((handle (game_host answering) fresh_runner 5 false (changes_command "c1")).1.status
      ≡ Status.ok)
    × ((handle (game_host (failing "secret")) fresh_runner 5 false (changes_command "c1")).1.status
        ≡ Status.error)
    × ((handle (game_host answering) fresh_runner 5 true (changes_command "c1")).1.status
        ≡ Status.timeout)
unfolding handle codes claim decide resolve perform conclude execute finish
handle_run = (refl, refl, refl)

handle-Touches_example :
    Touches
      (game_host answering)
      fresh_runner
      5
      (changes_command "c1")
      (handle (game_host answering) fresh_runner 5 false (changes_command "c1"))
handle-Touches_example =
    handle-Touches (game_host answering) fresh_runner 5 false (changes_command "c1")

handle-Answered_example :
    Answered
      (game_host answering)
      fresh_runner
      (changes_command "c1")
      (handle (game_host answering) fresh_runner 5 false (changes_command "c1"))
handle-Answered_example =
    handle-Answered (game_host answering) fresh_runner 5 false (changes_command "c1")

same_box : (b : Bool) → SameTool (boxed (failing "a") b) (boxed (failing "b") b)
same_box true = λ call. inr (codes "a", codes "b", refl, refl)
same_box false = tt

same_boxes : (tool : Bytes) → SameTool (tool_box (failing "a") tool) (tool_box (failing "b") tool)
same_boxes tool = same_box (is_perforce tool)

handle_secrecy_example :
    (handle (game_host (failing "a")) fresh_runner 5 false (changes_command "c1")).1
    ≡ (handle (game_host (failing "b")) fresh_runner 5 false (changes_command "c1")).1
handle_secrecy_example =
    handle_secrecy (game_host (failing "a")) (tool_box (failing "b")) fresh_runner 5 false
      (changes_command "c1") same_boxes

abbrev arrival : ℕ → String → Arrival
arrival now id = record { now = now; overdue = false; command = changes_command id }

abbrev between : List Arrival
between = arrival 6 "c2" ∷ []

named_run : is_empty (codes "c1") ≡ false
unfolding codes
named_run = refl

fresh_run : (claim 5 (codes "c1") []).0 ≡ true
unfolding claim codes
fresh_run = refl

abbrev later_runner : Runner
later_runner =
    run_handles (game_host answering) between
      (handle (game_host answering) fresh_runner 5 false (changes_command "c1")).0

handle_replay_example :
    ((handle (game_host answering) later_runner 7 false (changes_command "c1")).1
      ≡ deny (codes "c1") (reason_token duplicate_command_id))
    × ((handle (game_host answering) later_runner 7 false (changes_command "c1")).0.calls
        ≡ later_runner.calls)
handle_replay_example =
    handle_replay (game_host answering) fresh_runner (arrival 5 "c1") (arrival 7 "c1") between
      named_run fresh_run (omega arith, tt) (omega arith) refl

abbrev some_claims : List (ℕ × Bytes)
some_claims = (1, codes "c1") ∷ (2, codes "c1") ∷ (700000000000, codes "c1") ∷ []

claims_run : claims some_claims [] ≡ true ∷ false ∷ true ∷ []
unfolding claims codes claim
claims_run = refl

claims-history_answers_example : claims some_claims [] ≡ history_answers some_claims []
claims-history_answers_example =
    claims-history_answers some_claims (omega arith, (omega arith, (omega arith, tt)))

abbrev frame_head : Fields
frame_head = field (codes "type") (str (codes "command")) end

abbrev frame_tail : Fields
frame_tail = field (codes "id") (str (codes "c1")) end

trace-IsForeign : IsForeign (codes "trace")
unfolding codes is_field
trace-IsForeign = record {
  not_type = refl;
  not_id = refl;
  not_verb = refl;
  not_args = refl;
  not_deadline = refl;
  not_max_bytes = refl;
}

abbrev decoded : Command
decoded = record zero_command { frame_type = codes "command"; id = codes "c1" }

decode_run :
    unmarshal store_command zero_command (obj (append_members frame_head frame_tail))
    ≡ (decoded, false)
unfolding unmarshal codes store_command is_field decode_string
decode_run = refl

decoded_typed : codes "command" ≢ []
unfolding codes
decoded_typed = λ e. cc

abbrev empty_disk : Disk
empty_disk = record { files = λ d. []; mirror = [] }

abbrev some_writes : List Call
some_writes =
    Call.writes 1 true true (event_entry (codes "a") [])
    ∷ Call.writes 2 true true (event_entry (codes "b") [])
    ∷ Call.writes 2 true false (event_entry (codes "lost") [])
    ∷ Call.closes true
    ∷ Call.writes 2 true true (event_entry (codes "c") [])
    ∷ []

abbrev failed_attempt : Attempt
failed_attempt = record {
  connected = false;
  error = some SessionError.unauthorized;
  draw = λ n. 0;
  cancelled = false;
  stopped = false;
}

abbrev two_attempts : List Attempt
two_attempts = failed_attempt ∷ record failed_attempt { connected = true } ∷ []
