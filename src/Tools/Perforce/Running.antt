-- ===== src/Tools/Perforce/Running.antt =====
-- The running of p4 in internal/tools/perforce.go: Execute, describe, changes, run and env. The
-- process is the parameter `Start`.
pub mod Output
pub mod Invocations
use butterstack_connector.Prelude.{
  ℕ, ◌+◌, ◌*◌, ◌-◌, Bool, true, false, ◌&&◌, List, [], ◌∷◌, ◌++◌, map, Option, none, some, Bytes,
  codes, if◌then◌else◌, ltb, leb, ◌==◌, length, take, bytes_eq, trim_space, index_byte,
}
use butterstack_connector.Prelude.Int.{ℤ, pos, negsuc, half_word, word}
use butterstack_connector.Json.{Json, Fields, get_field}
use butterstack_connector.Vocab.Schema.{Args}
use butterstack_connector.Vocab.Resolve.{is_empty}
use butterstack_connector.Config.{PerforceSection}
use butterstack_connector.Session.Handle.{ToolCall, Executed}
use butterstack_connector.Tools.{arg_int, arg_string}
use butterstack_connector.Tools.Perforce.{
  CappedBuffer, write_capped, max_tool_output_bytes, Describe, describe_from_record, PerforceConfig,
  argv, describe_args, changes_args, itoa, str, signed_decimal,
}
use butterstack_connector.Tools.Perforce.Failures.{Machine, failure_detail}
use butterstack_connector.Tools.Perforce.Buffer.{write_all, empty_buffer}

-- A process that has ended: what it wrote to stdout, in pieces, and to stderr, and the text of the
-- error of `cmd.Run`, if there is one.
pub record Process : Type 0 where
  pub stdout : List Bytes
  pub stderr : Bytes
  pub failed : Option Bytes

-- `cmd.Run`, given the binary, its arguments and its environment.
abbrev pub Start : Type 0
Start = Bytes → List Bytes → List Bytes → Process

-- A process that was started.
pub record Started : Type 0 where
  pub binary : Bytes
  pub args : List Bytes
  pub env : List Bytes

-- A process that has run, which is recorded.
abbrev pub run_process : Start → Bytes → List Bytes → List Bytes → Process × List Started
run_process start binary args env =
    (start binary args env, record { binary = binary; args = args; env = env } ∷ [])

-- `NewPerforce`; `none` is ErrNotConfigured.
unfoldable pub new_perforce : PerforceSection → Option PerforceConfig
new_perforce c =
    if c.enabled
    then some (record { port = c.port; user = c.user; ticket = c.ticket; binary = c.binary })
    else none

-- `strconv.ParseInt` where its error is ignored: text that is no number gives 0, and one out of range
-- the nearest bound. The digits are read up to the first that takes the value out of 64 bits.
unfoldable pub read_clamped : Bytes → ℕ → Option ℕ
read_clamped [] n = some n
read_clamped (c ∷ s) n =
    let next = n * 10 + (c - b'0') in
    let rest = read_clamped s next in
    if leb b'0' c && leb c b'9' then (if ltb next word then rest else some (word - 1)) else none

abbrev clamp : Bool → Option ℕ → ℤ
clamp negative none = pos 0
clamp true (some n) =
    if n == 0 then pos 0 else if leb n half_word then negsuc (n - 1) else negsuc (half_word - 1)
clamp false (some n) = if ltb n half_word then pos n else pos (half_word - 1)

abbrev read_unsigned : Bytes → Option ℕ
read_unsigned [] = none
read_unsigned (c ∷ s) = read_clamped (c ∷ s) 0

unfoldable pub clamped_int : Bytes → ℤ
unfolding read_clamped
clamped_int [] = pos 0
clamped_int (c ∷ s) =
    if c == b'-'
    then clamp true (read_unsigned s)
    else if c == b'+'
    then clamp false (read_unsigned s)
    else clamp false (read_unsigned (c ∷ s))

-- The three results of `run`, for a process that has ended with `stdout` in the buffer.
pub record Ran : Type 0 where
  pub records : List Fields
  pub size : ℕ
  pub error : Option Bytes

abbrev pub ran_error : ℕ → Bytes → Ran
ran_error n e = record { records = []; size = n; error = some (codes "perforce: " ++ e) }

pub record ChangeSummary : Type 0 where
  pub change : ℤ
  pub user : Bytes
  pub time : Bytes
  pub description : Bytes

pub data P4Body : Type 0 where
  nil : P4Body
  described : Describe → P4Body
  summaries : List ChangeSummary → P4Body

abbrev pub failing : ℕ → Bytes → Executed P4Body
failing n e = record { body = P4Body.nil; bytes = n; truncated = false; error = some e }

module _ {F : Type 0} (host : Machine F) where
  -- `env`.
  abbrev ticket_env : Bytes → List Bytes
  ticket_env ticket = if is_empty ticket then [] else (codes "P4PASSWD=" ++ ticket) ∷ []

  unfoldable pub env : PerforceConfig → List Bytes
  env cfg =
      (codes "PATH=" ++ host.getenv (codes "PATH"))
      ∷ (codes "HOME=" ++ host.getenv (codes "HOME"))
      ∷ (codes "P4PORT=" ++ cfg.port)
      ∷ (codes "P4USER=" ++ cfg.user)
      ∷ ticket_env cfg.ticket

  unfoldable pub read_output : Process → CappedBuffer → Ran
  unfolding failure_detail
  read_output p stdout = elim p.failed [
    | some e ↦ ran_error (length stdout.buf) (failure_detail host stdout.buf p.stderr e)
    | none ↦
        if stdout.overflowed
        then ran_error (length stdout.buf) (codes "output exceeded the 67108864-byte tool ceiling")
        else record { records = host.decode stdout.buf; size = length stdout.buf; error = none }
  ]

  -- `run`, with the processes that it starts.
  unfoldable pub run_p4 : Start → PerforceConfig → List Bytes → Ran × List Started
  unfolding argv env read_output write_all
  run_p4 start cfg args =
      let (p, started) = run_process start cfg.binary (argv cfg args) (env cfg) in
      (read_output p (write_all (empty_buffer max_tool_output_bytes) p.stdout), started)

  -- `describe`. The last case does not arise: `describeFromRecord` ends.
  abbrev describe_first : List Fields → ℕ → ℤ → ℤ → ℤ → Executed P4Body
  describe_first [] n change max_files max_bytes =
      failing n (codes "perforce: changelist " ++ signed_decimal change ++ codes " not found")
  describe_first (r ∷ rs) n change max_files max_bytes =
      elim (describe_from_record host.sprint r change max_files max_bytes) [
        | some (d, truncated) ↦ record {
          body = P4Body.described d;
          bytes = n;
          truncated = truncated;
          error = none;
        }
        | none ↦ failing n []
      ]

  -- Behind the call of `run`.
  unfoldable pub describe_ran : Ran → ℤ → ℤ → ℤ → Executed P4Body
  unfolding describe_from_record
  describe_ran r change max_files max_bytes = elim r.error [
    | some e ↦ failing r.size e
    | none ↦ describe_first r.records r.size change max_files max_bytes
  ]

  unfoldable pub describe : Start → PerforceConfig → ℤ → ℤ → ℤ → Executed P4Body × List Started
  unfolding run_p4 describe_args describe_ran
  describe start cfg change max_files max_bytes =
      let (r, started) = run_p4 start cfg (describe_args change) in
      (describe_ran r change max_files max_bytes, started)

  -- `changes`.
  abbrev summary : Fields → ChangeSummary
  summary r = record {
    change = clamped_int (str host.sprint r (codes "change"));
    user = str host.sprint r (codes "user");
    time = str host.sprint r (codes "time");
    description = str host.sprint r (codes "desc");
  }

  unfoldable pub changes_ran : Ran → Executed P4Body
  unfolding str clamped_int
  changes_ran r = elim r.error [
    | some e ↦ failing r.size e
    | none ↦ record {
      body = P4Body.summaries (map summary r.records);
      bytes = r.size;
      truncated = false;
      error = none;
    }
  ]

  unfoldable pub changes : Start → PerforceConfig → Bytes → ℤ → Executed P4Body × List Started
  unfolding run_p4 changes_args changes_ran
  changes start cfg path max =
      let (r, started) = run_p4 start cfg (changes_args path max) in (changes_ran r, started)

  -- `Execute`, for a call, with the processes that it starts.
  unfoldable pub execute_perforce :
      Start → PerforceConfig → ToolCall → Executed P4Body × List Started
  unfolding describe changes arg_int arg_string
  execute_perforce start cfg call =
      if bytes_eq call.verb (codes "p4.describe")
      then describe start cfg (arg_int call.args (codes "change") (pos 0))
          (arg_int call.args (codes "max_files") (pos 200)) call.max_bytes
      else if bytes_eq call.verb (codes "p4.changes")
      then changes start cfg (arg_string call.args (codes "path"))
          (arg_int call.args (codes "max") (pos 25))
      else (failing 0 (codes "perforce: no executor for " ++ call.verb), [])
