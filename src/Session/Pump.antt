-- ===== src/Session/Pump.antt =====
-- `pump` of internal/session/session.go as a system of interleaved steps: the read loop, the
-- heartbeat, and one goroutine for each command, behind a semaphore. The shared state is the
-- runner (the ids seen under their lock, the log) and the connection (what was written). A
-- goroutine is a `Task`: it takes the lock once, in `begin_task`, and runs the tool and writes its
-- line in `conclude_task`. A read that times out on a connection that is alive changes nothing and
-- is no step.
pub mod Tasks
pub mod Trace
pub mod Counting
pub mod Balance
pub mod Invariant
pub mod Calling
pub mod Once
pub mod Progress
use butterstack_connector.Prelude.{
  ℕ, ◌≤◌, ◌<◌, ◌≡◌, Bool, true, false, List, [], ◌∷◌, ◌++◌, Option, none, some, Bytes, codes,
  if◌then◌else◌, bytes_eq, length, Except, ok, err,
}
use butterstack_connector.Json.{Json}
use butterstack_connector.Protocol.{
  Command, ResultFrame, EnvelopeError, deny, store_command, unmarshal, zero_command,
  decode_envelope,
}
use butterstack_connector.Audit.{DetailText, Entry, zero_entry}
use butterstack_connector.Vocab.Schema.{reason_token, malformed_args, duplicate_command_id}
use butterstack_connector.Vocab.Resolve.{resolve, is_empty}
use butterstack_connector.Session.Dedupe.{claim}
use butterstack_connector.Session.Handle.{Body, Host, Runner, finish, decide}

-- What the read loop makes of a message.
pub data Inbound : Type 0 where
  dropped : Bytes → Inbound
  ignored : Bytes → Inbound
  command : Command → Inbound

abbrev pub as_command : Command × Bool → Inbound
as_command (cmd, true) = Inbound.dropped (codes "malformed_command")
as_command (cmd, false) = Inbound.command cmd

abbrev pub by_kind : Option Json → Except EnvelopeError Bytes → Inbound
by_kind raw (err e) = Inbound.dropped (codes "malformed")
by_kind none (ok kind) = Inbound.dropped (codes "malformed")
by_kind (some j) (ok kind) =
    if bytes_eq kind (codes "command")
    then as_command (unmarshal store_command zero_command j)
    else Inbound.ignored kind

-- `none` is text that is no JSON.
unfoldable pub sort_message : Option Json → Inbound
sort_message raw = by_kind raw (decode_envelope raw)

abbrev pub dropped_entry : Bytes → Entry
dropped_entry reason = record zero_entry { event = codes "frame_dropped"; reason = reason }

abbrev pub ignored_entry : Bytes → Entry
ignored_entry kind = record zero_entry { event = codes "frame_ignored"; message = kind }

-- The goroutine of a command: before `claim`, with its answer, and with the result to write.
pub data Task (T : Type 0) : Type 0 where
  waiting : Command → Task T
  claimed : Command → Bool → Task T
  finished : ResultFrame (Body T) → Task T

-- What the connector writes.
pub data Written (T : Type 0) : Type 0 where
  result : ResultFrame (Body T) → Written T
  heartbeat : ℕ → Written T
  ping : Written T

-- `held` is the command of a read loop that waits for the semaphore, whose length is that of
-- `tasks`; `lost` has the results whose write failed; `is_open` says that the connection takes
-- writes, `cancelled` that the context is done, and `pinging` that the heartbeat goroutine has its
-- ping yet to write.
pub record Pump (T : Type 0) : Type 0 where
  pub runner : Runner
  pub held : Option Command
  pub tasks : List (Task T)
  pub sent : List (Written T)
  pub lost : List (ResultFrame (Body T))
  pub is_open : Bool
  pub cancelled : Bool
  pub pinging : Bool

module _ {T : Type 0} where
  -- The pump of a session that has just come up.
  abbrev pub new_pump : Runner → Pump T
  new_pump r = record {
    runner = r;
    held = none;
    tasks = [];
    sent = [];
    lost = [];
    is_open = true;
    cancelled = false;
    pinging = false;
  }

  abbrev answered : Runner × ResultFrame (Body T) → Runner × Task T
  answered (r, res) = (r, Task.finished res)

  -- `handle` up to the answer of `claim`, and from there on.
  unfoldable pub begin_task : Host T → Runner → ℕ → Command → Runner × Task T
  unfolding finish
  begin_task h r now cmd =
      if is_empty cmd.id
      then answered (
          finish h r cmd (deny [] (reason_token malformed_args))
            (DetailText.fixed "command has no id"))
      else let (fresh, seen) = claim now cmd.id r.seen in
        (record r { seen = seen }, Task.claimed cmd fresh)

  unfoldable pub conclude_task :
      Host T → Runner → Command → Bool → Bool → Runner × ResultFrame (Body T)
  unfolding decide finish
  conclude_task h r cmd overdue fresh =
      if fresh
      then decide h r cmd overdue (resolve cmd.verb cmd.args h.scopes h.tools)
      else finish h r cmd (deny cmd.id (reason_token duplicate_command_id)) DetailText.empty

  -- A message that the read loop has read.
  unfoldable pub receive : Pump T → Inbound → Pump T
  receive p (Inbound.dropped reason) = record p {
    runner = record p.runner { log = p.runner.log ++ dropped_entry reason ∷ [] };
  }
  receive p (Inbound.ignored kind) = record p {
    runner = record p.runner { log = p.runner.log ++ ignored_entry kind ∷ [] };
  }
  receive p (Inbound.command cmd) = record p { held = some cmd }

  -- The steps of the goroutines of commands, and of the read loop that starts one. A command is
  -- claimed at a time between `lo` and `hi`. `max` is `cfg.MaxConcurrent`.
  pub data Work (h : Host T) (max lo hi : ℕ) (p : Pump T) : Pump T → Type 0 where
    acquires :
        {cmd : Command}
        → p.held ≡ some cmd
        → length p.tasks < max
        → Work h max lo hi p (record p { held = none; tasks = Task.waiting cmd ∷ p.tasks })
    abandons :
        {cmd : Command}
        → p.held ≡ some cmd
        → p.cancelled ≡ true
        → Work h max lo hi p (record p { held = none })
    begins :
        (before after : List (Task T)) (cmd : Command) (now : ℕ) {r : Runner} {t : Task T}
        → p.tasks ≡ before ++ Task.waiting cmd ∷ after
        → lo ≤ now
        → now ≤ hi
        → begin_task h p.runner now cmd ≡ (r, t)
        → Work h max lo hi p (record p { runner = r; tasks = before ++ t ∷ after })
    concludes :
        (before after : List (Task T)) (cmd : Command) (overdue fresh : Bool) {r : Runner}
        {res : ResultFrame (Body T)}
        → p.tasks ≡ before ++ Task.claimed cmd fresh ∷ after
        → conclude_task h p.runner cmd overdue fresh ≡ (r, res)
        → Work h max lo hi p (record p { runner = r; tasks = before ++ Task.finished res ∷ after })
    sends :
        (before after : List (Task T)) (res : ResultFrame (Body T))
        → p.tasks ≡ before ++ Task.finished res ∷ after
        → p.is_open ≡ true
        → Work h max lo hi p
            (record p { tasks = before ++ after; sent = p.sent ++ Written.result res ∷ [] })
    loses :
        (before after : List (Task T)) (res : ResultFrame (Body T))
        → p.tasks ≡ before ++ Task.finished res ∷ after
        → p.is_open ≡ false
        → Work h max lo hi p (record p { tasks = before ++ after; lost = res ∷ p.lost })

  -- The steps of the pump. The connection breaks when the network fails, at which the writes on it
  -- begin to fail, or when `pump` closes it; the context is cancelled by `pump` behind the first
  -- error, or from outside. A message may have arrived before either.
  pub data Step (h : Host T) (max lo hi : ℕ) (p : Pump T) : Pump T → Type 0 where
    works : {q : Pump T} → Work h max lo hi p q → Step h max lo hi p q
    receives :
        (raw : Option Json) → p.held ≡ none → Step h max lo hi p (receive p (sort_message raw))
    beats :
        p.is_open ≡ true
        → p.pinging ≡ false
        → Step h max lo hi p
            (record p { sent = p.sent ++ Written.heartbeat (length p.tasks) ∷ []; pinging = true })
    pings :
        p.is_open ≡ true
        → p.pinging ≡ true
        → Step h max lo hi p (record p { sent = p.sent ++ Written.ping ∷ []; pinging = false })
    breaks : Step h max lo hi p (record p { is_open = false })
    cancels : Step h max lo hi p (record p { cancelled = true })

  pub data Steps (h : Host T) (max lo hi : ℕ) (p : Pump T) : Pump T → Type 0 where
    here : Steps h max lo hi p p
    later : {q r : Pump T} → Steps h max lo hi p q → Step h max lo hi q r → Steps h max lo hi p r
