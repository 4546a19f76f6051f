-- ===== src/Session/Pump/Balance.antt =====
-- What is balanced in a pump: goroutines, results and lines of the log.
use butterstack_connector.Prelude.{
  ℕ, suc, ◌+◌, ◌≤◌, ◌≡◌, refl, sym, ap, ◌∙◌, Bool, List, [], ◌∷◌, ◌++◌, codes, Bytes, bytes_eq,
  if◌then◌else◌, arith, length, All,
}
use butterstack_connector.Protocol.{Command, ResultFrame, status_token}
use butterstack_connector.Audit.{Entry}
use butterstack_connector.Session.Handle.{Body, Host, Runner}
use butterstack_connector.Session.Handle.Outcome.{Answered, line_of}
use butterstack_connector.Session.Pump.{
  Inbound, Task, Written, Pump, dropped_entry, ignored_entry, receive,
}
use butterstack_connector.Session.Pump.Trace.{result_of}
use butterstack_connector.Session.Pump.Tasks.{total, total-split, total-append, length-split}

-- A weight on the id, status, reason, size and truncation of an answer.
abbrev pub Weight : Type 0
Weight = Bytes → Bytes → Bytes → ℕ → Bool → ℕ

-- The weight of a line about a command.
abbrev pub line_by : Weight → Entry → ℕ
line_by f e =
    if bytes_eq e.event (codes "command")
    then f e.command_id e.status e.reason e.bytes_out e.truncated
    else 0

pub line_added :
    (f : Weight) (log : List Entry) (e : Entry)
    → total (line_by f) (log ++ e ∷ []) ≡ total (line_by f) log + line_by f e
line_added f log e = omega (arith, total-append (line_by f) log (e ∷ []))

module _ {T : Type 0} where
  abbrev pub frame_by : Weight → ResultFrame (Body T) → ℕ
  frame_by f res = f res.id (status_token res.status) res.reason res.bytes res.truncated

  abbrev pub finished_by : (ResultFrame (Body T) → ℕ) → Task T → ℕ
  finished_by f (Task.finished res) = f res
  finished_by f _ = 0

  abbrev pub written_by : (ResultFrame (Body T) → ℕ) → Written T → ℕ
  written_by f (Written.result res) = f res
  written_by f _ = 0

  abbrev pub IsDepthBelow : ℕ → Written T → Type 0
  IsDepthBelow max (Written.heartbeat depth) = depth ≤ max
  IsDepthBelow max _ = Unit

  -- After the goroutines made the results `made`: no more goroutines than permitted, and none
  -- reported. The results that are to be written, were written or were lost are those made, each as
  -- often: so they are by any weight. The lines about commands since the start are those of the
  -- results made, by any weight on what a line states of an answer.
  pub record IsBalanced (max : ℕ) (start : Runner) (made : List (ResultFrame (Body T))) (p : Pump T)
      : Type 0 where
    pub bounded : length p.tasks ≤ max
    pub depths : All (IsDepthBelow max) p.sent
    pub accounted :
        (f : ResultFrame (Body T) → ℕ)
        → total f made
          ≡ total (finished_by f) p.tasks + (total (written_by f) p.sent + total f p.lost)
    pub recorded :
        (f : Weight)
        → total (line_by f) p.runner.log ≡ total (line_by f) start.log + total (frame_by f) made

  pub All-append :
      (P : Written T → Type 0) (ws : List (Written T)) (w : Written T)
      → All P ws
      → P w
      → All P (ws ++ w ∷ [])
  All-append P [] w a b = (b, tt)
  All-append P (x ∷ ws) w (a, as') b = (a, All-append P ws w as' b)

  pub answer_line :
      (f : Weight) (h : Host T) (r r' : Runner) (cmd : Command) (res : ResultFrame (Body T))
      → Answered h r cmd (r', res)
      → total (line_by f) r'.log ≡ total (line_by f) r.log + frame_by f res
  unfolding bytes_eq codes
  answer_line f h r r' cmd res (d, grown, named) =
      ap (total (line_by f)) grown
      ∙ line_added f r.log (line_of h r cmd res d)
      ∙ ap
          (λ i.
            total (line_by f) r.log
            + f i (status_token res.status) res.reason res.bytes res.truncated)
          (sym named)

  receive_log :
      (f : Weight) (p : Pump T) (m : Inbound)
      → total (line_by f) (receive p m).runner.log ≡ total (line_by f) p.runner.log
  unfolding receive bytes_eq codes
  receive_log f p (Inbound.dropped reason) =
      omega (arith, line_added f p.runner.log (dropped_entry reason))
  receive_log f p (Inbound.ignored kind) =
      omega (arith, line_added f p.runner.log (ignored_entry kind))
  receive_log f p (Inbound.command cmd) = refl

  pub receive-IsBalanced :
      (max : ℕ) (start : Runner) (made : List (ResultFrame (Body T))) (p : Pump T) (m : Inbound)
      → IsBalanced max start made p
      → IsBalanced max start made (receive p m)
  unfolding receive
  receive-IsBalanced max start made p (Inbound.dropped reason) b = record {
    bounded = b.bounded;
    depths = b.depths;
    accounted = b.accounted;
    recorded = λ f. receive_log f p (Inbound.dropped reason) ∙ b.recorded f;
  }
  receive-IsBalanced max start made p (Inbound.ignored kind) b = record {
    bounded = b.bounded;
    depths = b.depths;
    accounted = b.accounted;
    recorded = λ f. receive_log f p (Inbound.ignored kind) ∙ b.recorded f;
  }
  receive-IsBalanced max start made p (Inbound.command cmd) b = record {
    bounded = b.bounded;
    depths = b.depths;
    accounted = b.accounted;
    recorded = b.recorded;
  }

  -- A list of tasks with `u` in it.
  pub lengths :
      (tasks before after : List (Task T)) (u : Task T)
      → tasks ≡ before ++ u ∷ after
      → length tasks ≡ suc (length (before ++ after))
  lengths tasks before after u e = ap length e ∙ length-split before after u

  pub weights :
      (f : ResultFrame (Body T) → ℕ) (tasks before after : List (Task T)) (u : Task T)
      → tasks ≡ before ++ u ∷ after
      → total (finished_by f) tasks ≡ finished_by f u + total (finished_by f) (before ++ after)
  weights f tasks before after u e =
      ap (total (finished_by f)) e ∙ total-split (finished_by f) before after u

  pub result_weight :
      (f : ResultFrame (Body T) → ℕ) (t : Task T) → total f (result_of t) ≡ finished_by f t
  result_weight f (Task.waiting cmd) = refl
  result_weight f (Task.claimed cmd fresh) = refl
  result_weight f (Task.finished res) = omega arith
