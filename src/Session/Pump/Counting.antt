-- ===== src/Session/Pump/Counting.antt =====
-- How many lines of the log are about commands with an id that were not denied, and how the steps
-- of a command's goroutine change that.
use butterstack_connector.Prelude.{
  ℕ, ◌+◌, ◌≤◌, ◌≡◌, inl, inr, refl, ap, Bool, true, false, not, ◌&&◌, List, [], ◌∷◌, ◌++◌, Bytes,
  codes, bytes_eq, if◌then◌else◌, arith,
}
use butterstack_connector.Protocol.{Command, Status, ResultFrame, status_token}
use butterstack_connector.Audit.{Entry}
use butterstack_connector.Session.Handle.{Body, Host, Runner}
use butterstack_connector.Session.Handle.Outcome.{Answered, line_of}
use butterstack_connector.Session.Pump.{Task, begin_task, conclude_task}
use butterstack_connector.Session.Pump.Tasks.{
  total, total-append, begin_task-Begun, conclude_task-Answered, conclude_task_denied,
}

abbrev pub one_if : Bool → ℕ
one_if b = if b then 1 else 0

-- Lines about a command with the id that was not denied.
abbrev pub executed : Bytes → Entry → ℕ
executed id e = one_if (
    bytes_eq e.event (codes "command")
    && (bytes_eq e.command_id id && not (bytes_eq e.status (codes "denied"))))

-- Goroutines that run a command with the id.
abbrev pub running : {T : Type 0} → Bytes → Task T → ℕ
running id (Task.claimed cmd fresh) = one_if (fresh && bytes_eq cmd.id id)
running id _ = 0

pub executed_added :
    (id : Bytes) (log : List Entry) (e : Entry)
    → total (executed id) (log ++ e ∷ []) ≡ total (executed id) log + executed id e
executed_added id log e = omega (arith, total-append (executed id) log (e ∷ []))

denied_text : bytes_eq (status_token Status.denied) (codes "denied") ≡ true
unfolding bytes_eq codes status_token
denied_text = refl

module _ {T : Type 0} (h : Host T) (id : Bytes) where
  denied_line :
      (r r' : Runner) (cmd : Command) (res : ResultFrame (Body T))
      → Answered h r cmd (r', res)
      → res.status ≡ Status.denied
      → total (executed id) r'.log ≡ total (executed id) r.log
  denied_line r r' cmd res (d, grown, named) s =
      let none_added : executed id (line_of h r cmd res d) ≡ 0 =
        ground (arith, denied_text, ap status_token s) in
      omega (
        arith,
        ap (total (executed id)) grown,
        executed_added id r.log (line_of h r cmd res d),
        none_added,
      )

  other_line :
      (r r' : Runner) (cmd : Command) (res : ResultFrame (Body T))
      → Answered h r cmd (r', res)
      → total (executed id) r'.log ≤ total (executed id) r.log + one_if (bytes_eq cmd.id id)
  other_line r r' cmd res (d, grown, named) =
      let added : executed id (line_of h r cmd res d) ≤ one_if (bytes_eq cmd.id id) =
        ground arith in
      omega (
        arith,
        ap (total (executed id)) grown,
        executed_added id r.log (line_of h r cmd res d),
        added,
      )

  pub conclude_lines :
      (r r' : Runner) (cmd : Command) (overdue fresh : Bool) (res : ResultFrame (Body T))
      → conclude_task h r cmd overdue fresh ≡ (r', res)
      → total (executed id) r'.log
        ≤ total (executed id) r.log + running {T = T} id (Task.claimed cmd fresh)
  conclude_lines r r' cmd overdue true res e =
      other_line r r' cmd res (rw e at (conclude_task-Answered h r cmd overdue true))
  conclude_lines r r' cmd overdue false res e = omega (
    arith,
    denied_line r r' cmd res (rw e at (conclude_task-Answered h r cmd overdue false))
        (rw e at (conclude_task_denied h r cmd overdue)),
  )

  pub begin_lines :
      (r r' : Runner) (now : ℕ) (cmd : Command) (t : Task T)
      → begin_task h r now cmd ≡ (r', t)
      → (total (executed id) r'.log ≡ total (executed id) r.log)
  begin_lines r r' now cmd t e = elim (rw e at (begin_task-Begun h r now cmd)) [
    | inl (res, is, kept, denied, a) ↦ denied_line r r' cmd res a denied
    | inr (fresh, is, claimed, same) ↦ ap (total (executed id)) same
  ]
