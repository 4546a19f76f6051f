-- ===== src/Session/Pump/Calling.antt =====
-- The calls of tools in a run of the pump, against the lines of the log.
use mathlib.Core.List.{append-nil}
use butterstack_connector.Prelude.{
  ℕ, ◌+◌, ◌≤◌, ◌≡◌, ◌≢◌, ◌⊎◌, inl, inr, refl, sym, ap, ◌∙◌, Bool, true, false, List, [], ◌∷◌, ◌++◌,
  Option, Bytes, codes, bytes_eq, arith, length, length-append, Bool-cases,
}
use butterstack_connector.Prelude.Int.{ℤ}
use butterstack_connector.Protocol.{Command, Status, ResultFrame, status_token}
use butterstack_connector.Vocab.Schema.{Verb, Args, Checked}
use butterstack_connector.Vocab.Resolve.{resolve, is_empty}
use butterstack_connector.Session.Limits.{choose_deadline, choose_max_bytes}
use butterstack_connector.Session.Handle.{
  ToolCall, Body, Host, Runner, tool_call, execute, finish, perform, decide,
}
use butterstack_connector.Session.Handle.Outcome.{Answers, resolve-Answers, Answered, line_of}
use butterstack_connector.Session.Handle.Calls.{execute_calls, conclude_calls}
use butterstack_connector.Session.Pump.{
  Inbound, Task, Pump, dropped_entry, ignored_entry, begin_task, conclude_task, receive,
  sort_message, Work, Step, Steps,
}
use butterstack_connector.Session.Pump.Tasks.{total, conclude_task-Answered}
use butterstack_connector.Session.Pump.Trace.{calls_for, work_calls, step_calls, tool_calls}
use butterstack_connector.Session.Pump.Counting.{one_if, executed, executed_added, begin_lines}

not_denied : (s : Status) → s ≢ Status.denied → bytes_eq (status_token s) (codes "denied") ≡ false
unfolding bytes_eq codes status_token
not_denied Status.ok n = refl
not_denied Status.error n = refl
not_denied Status.denied n = absurd (n refl)
not_denied Status.timeout n = refl

module _ {T : Type 0} (h : Host T) where
  -- No tool was called, or one, and the answer is not a denial.
  abbrev CallsOnce : Runner → Runner × ResultFrame (Body T) → Type 0
  CallsOnce r (r', res) =
      (r'.calls ≡ r.calls)
      ⊎ ((call : ToolCall) × (r'.calls ≡ r.calls ++ call ∷ []) × (res.status ≢ Status.denied))

  perform-CallsOnce :
      (r : Runner) (cmd : Command) (overdue : Bool) (v : Verb) (args : Args)
      → CallsOnce r (perform h r cmd overdue v args)
  unfolding perform
  perform-CallsOnce r cmd overdue v args =
      let size : ℤ = choose_max_bytes cmd.max_bytes v.default_max_bytes in
      let time : ℤ = choose_deadline cmd.deadline_ms in
      let made : List ToolCall = (execute h v args size time).1 in
      let (same, answered) =
        conclude_calls h (record r { calls = r.calls ++ made }) cmd overdue
          (execute h v args size time).0 in
      elim (execute_calls h v args size time) [
        | inl quiet ↦ inl (same ∙ ap (λ t. r.calls ++ t) quiet ∙ append-nil r.calls)
        | inr one ↦ inr (tool_call v args size time, same ∙ ap (λ t. r.calls ++ t) one, answered)
      ]

  decide-CallsOnce :
      (r : Runner) (cmd : Command) (overdue : Bool) (a : Option Verb × Checked Args)
      → Answers a
      → CallsOnce r (decide h r cmd overdue a)
  decide-CallsOnce r cmd overdue a (inl (v, e, same)) = rw same (unfold decide finish in inl refl)
  decide-CallsOnce r cmd overdue a (inr (v, args, same)) =
      rw same (unfold decide in perform-CallsOnce r cmd overdue v args)

  conclude_task-CallsOnce :
      (r : Runner) (cmd : Command) (overdue fresh : Bool)
      → CallsOnce r (conclude_task h r cmd overdue fresh)
  unfolding conclude_task finish
  conclude_task-CallsOnce r cmd overdue true =
      decide-CallsOnce r cmd overdue (resolve cmd.verb cmd.args h.scopes h.tools)
        (resolve-Answers cmd.verb cmd.args h.scopes h.tools)
  conclude_task-CallsOnce r cmd overdue false = inl refl

  begin_task_calls :
      (r : Runner) (now : ℕ) (cmd : Command) → (begin_task h r now cmd).0.calls ≡ r.calls
  unfolding begin_task finish
  begin_task_calls r now cmd = elim (Bool-cases (is_empty cmd.id)) [
    | inl e ↦ rw (e, begin_task) refl
    | inr n ↦ rw (n, begin_task) refl
  ]

  no_calls :
      (id : Bytes) (cmd : Command) (r r' : Runner) → r'.calls ≡ r.calls → calls_for id cmd r r' ≡ 0
  no_calls id cmd r r' same =
      let len : length r'.calls ≡ length r.calls = ap length same in ground arith

  one_call :
      (id : Bytes) (cmd : Command) (r r' : Runner) (call : ToolCall)
      → r'.calls ≡ r.calls ++ call ∷ []
      → calls_for id cmd r r' ≡ one_if (bytes_eq cmd.id id)
  one_call id cmd r r' call grown =
      let len : length r'.calls ≡ length r.calls + 1 =
        ap length grown ∙ length-append r.calls (call ∷ []) in
      ground arith

  -- A call comes with a line about the id that is not a denial.
  conclude_task_called :
      (id : Bytes) (r r' : Runner) (cmd : Command) (overdue fresh : Bool)
      (res : ResultFrame (Body T))
      → conclude_task h r cmd overdue fresh ≡ (r', res)
      → calls_for id cmd r r' + total (executed id) r.log ≤ total (executed id) r'.log
  unfolding bytes_eq codes
  conclude_task_called id r r' cmd overdue fresh res e =
      let (d, grown, named) : Answered h r cmd (r', res) =
        rw e at (conclude_task-Answered h r cmd overdue fresh) in
      let once : CallsOnce r (r', res) = rw e at (conclude_task-CallsOnce r cmd overdue fresh) in
      let lines : total (executed id) r'.log
          ≡ total (executed id) r.log + executed id (line_of h r cmd res d) =
        ap (total (executed id)) grown ∙ executed_added id r.log (line_of h r cmd res d) in
      elim once [
        | inl quiet ↦ omega (arith, lines, no_calls id cmd r r' quiet)
        | inr (call, more, s) ↦
            let counted : executed id (line_of h r cmd res d) ≡ one_if (bytes_eq cmd.id id) =
              rw (not_denied res.status s) (ground arith) in
            omega (arith, lines, one_call id cmd r r' call more, counted)
      ]

  module _ (id : Bytes) (max lo hi : ℕ) where
    Work-called :
        (p q : Pump T) (w : Work h max lo hi p q)
        → work_calls h max lo hi id w + total (executed id) p.runner.log
          ≤ total (executed id) q.runner.log
    unfolding work_calls
    Work-called p q (Work.acquires held room) = omega arith
    Work-called p q (Work.abandons held done) = omega arith
    Work-called p q (Work.begins before after cmd now {r} {t} at l u e) =
        let kept : r.calls ≡ p.runner.calls =
          ap (λ (x : Runner × Task T). x.0.calls) (sym e) ∙ begin_task_calls p.runner now cmd in
        omega (arith, begin_lines h id p.runner r now cmd t e, no_calls id cmd p.runner r kept)
    Work-called p q (Work.concludes before after cmd overdue fresh {r} {res} at e) =
        conclude_task_called id p.runner r cmd overdue fresh res e
    Work-called p q (Work.sends before after res at o) = omega arith
    Work-called p q (Work.loses before after res at c) = omega arith

    receive_lines :
        (p : Pump T) (m : Inbound)
        → total (executed id) p.runner.log ≤ total (executed id) (receive p m).runner.log
    unfolding receive
    receive_lines p (Inbound.dropped reason) =
        omega (arith, executed_added id p.runner.log (dropped_entry reason))
    receive_lines p (Inbound.ignored kind) =
        omega (arith, executed_added id p.runner.log (ignored_entry kind))
    receive_lines p (Inbound.command cmd) = omega arith

    Step-called :
        (p q : Pump T) (s : Step h max lo hi p q)
        → step_calls h max lo hi id s + total (executed id) p.runner.log
          ≤ total (executed id) q.runner.log
    unfolding step_calls
    Step-called p q (Step.works w) = Work-called p q w
    Step-called p q (Step.receives raw f) = omega (arith, receive_lines p (sort_message raw))
    Step-called p q (Step.beats o i) = omega arith
    Step-called p q (Step.pings o i) = omega arith
    Step-called p q Step.breaks = omega arith
    Step-called p q Step.cancels = omega arith

    -- The calls of tools for an id are not more than the lines about it that are no denials.
    pub Steps-called :
        (p q : Pump T) (s : Steps h max lo hi p q)
        → tool_calls h max lo hi id s + total (executed id) p.runner.log
          ≤ total (executed id) q.runner.log
    unfolding tool_calls
    Steps-called p q Steps.here = omega arith
    Steps-called p q (Steps.later {q = m} before last) =
        omega (arith, Steps-called p m before, Step-called m q last)
