-- ===== src/Session/Pump/Once.antt =====
-- Duplicates among commands whose goroutines interleave.
use butterstack_connector.Prelude.{
  ℕ, ◌+◌, ◌≤◌, ◌≡◌, ◌⊎◌, inl, inr, sym, ap, ◌∙◌, Bool, false, ◌&&◌, ◌++◌, some, Bytes, codes,
  bytes_eq, bytes_eq_sound, arith, Bool-cases,
}
use butterstack_connector.Protocol.{Command, ResultFrame}
use butterstack_connector.Session.Limits.{dedupe_window}
use butterstack_connector.Session.Dedupe.{Seen, seen_at, claim}
use butterstack_connector.Session.Dedupe.Replay.{refused, claim_kept, claim-seen_at}
use butterstack_connector.Session.Handle.{Body, Host, Runner}
use butterstack_connector.Session.Pump.{
  Inbound, Task, Pump, new_pump, dropped_entry, ignored_entry, begin_task, receive, sort_message,
  Work, Step, Steps,
}
use butterstack_connector.Session.Pump.Tasks.{
  total, total-split, begin_task-Begun, conclude_task_seen,
}
use butterstack_connector.Session.Pump.Trace.{tool_calls}
use butterstack_connector.Session.Pump.Calling.{Steps-called}
use butterstack_connector.Session.Pump.Counting.{
  one_if, executed, running, executed_added, conclude_lines, begin_lines,
}

module _ {T : Type 0} (h : Host T) (id : Bytes) where
  -- The uses of the id: the lines that it has and those that it may still get.
  used : Pump T → ℕ
  used p = total (executed id) p.runner.log + total (running id) p.tasks

  module _ (max lo hi : ℕ) (start : Runner) where
    -- The id has not been let through since the start, or once, at a time that the map has.
    record IsOnce (seen : Seen) (n : ℕ) : Type 0 where
      once :
          (n ≤ total (executed id) start.log)
          ⊎ ((n ≤ total (executed id) start.log + 1)
              × (t : ℕ) × (seen_at seen id ≡ some t)
              × (lo ≤ t))

    less-IsOnce : (seen : Seen) (n n' : ℕ) → n' ≤ n → IsOnce seen n → IsOnce seen n'
    less-IsOnce seen n n' le o = elim o.once [
      | inl few ↦ record { once = inl (omega arith) }
      | inr (few, t, s, late) ↦ record { once = inr (omega arith, t, s, late) }
    ]

    -- A claim keeps it, when a use is counted for an answer that lets the id through.
    claim-IsOnce :
        (now : ℕ) (i : Bytes) (seen : Seen) (n : ℕ)
        → lo ≤ now
        → now ≤ hi
        → hi ≤ lo + dedupe_window
        → IsOnce seen n
        → IsOnce (claim now i seen).1 (n + one_if ((claim now i seen).0 && bytes_eq i id))
    claim-IsOnce now i seen n l u w o = elim (Bool-cases (bytes_eq i id)) [
      | inl e ↦
          let same : i ≡ id = bytes_eq_sound i id e in
          elim (Bool-cases (claim now i seen).0) [
            | inl f ↦ elim o.once [
              | inl few ↦ record {
                once = inr (
                  ground arith,
                  now,
                  ap (seen_at (claim now i seen).1) (sym same) ∙ claim-seen_at now i seen f,
                  l,
                );
              }
              | inr (few, t, s, late) ↦
                  let refusal : (claim now i seen).0 ≡ false =
                    ap (λ j. (claim now j seen).0) same
                    ∙ ap (λ (r : Bool × Seen). r.0) (refused now t id seen (omega arith) s) in
                  cc
            ]
            | inr f ↦ less-IsOnce _ _ _ (ground arith) (kept o)
          ]
      | inr e ↦ less-IsOnce _ _ _ (ground arith) (kept o)
    ]
      where
        kept : IsOnce seen n → IsOnce (claim now i seen).1 n
        kept o = elim o.once [
          | inl few ↦ record { once = inl few }
          | inr (few, t, s, late) ↦ record {
            once = inr (few, t, claim_kept now t id i seen (omega arith) s, late);
          }
        ]

    begin-IsOnce :
        (r r' : Runner) (n : ℕ) (now : ℕ) (cmd : Command) (t : Task T)
        → lo ≤ now
        → now ≤ hi
        → hi ≤ lo + dedupe_window
        → begin_task h r now cmd ≡ (r', t)
        → IsOnce r.seen n
        → IsOnce r'.seen (n + running id t)
    begin-IsOnce r r' n now cmd t l u w e o = elim (rw e at (begin_task-Begun h r now cmd)) [
      | inl (res, is, kept, denied, a) ↦ rw (is, kept) (less-IsOnce r.seen n _ (omega arith) o)
      | inr (fresh, is, claimed, same) ↦
          let c : IsOnce (claim now cmd.id r.seen).1
              (n + one_if ((claim now cmd.id r.seen).0 && bytes_eq cmd.id id)) =
            claim-IsOnce now cmd.id r.seen n l u w o in
          rw is (rw claimed at c)
    ]

    Work-IsOnce :
        (p q : Pump T)
        → hi ≤ lo + dedupe_window
        → Work h max lo hi p q
        → IsOnce p.runner.seen (used p)
        → IsOnce q.runner.seen (used q)
    unfolding used
    Work-IsOnce p q w (Work.acquires held room) o = less-IsOnce p.runner.seen _ _ (omega arith) o
    Work-IsOnce p q w (Work.abandons held done) o = o
    Work-IsOnce p q w (Work.begins before after cmd now {r} {t} at l u e) o =
        let gone : total (running id) p.tasks ≡ total (running id) (before ++ after) =
          ap (total (running id)) at
          ∙ omega (arith, total-split (running id) before after (Task.waiting cmd)) in
        less-IsOnce r.seen _ _
          (omega (
            arith,
            gone,
            begin_lines h id p.runner r now cmd t e,
            total-split (running id) before after t,
          ))
          (begin-IsOnce p.runner r _ now cmd t l u w e o)
    Work-IsOnce p q w (Work.concludes before after cmd overdue fresh {r} {res} at e) o =
        let gone : total (running id) p.tasks
            ≡ running {T = T} id (Task.claimed cmd fresh) + total (running id) (before ++ after) =
          ap (total (running id)) at
          ∙ total-split (running id) before after (Task.claimed cmd fresh) in
        let kept : r.seen ≡ p.runner.seen =
          ap (λ (s : Runner × ResultFrame (Body T)). s.0.seen) (sym e)
          ∙ conclude_task_seen h p.runner cmd overdue fresh in
        rw kept (
          less-IsOnce p.runner.seen _ _
            (omega (
              arith,
              gone,
              conclude_lines h id p.runner r cmd overdue fresh res e,
              total-split (running id) before after (Task.finished res),
            ))
            o)
    Work-IsOnce p q w (Work.sends before after res at open') o =
        less-IsOnce p.runner.seen _ _
          (omega (
            arith,
            ap (total (running id)) at,
            total-split (running id) before after (Task.finished res),
          ))
          o
    Work-IsOnce p q w (Work.loses before after res at broken) o =
        less-IsOnce p.runner.seen _ _
          (omega (
            arith,
            ap (total (running id)) at,
            total-split (running id) before after (Task.finished res),
          ))
          o

    receive-IsOnce :
        (p : Pump T) (m : Inbound)
        → IsOnce p.runner.seen (used p)
        → IsOnce (receive p m).runner.seen (used (receive p m))
    unfolding used receive bytes_eq codes
    receive-IsOnce p (Inbound.dropped reason) o =
        less-IsOnce p.runner.seen _ _
          (omega (arith, executed_added id p.runner.log (dropped_entry reason))) o
    receive-IsOnce p (Inbound.ignored kind) o =
        less-IsOnce p.runner.seen _ _
          (omega (arith, executed_added id p.runner.log (ignored_entry kind))) o
    receive-IsOnce p (Inbound.command cmd) o = o

    Step-IsOnce :
        (p q : Pump T)
        → hi ≤ lo + dedupe_window
        → Step h max lo hi p q
        → IsOnce p.runner.seen (used p)
        → IsOnce q.runner.seen (used q)
    unfolding used
    Step-IsOnce p q w (Step.works x) o = Work-IsOnce p q w x o
    Step-IsOnce p q w (Step.receives raw f) o = receive-IsOnce p (sort_message raw) o
    Step-IsOnce p q w (Step.beats open' i) o = o
    Step-IsOnce p q w (Step.pings open' i) o = o
    Step-IsOnce p q w Step.breaks o = o
    Step-IsOnce p q w Step.cancels o = o

    Steps-IsOnce :
        (p q : Pump T)
        → hi ≤ lo + dedupe_window
        → Steps h max lo hi p q
        → IsOnce p.runner.seen (used p)
        → IsOnce q.runner.seen (used q)
    Steps-IsOnce p q w Steps.here o = o
    Steps-IsOnce p q w (Steps.later {q = r} before last) o =
        Step-IsOnce r q w last (Steps-IsOnce p r w before o)

    -- While the clock stays within ten minutes, however the goroutines of commands interleave, at
    -- most one command with an id is executed: at most one call of a tool is made for the commands
    -- with the id, and the log gains at most one line about it that is not a denial.
    pub steps_once :
        (p : Pump T)
        → hi ≤ lo + dedupe_window
        → (s : Steps h max lo hi (new_pump start) p)
        → (tool_calls h max lo hi id s ≤ 1)
          × (total (executed id) p.runner.log ≤ total (executed id) start.log + 1)
    unfolding used
    steps_once p w s =
        let called = Steps-called h id max lo hi (new_pump start) p s in
        elim (Steps-IsOnce (new_pump start) p w s (record { once = inl (omega arith) })).once [
          | inl few ↦ (omega (arith, called), omega arith)
          | inr (few, t, s', late) ↦ (omega (arith, called), omega arith)
        ]
