-- ===== src/Session/Pump/Invariant.antt =====
-- What holds of the pump after any interleaving of its steps.
use butterstack_connector.Prelude.{
  ℕ, ◌+◌, ◌≡◌, inl, inr, refl, sym, ap, ◌∙◌, List, [], ◌∷◌, ◌++◌, arith, length,
}
use butterstack_connector.Protocol.{Command, ResultFrame}
use butterstack_connector.Session.Handle.{Body, Host, Runner}
use butterstack_connector.Session.Pump.{
  Task, Written, Pump, new_pump, begin_task, receive, sort_message, Work, Step, Steps,
}
use butterstack_connector.Session.Pump.Trace.{result_of, work_made, step_made, results_made}
use butterstack_connector.Session.Pump.Tasks.{
  total, total-append, begin_task-Begun, conclude_task-Answered,
}
use butterstack_connector.Session.Pump.Balance.{
  Weight, line_by, frame_by, finished_by, written_by, IsDepthBelow, IsBalanced, All-append,
  answer_line, receive-IsBalanced, lengths, weights, result_weight,
}

module _ {T : Type 0} where
  module _ (h : Host T) (max lo hi : ℕ) (start : Runner) where
    begin_lines :
        (f : Weight) (r r' : Runner) (now : ℕ) (cmd : Command) (t : Task T)
        → begin_task h r now cmd ≡ (r', t)
        → total (line_by f) r'.log ≡ total (line_by f) r.log + finished_by (frame_by f) t
    begin_lines f r r' now cmd t e = elim (rw e at (begin_task-Begun h r now cmd)) [
      | inl (res, is, kept, noid, a) ↦
          answer_line f h r r' cmd res a
          ∙ ap (λ u. total (line_by f) r.log + finished_by (frame_by f) u) (sym is)
      | inr (fresh, is, claimed, same) ↦
          omega (arith, ap (total (line_by f)) same, ap (finished_by (frame_by f)) is)
    ]

    -- A step of work that makes no result and leaves the log alone.
    module _ (made : List (ResultFrame (Body T))) where
      same_made : (f : ResultFrame (Body T) → ℕ) → total f (made ++ []) ≡ total f made
      same_made f = omega (arith, total-append f made [])

      Work-IsBalanced :
          (p q : Pump T)
          → IsBalanced max start made p
          → (w : Work h max lo hi p q) → IsBalanced max start (made ++ work_made h max lo hi w) q
      unfolding work_made
      Work-IsBalanced p q b (Work.acquires held room) = record {
        bounded = omega arith;
        depths = b.depths;
        accounted = λ f. omega (arith, same_made f, b.accounted f);
        recorded = λ f. omega (arith, same_made (frame_by f), b.recorded f);
      }
      Work-IsBalanced p q b (Work.abandons held done) = record {
        bounded = b.bounded;
        depths = b.depths;
        accounted = λ f. omega (arith, same_made f, b.accounted f);
        recorded = λ f. omega (arith, same_made (frame_by f), b.recorded f);
      }
      Work-IsBalanced p q b (Work.begins before after cmd now {r} {t} at l u e) =
          let len = lengths p.tasks before after (Task.waiting cmd) at in
          let len' = lengths (before ++ t ∷ after) before after t refl in
          record {
            bounded = omega (arith, b.bounded, len, len');
            depths = b.depths;
            accounted = λ f. omega (
              arith,
              b.accounted f,
              weights f p.tasks before after (Task.waiting cmd) at,
              weights f (before ++ t ∷ after) before after t refl,
              total-append f made (result_of t),
              result_weight f t,
            );
            recorded = λ f. omega (
              arith,
              b.recorded f,
              total-append (frame_by f) made (result_of t),
              result_weight (frame_by f) t,
              begin_lines f p.runner r now cmd t e,
            );
          }
      Work-IsBalanced p q b (Work.concludes before after cmd overdue fresh {r} {res} at e) =
          let t : Task T = Task.finished res in
          let len = lengths p.tasks before after (Task.claimed cmd fresh) at in
          let len' = lengths (before ++ t ∷ after) before after t refl in
          record {
            bounded = omega (arith, b.bounded, len, len');
            depths = b.depths;
            accounted = λ f. omega (
              arith,
              b.accounted f,
              weights f p.tasks before after (Task.claimed cmd fresh) at,
              weights f (before ++ t ∷ after) before after t refl,
              total-append f made (res ∷ []),
            );
            recorded = λ f. omega (
              arith,
              b.recorded f,
              total-append (frame_by f) made (res ∷ []),
              answer_line f h p.runner r cmd res
                  (rw e at (conclude_task-Answered h p.runner cmd overdue fresh)),
            );
          }
      Work-IsBalanced p q b (Work.sends before after res at o) =
          let len = lengths p.tasks before after (Task.finished res) at in
          record {
            bounded = omega (arith, b.bounded, len);
            depths = All-append (IsDepthBelow max) p.sent (Written.result res) b.depths tt;
            accounted = λ f. omega (
              arith,
              same_made f,
              b.accounted f,
              weights f p.tasks before after (Task.finished res) at,
              total-append (written_by f) p.sent (Written.result res ∷ []),
            );
            recorded = λ f. omega (arith, same_made (frame_by f), b.recorded f);
          }
      Work-IsBalanced p q b (Work.loses before after res at c) =
          let len = lengths p.tasks before after (Task.finished res) at in
          record {
            bounded = omega (arith, b.bounded, len);
            depths = b.depths;
            accounted = λ f. omega (
              arith,
              same_made f,
              b.accounted f,
              weights f p.tasks before after (Task.finished res) at,
            );
            recorded = λ f. omega (arith, same_made (frame_by f), b.recorded f);
          }

      -- A step that writes no result.
      wrote :
          (p : Pump T) (w : Written T)
          → ((f : ResultFrame (Body T) → ℕ) → written_by f w ≡ 0)
          → (f : ResultFrame (Body T) → ℕ)
          → total (written_by f) (p.sent ++ w ∷ []) ≡ total (written_by f) p.sent
      wrote p w z f = omega (arith, z f, total-append (written_by f) p.sent (w ∷ []))

      Step-IsBalanced :
          (p q : Pump T)
          → IsBalanced max start made p
          → (s : Step h max lo hi p q) → IsBalanced max start (made ++ step_made h max lo hi s) q
      unfolding step_made
      Step-IsBalanced p q b (Step.works w) = Work-IsBalanced p q b w
      Step-IsBalanced p q b (Step.receives raw f) =
          let c : IsBalanced max start made (receive p (sort_message raw)) =
            receive-IsBalanced max start made p (sort_message raw) b in
          record {
            bounded = c.bounded;
            depths = c.depths;
            accounted = λ f. omega (arith, same_made f, c.accounted f);
            recorded = λ f. omega (arith, same_made (frame_by f), c.recorded f);
          }
      Step-IsBalanced p q b (Step.beats o i) = record {
        bounded = b.bounded;
        depths =
            All-append (IsDepthBelow max) p.sent (Written.heartbeat (length p.tasks)) b.depths
              b.bounded;
        accounted = λ f. omega (
          arith,
          same_made f,
          b.accounted f,
          wrote p (Written.heartbeat (length p.tasks)) (λ g. refl) f,
        );
        recorded = λ f. omega (arith, same_made (frame_by f), b.recorded f);
      }
      Step-IsBalanced p q b (Step.pings o i) = record {
        bounded = b.bounded;
        depths = All-append (IsDepthBelow max) p.sent Written.ping b.depths tt;
        accounted =
            λ f. omega (arith, same_made f, b.accounted f, wrote p Written.ping (λ g. refl) f);
        recorded = λ f. omega (arith, same_made (frame_by f), b.recorded f);
      }
      Step-IsBalanced p q b Step.breaks = record {
        bounded = b.bounded;
        depths = b.depths;
        accounted = λ f. omega (arith, same_made f, b.accounted f);
        recorded = λ f. omega (arith, same_made (frame_by f), b.recorded f);
      }
      Step-IsBalanced p q b Step.cancels = record {
        bounded = b.bounded;
        depths = b.depths;
        accounted = λ f. omega (arith, same_made f, b.accounted f);
        recorded = λ f. omega (arith, same_made (frame_by f), b.recorded f);
      }

    -- However the steps of the pump interleave, at most `max` goroutines run, and no heartbeat
    -- reports more. Each result that a goroutine made is to be written, was written as it was made,
    -- or was lost on a connection that no longer takes writes, and no other result was written; each
    -- has its line about a command in the log since the start, with its id, status, reason, size and
    -- truncation, and no other such line was added.
    pub new_pump-IsBalanced :
        (p : Pump T) (s : Steps h max lo hi (new_pump start) p)
        → IsBalanced max start (results_made h max lo hi s) p
    unfolding results_made
    new_pump-IsBalanced p Steps.here = record {
      bounded = omega arith;
      depths = tt;
      accounted = λ f. omega arith;
      recorded = λ f. omega arith;
    }
    new_pump-IsBalanced p (Steps.later {q = m} before last) =
        Step-IsBalanced (results_made h max lo hi before) m p (new_pump-IsBalanced m before) last
