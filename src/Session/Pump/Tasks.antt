-- ===== src/Session/Pump/Tasks.antt =====
-- What a goroutine does in its two halves, and how sums over the tasks change.
use butterstack_connector.Prelude.{
  ℕ, suc, ◌+◌, ◌≡◌, ◌⊎◌, inl, inr, refl, sym, Bool, true, false, List, [], ◌∷◌, ◌++◌, arith,
  Bool-cases, length,
}
use butterstack_connector.Protocol.{Command, Status, ResultFrame, deny}
use butterstack_connector.Audit.{DetailText}
use butterstack_connector.Vocab.Schema.{reason_token, malformed_args, duplicate_command_id}
use butterstack_connector.Vocab.Resolve.{resolve, is_empty}
use butterstack_connector.Session.Dedupe.{claim}
use butterstack_connector.Session.Handle.{Body, Host, Runner, finish, handle}
use butterstack_connector.Session.Handle.Outcome.{
  Answered, resolve-Answers, is_empty-nil, finish-Answered, decide-Answered,
}
use butterstack_connector.Session.Handle.Replay.{decide_seen}
use butterstack_connector.Session.Pump.{Task, begin_task, conclude_task}

module _ {A : Type 0} (f : A → ℕ) where
  abbrev pub total : List A → ℕ
  total [] = 0
  total (x ∷ xs) = f x + total xs

  pub total-split : (xs ys : List A) (x : A) → total (xs ++ x ∷ ys) ≡ f x + total (xs ++ ys)
  total-split [] ys x = refl
  total-split (z ∷ xs) ys x = omega (arith, total-split xs ys x)

  pub total-append : (xs ys : List A) → total (xs ++ ys) ≡ total xs + total ys
  total-append [] ys = omega arith
  total-append (z ∷ xs) ys = omega (arith, total-append xs ys)

pub length-split :
    {A : Type 0} (xs ys : List A) (x : A) → length (xs ++ x ∷ ys) ≡ suc (length (xs ++ ys))
length-split [] ys x = refl
length-split (z ∷ xs) ys x = omega (arith, length-split xs ys x)

module _ {T : Type 0} (h : Host T) where
  -- What the first half leaves: a result, when the command has no id, or the answer of `claim`.
  abbrev pub Begun : Runner → ℕ → Command → Runner × Task T → Type 0
  Begun r now cmd (r', t) =
      ((res : ResultFrame (Body T)) × (t ≡ Task.finished res)
        × (r'.seen ≡ r.seen)
        × (res.status ≡ Status.denied)
        × Answered h r cmd (r', res))
      ⊎ ((fresh : Bool) × (t ≡ Task.claimed cmd fresh)
          × (claim now cmd.id r.seen ≡ (fresh, r'.seen))
          × (r'.log ≡ r.log))

  pub begin_task-Begun :
      (r : Runner) (now : ℕ) (cmd : Command) → Begun r now cmd (begin_task h r now cmd)
  unfolding begin_task
  begin_task-Begun r now cmd = elim (Bool-cases (is_empty cmd.id)) [
    | inl e ↦
        rw (e, begin_task)
          (inl (
            _,
            refl,
            unfold finish in refl,
            refl,
            finish-Answered h r cmd (deny [] (reason_token malformed_args)) _
                (sym (is_empty-nil cmd.id e)),
          ))
    | inr n ↦ rw (n, begin_task) (inr ((claim now cmd.id r.seen).0, refl, refl, refl))
  ]

  pub conclude_task-Answered :
      (r : Runner) (cmd : Command) (overdue fresh : Bool)
      → Answered h r cmd (conclude_task h r cmd overdue fresh)
  unfolding conclude_task
  conclude_task-Answered r cmd overdue true =
      decide-Answered h r cmd overdue (resolve cmd.verb cmd.args h.scopes h.tools)
        (resolve-Answers cmd.verb cmd.args h.scopes h.tools)
  conclude_task-Answered r cmd overdue false =
      finish-Answered h r cmd (deny cmd.id (reason_token duplicate_command_id)) DetailText.empty
        refl

  pub conclude_task_seen :
      (r : Runner) (cmd : Command) (overdue fresh : Bool)
      → (conclude_task h r cmd overdue fresh).0.seen ≡ r.seen
  unfolding conclude_task finish
  conclude_task_seen r cmd overdue true =
      decide_seen h r cmd overdue (resolve cmd.verb cmd.args h.scopes h.tools)
  conclude_task_seen r cmd overdue false = refl

  pub conclude_task_denied :
      (r : Runner) (cmd : Command) (overdue : Bool)
      → (conclude_task h r cmd overdue false).1.status ≡ Status.denied
  unfolding conclude_task finish
  conclude_task_denied r cmd overdue = refl

  -- A goroutine's second half, behind its first.
  abbrev resume : Bool → Runner × Task T → Runner × Task T
  resume overdue (r, Task.waiting cmd) = (r, Task.waiting cmd)
  resume overdue (r, Task.claimed cmd fresh) =
      let (r', res) = conclude_task h r cmd overdue fresh in (r', Task.finished res)
  resume overdue (r, Task.finished res) = (r, Task.finished res)

  -- A goroutine whose halves run without an interruption does what `handle` does: the same state,
  -- and the same result to write.
  resume-begin_task :
      (r : Runner) (now : ℕ) (overdue : Bool) (cmd : Command)
      → resume overdue (begin_task h r now cmd)
        ≡ ((handle h r now overdue cmd).0, Task.finished (handle h r now overdue cmd).1)
  unfolding handle begin_task conclude_task
  resume-begin_task r now overdue cmd = elim (Bool-cases (is_empty cmd.id)) [
    | inl e ↦ rw (e, handle, begin_task)
    | inr n ↦
        rw (n, handle, begin_task)
          (elim (Bool-cases (claim now cmd.id r.seen).0) [ inl f ↦ rw f | inr f ↦ rw f ])
  ]
