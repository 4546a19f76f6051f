-- ===== src/Session/Pump/Progress.antt =====
-- The goroutines of commands come to an end, so that `wg.Wait` returns and commands are answered.
use butterstack_connector.Prelude.{
  ℕ, suc, ◌+◌, ◌*◌, ◌≤◌, ◌≡◌, ◌⊎◌, inl, inr, refl, ap, ◌∙◌, Bool, true, false, List, [], ◌∷◌, ◌++◌,
  Option, none, some, arith, length, Bytes, bytes_eq, Bool-cases, Option-cases,
}
use butterstack_connector.Protocol.{Command, ResultFrame}
use butterstack_connector.Session.Handle.{Body, Host, Runner}
use butterstack_connector.Session.Pump.{Task, Written, Pump, begin_task, conclude_task, Work}
use butterstack_connector.Session.Pump.Tasks.{
  total, total-split, total-append, length-split, begin_task-Begun, conclude_task-Answered,
}
use butterstack_connector.Session.Pump.Counting.{one_if}

-- Whether a held command has the id.
abbrev pub held_for : Bytes → Option Command → ℕ
held_for id none = 0
held_for id (some cmd) = one_if (bytes_eq cmd.id id)

abbrev held_count : Option Command → ℕ
held_count none = 0
held_count (some cmd) = 1

module _ {T : Type 0} where
  -- The steps that a goroutine has left, and with the read loop's start of one.
  abbrev task_weight : Task T → ℕ
  task_weight (Task.waiting cmd) = 3
  task_weight (Task.claimed cmd fresh) = 2
  task_weight (Task.finished res) = 1

  weight : Pump T → ℕ
  weight p = 4 * held_count p.held + total task_weight p.tasks

  abbrev pub task_id : Task T → Bytes
  task_id (Task.waiting cmd) = cmd.id
  task_id (Task.claimed cmd fresh) = cmd.id
  task_id (Task.finished res) = res.id

  abbrev pub task_for : Bytes → Task T → ℕ
  task_for id t = one_if (bytes_eq (task_id t) id)

  abbrev pub answer_for : Bytes → Written T → ℕ
  answer_for id (Written.result res) = one_if (bytes_eq res.id id)
  answer_for id _ = 0

  -- Commands with the id that were read and have no answer yet, and answers written with it.
  abbrev pub outstanding : Bytes → Pump T → ℕ
  outstanding id p = held_for id p.held + total (task_for id) p.tasks

  abbrev pub answers : Bytes → Pump T → ℕ
  answers id p = total (answer_for id) p.sent

  abbrev pub IsQuiet : Pump T → Type 0
  IsQuiet p = (p.held ≡ none) × (p.tasks ≡ [])

  total_bound : (ts : List (Task T)) → total task_weight ts ≤ 3 * length ts
  total_bound [] = omega arith
  total_bound (Task.waiting cmd ∷ ts) = omega (arith, total_bound ts)
  total_bound (Task.claimed cmd fresh ∷ ts) = omega (arith, total_bound ts)
  total_bound (Task.finished res ∷ ts) = omega (arith, total_bound ts)

  module _ (h : Host T) (max lo hi : ℕ) where
    -- What a step of work changes.
    record Worked (p q : Pump T) : Type 0 where
      lighter : suc (weight q) ≤ weight p
      still : (q.is_open ≡ p.is_open) × (q.cancelled ≡ p.cancelled)
      kept :
          p.is_open ≡ true
          → p.cancelled ≡ false
          → (id : Bytes) → answers id q + outstanding id q ≡ answers id p + outstanding id p

    begun_weight :
        (r r' : Runner) (now : ℕ) (cmd : Command) (t : Task T)
        → begin_task h r now cmd ≡ (r', t)
        → task_weight t ≤ 2
    begun_weight r r' now cmd t e = elim (rw e at (begin_task-Begun h r now cmd)) [
      | inl (res, is, kept, denied, a) ↦ rw is (omega arith)
      | inr (fresh, is, claimed, same) ↦ rw is (omega arith)
    ]

    -- An answer has the id of its command.
    begun_id :
        (r r' : Runner) (now : ℕ) (cmd : Command) (t : Task T)
        → begin_task h r now cmd ≡ (r', t)
        → task_id t ≡ cmd.id
    begun_id r r' now cmd t e = elim (rw e at (begin_task-Begun h r now cmd)) [
      | inl (res, is, kept, denied, a) ↦ ap task_id is ∙ a.2
      | inr (fresh, is, claimed, same) ↦ ap task_id is
    ]

    concluded_id :
        (r r' : Runner) (cmd : Command) (overdue fresh : Bool) (res : ResultFrame (Body T))
        → conclude_task h r cmd overdue fresh ≡ (r', res)
        → res.id ≡ cmd.id
    concluded_id r r' cmd overdue fresh res e =
        (rw e at (conclude_task-Answered h r cmd overdue fresh)).2

    split_for :
        (id : Bytes) (tasks before after : List (Task T)) (t : Task T)
        → tasks ≡ before ++ t ∷ after
        → total (task_for id) tasks ≡ task_for id t + total (task_for id) (before ++ after)
    split_for id tasks before after t e =
        ap (total (task_for id)) e ∙ total-split (task_for id) before after t

    -- The weight and the length of a list of tasks with `t` in it.
    measured :
        (tasks before after : List (Task T)) (t : Task T)
        → tasks ≡ before ++ t ∷ after
        → (total task_weight tasks ≡ task_weight t + total task_weight (before ++ after))
          × (length tasks ≡ suc (length (before ++ after)))
    measured tasks before after t e = (
      ap (total task_weight) e ∙ total-split task_weight before after t,
      ap length e ∙ length-split before after t,
    )

    Work-Worked : (p q : Pump T) → Work h max lo hi p q → Worked p q
    unfolding weight
    Work-Worked p q (Work.acquires {cmd} held room) =
        let full : held_count p.held ≡ 1 = ap held_count held in
        record {
          lighter = omega (arith, full);
          still = (refl, refl);
          kept = λ o c id. omega (arith, ap (held_for id) held);
        }
    Work-Worked p q (Work.abandons {cmd} held done) =
        let full : held_count p.held ≡ 1 = ap held_count held in
        record {
          lighter = omega (arith, full);
          still = (refl, refl);
          kept = λ o c id. cc (done, c);
        }
    Work-Worked p q (Work.begins before after cmd now {r} {t} at l u e) =
        let (w, len) = measured p.tasks before after (Task.waiting cmd) at in
        let (w', len') = measured (before ++ t ∷ after) before after t refl in
        record {
          lighter = omega (arith, w, w', begun_weight p.runner r now cmd t e);
          still = (refl, refl);
          kept = λ o c id. omega (
            arith,
            split_for id p.tasks before after (Task.waiting cmd) at,
            split_for id (before ++ t ∷ after) before after t refl,
            ap (λ i. one_if (bytes_eq i id)) (begun_id p.runner r now cmd t e),
          );
        }
    Work-Worked p q (Work.concludes before after cmd overdue fresh {r} {res} at e) =
        let (w, len) = measured p.tasks before after (Task.claimed cmd fresh) at in
        let t : Task T = Task.finished res in
        let (w', len') = measured (before ++ t ∷ after) before after t refl in
        record {
          lighter = omega (arith, w, w');
          still = (refl, refl);
          kept = λ o c id. omega (
            arith,
            split_for id p.tasks before after (Task.claimed cmd fresh) at,
            split_for id (before ++ t ∷ after) before after t refl,
            ap (λ i. one_if (bytes_eq i id)) (concluded_id p.runner r cmd overdue fresh res e),
          );
        }
    Work-Worked p q (Work.sends before after res at open') =
        let (w, len) = measured p.tasks before after (Task.finished res) at in
        record {
          lighter = omega (arith, w);
          still = (refl, refl);
          kept = λ o c id. omega (
            arith,
            split_for id p.tasks before after (Task.finished res) at,
            total-append (answer_for id) p.sent (Written.result res ∷ []),
          );
        }
    Work-Worked p q (Work.loses before after res at broken) =
        let (w, len) = measured p.tasks before after (Task.finished res) at in
        record { lighter = omega (arith, w); still = (refl, refl); kept = λ o c id. cc (broken, o) }

    -- The first task can go on.
    first_goes_on :
        (p : Pump T) (t : Task T) (ts : List (Task T))
        → lo ≤ hi
        → p.tasks ≡ t ∷ ts
        → (q : Pump T) × Work h max lo hi p q
    first_goes_on p (Task.waiting cmd) ts le e =
        (_, Work.begins [] ts cmd lo e (omega arith) le refl)
    first_goes_on p (Task.claimed cmd fresh) ts le e =
        (_, Work.concludes [] ts cmd false fresh e refl)
    first_goes_on p (Task.finished res) ts le e = elim (Bool-cases p.is_open) [
      | inl o ↦ (_, Work.sends [] ts res e o)
      | inr c ↦ (_, Work.loses [] ts res e c)
    ]

    goes_on : (p : Pump T) → 1 ≤ max → lo ≤ hi → IsQuiet p ⊎ ((q : Pump T) × Work h max lo hi p q)
    goes_on p m le = go p.tasks refl
      where
        go : (ts : List (Task T)) → p.tasks ≡ ts → IsQuiet p ⊎ ((q : Pump T) × Work h max lo hi p q)
        go (t ∷ ts) e = inr (first_goes_on p t ts le e)
        go [] e = elim (Option-cases p.held) [
          | inl free ↦ inl (free, e)
          | inr (cmd, held) ↦ inr (_, Work.acquires held (omega (arith, ap length e)))
        ]

    pub data WorkRun (p : Pump T) : ℕ → Pump T → Type 0 where
      here : WorkRun p 0 p
      later : {n : ℕ} {q r : Pump T} → WorkRun p n q → Work h max lo hi q r → WorkRun p (suc n) r

    record WorkedFar (p : Pump T) (n : ℕ) (q : Pump T) : Type 0 where
      lighter : n + weight q ≤ weight p
      still : (q.is_open ≡ p.is_open) × (q.cancelled ≡ p.cancelled)
      kept :
          p.is_open ≡ true
          → p.cancelled ≡ false
          → (id : Bytes) → answers id q + outstanding id q ≡ answers id p + outstanding id p

    run-Worked : (p : Pump T) (n : ℕ) (q : Pump T) → WorkRun p n q → WorkedFar p n q
    run-Worked p n q WorkRun.here = record {
      lighter = omega arith;
      still = (refl, refl);
      kept = λ o c id. refl;
    }
    run-Worked p n q (WorkRun.later {n = k} {q = m} before last) =
        let far : WorkedFar p k m = run-Worked p k m before in
        let near : Worked m q = Work-Worked m q last in
        record {
          lighter = omega (arith, far.lighter, near.lighter);
          still = (near.still.0 ∙ far.still.0, near.still.1 ∙ far.still.1);
          kept = λ o c id. near.kept (far.still.0 ∙ o) (far.still.1 ∙ c) id ∙ far.kept o c id;
        }

    -- The goroutines make a bounded number of steps, however they interleave and whatever the tools
    -- return, and as long as a command is without its answer one of them can go on. While the
    -- connection takes writes and the context is not cancelled, no command is lost: of the commands
    -- with an id, those that are no longer without an answer have one written, with that id.
    pub pump_drains :
        (n : ℕ) (p q : Pump T)
        → 1 ≤ max
        → lo ≤ hi
        → WorkRun p n q
        → (n ≤ 3 * length p.tasks + 4)
          × (IsQuiet q ⊎ ((r : Pump T) × Work h max lo hi q r))
          × (p.is_open ≡ true
              → p.cancelled ≡ false
              → (id : Bytes) → answers id q + outstanding id q ≡ answers id p + outstanding id p)
    unfolding weight
    pump_drains n p q m le run =
        let far : WorkedFar p n q = run-Worked p n q run in
        (
          omega (arith, far.lighter, total_bound p.tasks, held_bound p.held),
          goes_on q m le,
          far.kept,
        )
      where
        held_bound : (o : Option Command) → held_count o ≤ 1
        held_bound none = omega arith
        held_bound (some cmd) = omega arith
