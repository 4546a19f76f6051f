-- ===== src/Tests/Pump.antt =====
-- The properties of the pump at concrete inputs.
use butterstack_connector.Prelude.{
  ℕ, ◌+◌, ◌*◌, ◌≤◌, ◌≡◌, ◌⊎◌, refl, true, false, [], ◌∷◌, some, Bytes, codes, bytes_eq, arith,
  length,
}
use butterstack_connector.Json.{Json, is_field, decode_string, str, obj, end, field}
use butterstack_connector.Protocol.{store_command, unmarshal, decode_envelope, store_envelope}
use butterstack_connector.Vocab.Resolve.{resolve}
use butterstack_connector.Session.Dedupe.{claim}
use butterstack_connector.Session.Handle.{Host, decide, perform, conclude, execute, finish}
use butterstack_connector.Session.Pump.{
  Task, Pump, new_pump, receive, sort_message, begin_task, conclude_task, Work, Step, Steps,
}
use butterstack_connector.Session.Pump.Tasks.{total}
use butterstack_connector.Session.Pump.Balance.{IsBalanced}
use butterstack_connector.Session.Pump.Invariant.{new_pump-IsBalanced}
use butterstack_connector.Session.Pump.Trace.{results_made, tool_calls}
use butterstack_connector.Session.Pump.Counting.{executed}
use butterstack_connector.Session.Pump.Once.{steps_once}
use butterstack_connector.Session.Pump.Progress.{
  IsQuiet, WorkRun, answers, outstanding, pump_drains,
}
use butterstack_connector.Tests.Session.{game_host, answering, fresh_runner, changes_command}

abbrev host : Host ℕ
host = game_host answering

abbrev ping_frame : Json
ping_frame = obj (
    field (codes "type") (str (codes "command"))
      (field (codes "id") (str (codes "c1")) (field (codes "verb") (str (codes "sys.ping")) end)))

-- A command is read, started, claimed, answered and sent, with a heartbeat in between.
unfoldable some_run : (p : Pump ℕ) × Steps host 4 0 9 (new_pump fresh_runner) p
unfolding codes sort_message decode_envelope unmarshal store_command store_envelope is_field
    decode_string receive begin_task claim conclude_task resolve decide perform conclude execute
    finish
some_run = (
  _,
  Steps.later
      (Steps.later
        (Steps.later
          (Steps.later
            (Steps.later (Steps.later Steps.here (Step.receives (some ping_frame) refl))
              (Step.works (Work.acquires refl (omega arith))))
            (Step.beats refl refl))
          (Step.works (Work.begins [] [] _ 5 refl (omega arith) (omega arith) refl)))
        (Step.works (Work.concludes [] [] _ false true refl refl)))
      (Step.works (Work.sends [] [] _ refl refl)),
)

some_run_sent :
    (length (some_run.0).sent ≡ 2)
    × (outstanding (codes "c1") some_run.0 ≡ 0)
    × (answers (codes "c1") some_run.0 ≡ 1)
unfolding some_run bytes_eq
some_run_sent = (refl, refl, refl)

new_pump-IsBalanced_example :
    IsBalanced 4 fresh_runner (results_made host 4 0 9 some_run.1) some_run.0
new_pump-IsBalanced_example = new_pump-IsBalanced host 4 0 9 fresh_runner some_run.0 some_run.1

steps_once_example :
    (tool_calls host 4 0 9 (codes "c1") some_run.1 ≤ 1)
    × (total (executed (codes "c1")) (some_run.0).runner.log
        ≤ total (executed (codes "c1")) fresh_runner.log + 1)
steps_once_example =
    steps_once host (codes "c1") 4 0 9 fresh_runner some_run.0 (omega arith) some_run.1

-- A pump with one command, which is claimed.
abbrev one_command : Pump ℕ
one_command = record (new_pump fresh_runner) { tasks = Task.waiting (changes_command "c1") ∷ [] }

abbrev claimed_command : Pump ℕ
claimed_command = record one_command {
  runner = (begin_task host fresh_runner 5 (changes_command "c1")).0;
  tasks = (begin_task host fresh_runner 5 (changes_command "c1")).1 ∷ [];
}

abbrev claiming : WorkRun host 4 0 9 one_command 1 claimed_command
claiming =
    WorkRun.later WorkRun.here
      (Work.begins [] [] (changes_command "c1") 5 refl (omega arith) (omega arith) refl)

pump_drains_example :
    (1 ≤ 3 * length one_command.tasks + 4)
    × (IsQuiet claimed_command ⊎ ((r : Pump ℕ) × Work host 4 0 9 claimed_command r))
    × (one_command.is_open ≡ true
        → one_command.cancelled ≡ false
        → (id : Bytes)
        → answers id claimed_command + outstanding id claimed_command
          ≡ answers id one_command + outstanding id one_command)
pump_drains_example =
    pump_drains host 4 0 9 1 one_command claimed_command (omega arith) (omega arith) claiming
