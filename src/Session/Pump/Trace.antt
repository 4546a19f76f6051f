-- ===== src/Session/Pump/Trace.antt =====
-- What the steps of a run of the pump do: the results that the goroutines make, and the calls of
-- tools for the commands with an id.
use butterstack_connector.Prelude.{
  ℕ, ◌+◌, ◌-◌, List, [], ◌∷◌, ◌++◌, Bytes, bytes_eq, if◌then◌else◌, length,
}
use butterstack_connector.Protocol.{Command, ResultFrame}
use butterstack_connector.Session.Handle.{Body, Host, Runner}
use butterstack_connector.Session.Pump.{Task, Pump, Work, Step, Steps}

-- The calls of tools that a part of a command's goroutine makes, if the command has the id.
abbrev pub calls_for : Bytes → Command → Runner → Runner → ℕ
calls_for id cmd r r' = if bytes_eq cmd.id id then length r'.calls - length r.calls else 0

module _ {T : Type 0} where
  abbrev pub result_of : Task T → List (ResultFrame (Body T))
  result_of (Task.waiting cmd) = []
  result_of (Task.claimed cmd fresh) = []
  result_of (Task.finished res) = res ∷ []

  module _ (h : Host T) (max lo hi : ℕ) where
    unfoldable pub work_made : {p q : Pump T} → Work h max lo hi p q → List (ResultFrame (Body T))
    work_made (Work.acquires held room) = []
    work_made (Work.abandons held done) = []
    work_made (Work.begins before after cmd now {r} {t} at l u e) = result_of t
    work_made (Work.concludes before after cmd overdue fresh {r} {res} at e) = res ∷ []
    work_made (Work.sends before after res at o) = []
    work_made (Work.loses before after res at c) = []

    unfoldable pub step_made : {p q : Pump T} → Step h max lo hi p q → List (ResultFrame (Body T))
    unfolding work_made
    step_made (Step.works w) = work_made w
    step_made (Step.receives raw f) = []
    step_made (Step.beats o i) = []
    step_made (Step.pings o i) = []
    step_made Step.breaks = []
    step_made Step.cancels = []

    unfoldable pub results_made :
        {p q : Pump T} → Steps h max lo hi p q → List (ResultFrame (Body T))
    unfolding step_made
    results_made Steps.here = []
    results_made (Steps.later before last) = results_made before ++ step_made last

    module _ (id : Bytes) where
      unfoldable pub work_calls : {p q : Pump T} → Work h max lo hi p q → ℕ
      work_calls {p} (Work.acquires held room) = 0
      work_calls {p} (Work.abandons held done) = 0
      work_calls {p} (Work.begins before after cmd now {r} {t} at l u e) =
          calls_for id cmd p.runner r
      work_calls {p} (Work.concludes before after cmd overdue fresh {r} {res} at e) =
          calls_for id cmd p.runner r
      work_calls {p} (Work.sends before after res at o) = 0
      work_calls {p} (Work.loses before after res at c) = 0

      unfoldable pub step_calls : {p q : Pump T} → Step h max lo hi p q → ℕ
      unfolding work_calls
      step_calls (Step.works w) = work_calls w
      step_calls (Step.receives raw f) = 0
      step_calls (Step.beats o i) = 0
      step_calls (Step.pings o i) = 0
      step_calls Step.breaks = 0
      step_calls Step.cancels = 0

      unfoldable pub tool_calls : {p q : Pump T} → Steps h max lo hi p q → ℕ
      unfolding step_calls
      tool_calls Steps.here = 0
      tool_calls (Steps.later before last) = tool_calls before + step_calls last
