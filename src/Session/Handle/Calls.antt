-- ===== src/Session/Handle/Calls.antt =====
-- When `handle` touches a tool.
use mathlib.Core.List.{append-nil}
use butterstack_connector.Prelude.{
  ℕ, ◌≤◌, ◌≡◌, ◌≢◌, ◌⊎◌, inl, inr, refl, ap, ◌∙◌, Bool, true, false, List, [], ◌∷◌, ◌++◌, Bytes,
  arith, not, ◌&&◌, ◌||◌, leb, Bool-cases,
}
use butterstack_connector.Prelude.Int.{ℤ, pos, ◌≤ℤ◌}
use butterstack_connector.Protocol.{Command, Status, ResultFrame}
use butterstack_connector.Vocab.Schema.{Verb, Args}
use butterstack_connector.Vocab.Table.{vocabulary}
use butterstack_connector.Vocab.Resolve.{resolve, is_empty}
use butterstack_connector.Vocab.Resolve.Lookup.{Member}
use butterstack_connector.Vocab.Resolve.Allowed.{IsAllowed, resolve-IsAllowed}
use butterstack_connector.Session.Limits.{choose_deadline, choose_max_bytes, max_deadline}
use butterstack_connector.Session.Limits.Bounds.{choose_deadline_bounds, choose_max_bytes_bounds}
use butterstack_connector.Session.Dedupe.{Seen, claim}
use butterstack_connector.Session.Handle.Outcome.{Answers, resolve-Answers}
use butterstack_connector.Session.Handle.{
  ToolCall, Executed, Body, Host, Runner, tool_call, execute, finish, conclude, perform, decide,
  handle,
}

-- Every compiled verb has a size budget.
is_sized : List Verb → Bool
is_sized [] = true
is_sized (v ∷ vs) = (not v.compiled || leb 1 v.default_max_bytes) && is_sized vs

vocabulary_sized : is_sized vocabulary ≡ true
unfolding is_sized vocabulary
vocabulary_sized = refl

sized_verb :
    (vs : List Verb) (v : Verb)
    → is_sized vs ≡ true
    → Member vs v
    → v.compiled ≡ true
    → 1 ≤ v.default_max_bytes
unfolding is_sized
sized_verb [] v a m c = elim m [ ]
sized_verb (w ∷ vs) v a (inl same) c =
    let compiled : w.compiled ≡ true = ap (λ (x : Verb). x.compiled) same ∙ c in
    let sized : 1 ≤ w.default_max_bytes = ground arith in
    omega (arith, ap (λ (x : Verb). x.default_max_bytes) same)
sized_verb (w ∷ vs) v a (inr m) c = sized_verb vs v (ground arith) m c

pub not_empty-ne-nil : (s : Bytes) → is_empty s ≡ false → s ≢ []
not_empty-ne-nil [] h = cc
not_empty-ne-nil (c ∷ s) h = λ e. cc

module _ {T : Type 0} where
  -- The call is that of the command: its verb and its validated arguments, within the scopes, with
  -- a positive deadline and size within the limits, for an id that was not used in the window.
  pub record IsPermitted (h : Host T) (r : Runner) (now : ℕ) (cmd : Command) (call : ToolCall)
      : Type 0 where
    pub verb : Verb
    pub allowed : IsAllowed verb cmd.verb cmd.args h.scopes h.tools call.args
    pub tool_is : call.tool ≡ verb.tool
    pub verb_is : call.verb ≡ cmd.verb
    pub named : cmd.id ≢ []
    pub fresh : (claim now cmd.id r.seen).0 ≡ true
    pub some_time : pos 1 ≤ℤ call.deadline
    pub time_limit : call.deadline ≤ℤ max_deadline
    pub some_bytes : pos 1 ≤ℤ call.max_bytes
    pub bytes_limit : call.max_bytes ≤ℤ pos verb.default_max_bytes

  -- The state and the answer: no tool was called, or one, by a permitted call, and the answer is
  -- not a denial.
  abbrev pub Touches : Host T → Runner → ℕ → Command → Runner × ResultFrame (Body T) → Type 0
  Touches h r now cmd (r', res) =
      (r'.calls ≡ r.calls)
      ⊎ ((call : ToolCall) × (r'.calls ≡ r.calls ++ call ∷ [])
          × (res.status ≢ Status.denied)
          × IsPermitted h r now cmd call)

  pub execute_calls :
      (h : Host T) (v : Verb) (args : Args) (max_bytes deadline : ℤ)
      → ((execute h v args max_bytes deadline).1 ≡ [])
        ⊎ ((execute h v args max_bytes deadline).1 ≡ tool_call v args max_bytes deadline ∷ [])
  unfolding execute
  execute_calls h v args max_bytes deadline = ground arith

  pub conclude_calls :
      (h : Host T) (r : Runner) (cmd : Command) (overdue : Bool) (x : Executed (Body T))
      → ((conclude h r cmd overdue x).0.calls ≡ r.calls)
        × ((conclude h r cmd overdue x).1.status ≢ Status.denied)
  unfolding conclude finish
  conclude_calls h r cmd overdue x = ground arith

  permitted :
      (h : Host T) (r : Runner) (now : ℕ) (cmd : Command) (v : Verb) (args : Args)
      → cmd.id ≢ []
      → (claim now cmd.id r.seen).0 ≡ true
      → IsAllowed v cmd.verb cmd.args h.scopes h.tools args
      → IsPermitted h r now cmd (
          tool_call v args
            (choose_max_bytes cmd.max_bytes v.default_max_bytes)
            (choose_deadline cmd.deadline_ms))
  permitted h r now cmd v args named fresh allowed =
      let (some_time, time_limit) = choose_deadline_bounds cmd.deadline_ms in
      let (some_bytes, bytes_limit) =
        choose_max_bytes_bounds cmd.max_bytes v.default_max_bytes
          (sized_verb vocabulary v vocabulary_sized allowed.member allowed.compiled) in
      record {
        verb = v;
        allowed = allowed;
        tool_is = refl;
        verb_is = allowed.named;
        named = named;
        fresh = fresh;
        some_time = some_time;
        time_limit = time_limit;
        some_bytes = some_bytes;
        bytes_limit = bytes_limit;
      }

  perform-Touches :
      (h : Host T) (r : Runner) (m : Seen) (now : ℕ) (overdue : Bool) (cmd : Command) (v : Verb)
      (args : Args)
      → cmd.id ≢ []
      → (claim now cmd.id r.seen).0 ≡ true
      → IsAllowed v cmd.verb cmd.args h.scopes h.tools args
      → Touches h r now cmd (perform h (record r { seen = m }) cmd overdue v args)
  unfolding perform
  perform-Touches h r m now overdue cmd v args named fresh allowed =
      let size : ℤ = choose_max_bytes cmd.max_bytes v.default_max_bytes in
      let time : ℤ = choose_deadline cmd.deadline_ms in
      let made : List ToolCall = (execute h v args size time).1 in
      let (same, answered) =
        conclude_calls h (record r { seen = m; calls = r.calls ++ made }) cmd overdue
          (execute h v args size time).0 in
      elim (execute_calls h v args size time) [
        | inl quiet ↦ inl (same ∙ ap (λ t. r.calls ++ t) quiet ∙ append-nil r.calls)
        | inr one ↦ inr (
          tool_call v args size time,
          same ∙ ap (λ t. r.calls ++ t) one,
          answered,
          permitted h r now cmd v args named fresh allowed,
        )
      ]

  decide-Touches :
      (h : Host T) (r : Runner) (m : Seen) (now : ℕ) (overdue : Bool) (cmd : Command)
      → cmd.id ≢ []
      → (claim now cmd.id r.seen).0 ≡ true
      → Answers (resolve cmd.verb cmd.args h.scopes h.tools)
      → Touches h r now cmd (
          decide h (record r { seen = m }) cmd overdue (resolve cmd.verb cmd.args h.scopes h.tools))
  decide-Touches h r m now overdue cmd named fresh (inl (v, e, same)) =
      rw same (unfold decide finish in inl refl)
  decide-Touches h r m now overdue cmd named fresh (inr (v, args, same)) = rw same (
      unfold decide in
      perform-Touches h r m now overdue cmd v args named fresh
        ((resolve-IsAllowed v cmd.verb cmd.args h.scopes h.tools args).0 same))

  -- `handle` calls at most one tool, and only by a permitted call: for a new id, with the verb in
  -- the vocabulary, compiled and configured, its arguments validated and in scope, and the deadline
  -- and size within their limits. A denied command touches no tool.
  pub handle-Touches :
      (h : Host T) (r : Runner) (now : ℕ) (overdue : Bool) (cmd : Command)
      → Touches h r now cmd (handle h r now overdue cmd)
  unfolding handle
  handle-Touches h r now overdue cmd = elim (Bool-cases (is_empty cmd.id)) [
    | inl e ↦ rw (e, handle) (unfold finish in inl refl)
    | inr n ↦
        rw (n, handle)
          (elim (Bool-cases (claim now cmd.id r.seen).0) [
            | inl f ↦ rw f (
                decide-Touches h r (claim now cmd.id r.seen).1 now overdue cmd
                  (not_empty-ne-nil cmd.id n) f
                  (resolve-Answers cmd.verb cmd.args h.scopes h.tools))
            | inr f ↦ rw f (unfold finish in inl refl)
          ])
  ]
