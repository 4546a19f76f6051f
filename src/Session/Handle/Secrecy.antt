-- ===== src/Session/Handle/Secrecy.antt =====
-- What of a tool's failure leaves the studio.
use butterstack_connector.Prelude.{
  ℕ, ◌≡◌, ◌⊎◌, inl, inr, refl, ap, ◌∙◌, Bool, true, false, List, [], ◌∷◌, Option, none, some, Bytes,
  codes, bytes_eq, Bool-cases, Option-cases, ok, err,
}
use butterstack_connector.Prelude.Int.{ℤ}
use butterstack_connector.Protocol.{Command}
use butterstack_connector.Vocab.Schema.{Verb, Args, Checked}
use butterstack_connector.Vocab.Resolve.{resolve, is_empty}
use butterstack_connector.Session.Dedupe.{claim}
use butterstack_connector.Session.Handle.{
  ToolCall, Executed, Body, Host, Runner, lift_tool, tool_call, not_configured, execute, finish,
  conclude, perform, decide, handle,
}

-- Two runs of a tool that fail, perhaps with different texts and remains, or are the same.
abbrev pub SameButError : {B : Type 0} → Executed B → Executed B → Type 0
SameButError x y = (x ≡ y) ⊎ ((s : Bytes) × (t : Bytes) × (x.error ≡ some s) × (y.error ≡ some t))

abbrev pub Execs : Type 0 → Type 0
Execs T = Bytes → Option (ToolCall → Executed T)

module _ {T : Type 0} where
  -- The same tools are there, and each call of one gives the same in both, but for failures.
  abbrev pub SameTool : Option (ToolCall → Executed T) → Option (ToolCall → Executed T) → Type 0
  SameTool none none = Unit
  SameTool none (some g) = ⊥
  SameTool (some f) none = ⊥
  SameTool (some f) (some g) = (call : ToolCall) → SameButError (f call) (g call)

  conclude_frame :
      (h h' : Host T) (r r' : Runner) (cmd : Command) (overdue : Bool) (x : Executed (Body T))
      → (conclude h r cmd overdue x).1 ≡ (conclude h' r' cmd overdue x).1
  unfolding conclude finish
  conclude_frame h h' r r' cmd true x = refl
  conclude_frame h h' r r' cmd false x = elim (Option-cases x.error) [
    | inl e ↦ rw (e, conclude)
    | inr (t, e) ↦ rw (e, conclude)
  ]

  -- The answer does not show which of two failures it was.
  conclude_same :
      (h h' : Host T) (r r' : Runner) (cmd : Command) (overdue : Bool) (x y : Executed (Body T))
      → SameButError x y
      → (conclude h r cmd overdue x).1 ≡ (conclude h' r' cmd overdue y).1
  unfolding conclude finish
  conclude_same h h' r r' cmd overdue x y (inl same) =
      conclude_frame h h' r r' cmd overdue x ∙ ap (λ z. (conclude h' r' cmd overdue z).1) same
  conclude_same h h' r r' cmd true x y (inr s) = refl
  conclude_same h h' r r' cmd false x y (inr (s, t, e, f)) = rw (e, conclude) (rw (f, conclude))

  lift_same : (x y : Executed T) → SameButError x y → SameButError (lift_tool x) (lift_tool y)
  lift_same x y (inl e) = inl (ap lift_tool e)
  lift_same x y (inr (s, t, e, f)) = inr (s, t, e, f)

  abbrev ran : Option (ToolCall → Executed T) → ToolCall → Executed (Body T) × List ToolCall
  ran a call = elim a [ none ↦ (not_configured, []) | some ex ↦ (lift_tool (ex call), call ∷ []) ]

  tools_same :
      (call : ToolCall) (a b : Option (ToolCall → Executed T))
      → SameTool a b
      → SameButError (ran a call).0 (ran b call).0
  tools_same call none none s = inl refl
  tools_same call none (some g) s = elim s [ ]
  tools_same call (some f) none s = elim s [ ]
  tools_same call (some f) (some g) s = lift_same (f call) (g call) (s call)

  module _ (h : Host T) (execs : Execs T) where
    abbrev other : Host T
    other = record h { execs = execs }

    execute_same :
        (v : Verb) (args : Args) (max_bytes deadline : ℤ)
        → SameTool (h.execs v.tool) (execs v.tool)
        → SameButError
            (execute h v args max_bytes deadline).0
            (execute other v args max_bytes deadline).0
    unfolding execute
    execute_same v args max_bytes deadline s =
        elim (Bool-cases (bytes_eq v.name (codes "sys.ping"))) [
          | inl p ↦ rw p (inl refl)
          | inr p ↦ elim (Bool-cases (bytes_eq v.name (codes "sys.version"))) [
            | inl q ↦ rw (p, q) (inl refl)
            | inr q ↦ elim (Bool-cases (bytes_eq v.name (codes "sys.capabilities"))) [
              | inl c ↦ rw (p, q, c) (inl refl)
              | inr c ↦
                  rw (p, q, c)
                    (tools_same (tool_call v args max_bytes deadline) (h.execs v.tool)
                      (execs v.tool) s)
            ]
          ]
        ]

    perform_same :
        (r : Runner) (cmd : Command) (overdue : Bool) (v : Verb) (args : Args)
        → SameTool (h.execs v.tool) (execs v.tool)
        → (perform h r cmd overdue v args).1 ≡ (perform other r cmd overdue v args).1
    unfolding perform
    perform_same r cmd overdue v args s =
        conclude_same h other _ _ cmd overdue _ _ (execute_same v args _ _ s)

    decide_same :
        (r : Runner) (cmd : Command) (overdue : Bool) (a : Option Verb × Checked Args)
        → ((tool : Bytes) → SameTool (h.execs tool) (execs tool))
        → (decide h r cmd overdue a).1 ≡ (decide other r cmd overdue a).1
    unfolding decide finish
    decide_same r cmd overdue (v, err e) s = refl
    decide_same r cmd overdue (some v, ok args) s = perform_same r cmd overdue v args (s v.tool)
    decide_same r cmd overdue (none, ok args) s = refl

    -- The answer to the broker is the same whatever text a failing tool gives, and whatever body or
    -- size comes with the failure: none of it leaves the studio.
    pub handle_secrecy :
        (r : Runner) (now : ℕ) (overdue : Bool) (cmd : Command)
        → ((tool : Bytes) → SameTool (h.execs tool) (execs tool))
        → (handle h r now overdue cmd).1 ≡ (handle (record h { execs = execs }) r now overdue cmd).1
    unfolding handle finish
    handle_secrecy r now overdue cmd s = elim (Bool-cases (is_empty cmd.id)) [
      | inl e ↦ rw (e, handle)
      | inr n ↦
          rw (n, handle)
            (elim (Bool-cases (claim now cmd.id r.seen).0) [
              | inl f ↦ rw f (
                  decide_same (record r { seen = (claim now cmd.id r.seen).1 }) cmd overdue
                    (resolve cmd.verb cmd.args h.scopes h.tools) s)
              | inr f ↦ rw f
            ])
    ]
