-- ===== src/Session/Handle/Outcome.antt =====
-- What `handle` does on every path: the audit line, the answer, and the tools it touches.
use butterstack_connector.Prelude.{
  ℕ, ◌≡◌, ◌⊎◌, inl, inr, refl, sym, Bool, true, false, [], ◌∷◌, ◌++◌, Option, none, some, Bytes,
  codes, Bool-cases, Option-cases, ok, err,
}
use butterstack_connector.Json.{RawMessage}
use butterstack_connector.Protocol.{Command, ResultFrame, status_token}
use butterstack_connector.Audit.{DetailText, Entry}
use butterstack_connector.Vocab.Schema.{Verb, Scopes, Args, Checked, DenyError}
use butterstack_connector.Vocab.Resolve.{ConfiguredTools, resolve, is_empty, lookup, resolve_verb}
use butterstack_connector.Session.Limits.{choose_deadline, choose_max_bytes}
use butterstack_connector.Session.Dedupe.{claim}
use butterstack_connector.Session.Handle.{
  Executed, Body, Host, Runner, execute, finish, conclude, perform, decide, handle,
}

-- The answers of `Resolve`.
abbrev pub Answers : Option Verb × Checked Args → Type 0
Answers r =
    ((v : Option Verb) × (e : DenyError) × (r ≡ (v, err e)))
    ⊎ ((v : Verb) × (args : Args) × (r ≡ (some v, ok args)))

answer_cases : (v : Verb) (r : Checked Args) → Answers (some v, r)
answer_cases v (ok args) = inr (v, args, refl)
answer_cases v (err e) = inl (some v, e, refl)

pub resolve-Answers :
    (name : Bytes) (raw : RawMessage) (scopes : Scopes) (tools : ConfiguredTools)
    → Answers (resolve name raw scopes tools)
unfolding resolve
resolve-Answers name raw scopes tools = elim (Option-cases (lookup name)) [
  | inl e ↦ rw (e, resolve) (inl (none, _, refl))
  | inr (v, e) ↦ rw (e, resolve) (answer_cases v (resolve_verb v name raw scopes tools))
]

pub is_empty-nil : (s : Bytes) → is_empty s ≡ true → s ≡ []
is_empty-nil [] h = refl
is_empty-nil (c ∷ s) h = cc

module _ {T : Type 0} where
  -- The line about a command and its answer: the command's id, verb and digest, and the answer's
  -- status, reason, size and truncation.
  abbrev pub line_of : Host T → Runner → Command → ResultFrame (Body T) → DetailText → Entry
  line_of h r cmd res detail = record {
    event = codes "command";
    session_id = r.session_id;
    command_id = cmd.id;
    verb = cmd.verb;
    args_sha256 = h.args_digest cmd.args;
    status = status_token res.status;
    reason = res.reason;
    detail = detail;
    bytes_out = res.bytes;
    truncated = res.truncated;
    message = [];
  }

  -- The state and the answer agree: one more line, about this command and this answer.
  abbrev pub Answered : Host T → Runner → Command → Runner × ResultFrame (Body T) → Type 0
  Answered h r cmd (r', res) =
      (detail : DetailText) × (r'.log ≡ r.log ++ line_of h r cmd res detail ∷ [])
      × (res.id ≡ cmd.id)

  conclude-Answered :
      (h : Host T) (r : Runner) (cmd : Command) (overdue : Bool) (x : Executed (Body T))
      → Answered h r cmd (conclude h r cmd overdue x)
  unfolding conclude finish
  conclude-Answered h r cmd true x = (DetailText.empty, refl, refl)
  conclude-Answered h r cmd false x = elim (Option-cases x.error) [
    | inl e ↦ rw (e, conclude) (DetailText.empty, refl, refl)
    | inr (t, e) ↦ rw (e, conclude) (DetailText.failure t, refl, refl)
  ]

  perform-Answered :
      (h : Host T) (r : Runner) (cmd : Command) (overdue : Bool) (v : Verb) (args : Args)
      → Answered h r cmd (perform h r cmd overdue v args)
  unfolding perform
  perform-Answered h r cmd overdue v args =
      conclude-Answered h (record r { calls = r.calls ++ (execute h v args _ _).1 }) cmd overdue
        (execute h v args (choose_max_bytes cmd.max_bytes v.default_max_bytes)
          (choose_deadline cmd.deadline_ms)).0

  pub finish-Answered :
      (h : Host T) (r : Runner) (cmd : Command) (res : ResultFrame (Body T)) (d : DetailText)
      → res.id ≡ cmd.id
      → Answered h r cmd (finish h r cmd res d)
  unfolding finish
  finish-Answered h r cmd res d e = (d, refl, e)

  pub decide-Answered :
      (h : Host T) (r : Runner) (cmd : Command) (overdue : Bool) (a : Option Verb × Checked Args)
      → Answers a
      → Answered h r cmd (decide h r cmd overdue a)
  decide-Answered h r cmd overdue a (inl (v, e, same)) =
      rw same (unfold decide in finish-Answered h r cmd _ (DetailText.denial e.detail) refl)
  decide-Answered h r cmd overdue a (inr (v, args, same)) =
      rw same (unfold decide in perform-Answered h r cmd overdue v args)

  -- Whatever the outcome, `handle` writes exactly one line to the audit log, which names the
  -- command and states the status, reason and size of the answer, and the answer bears the
  -- command's id.
  pub handle-Answered :
      (h : Host T) (r : Runner) (now : ℕ) (overdue : Bool) (cmd : Command)
      → Answered h r cmd (handle h r now overdue cmd)
  unfolding handle
  handle-Answered h r now overdue cmd = elim (Bool-cases (is_empty cmd.id)) [
    | inl e ↦ rw (e, handle) (finish-Answered h r cmd _ _ (sym (is_empty-nil cmd.id e)))
    | inr n ↦
        rw (n, handle)
          (elim (Bool-cases (claim now cmd.id r.seen).0) [
            | inl f ↦ rw f (
                decide-Answered h (record r { seen = (claim now cmd.id r.seen).1 }) cmd overdue
                  (resolve cmd.verb cmd.args h.scopes h.tools)
                  (resolve-Answers cmd.verb cmd.args h.scopes h.tools))
            | inr f ↦ rw f (
                finish-Answered h (record r { seen = (claim now cmd.id r.seen).1 }) cmd _
                  DetailText.empty refl)
          ])
  ]
