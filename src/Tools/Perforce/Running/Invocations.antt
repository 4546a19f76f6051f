-- ===== src/Tools/Perforce/Running/Invocations.antt =====
-- With which arguments p4 is started.
use butterstack_connector.Prelude.{
  ℕ, ◌≡◌, ◌⊎◌, inl, inr, refl, ap, ◌∙◌, List, [], ◌∷◌, some, Bytes, codes, arith, bytes_eq,
  bytes_eq_sound, bytes_eq_refl, Bool-cases, ok,
}
use butterstack_connector.Prelude.Int.{ℤ, pos, negsuc, ◌≤ℤ◌}
use butterstack_connector.Json.{Json, Fields, RawMessage}
use butterstack_connector.Vocab.Schema.{Verb, Arg, Scopes, Args, Value, Kind}
use butterstack_connector.Vocab.Table.{vocabulary, describe_verb, changes_verb}
use butterstack_connector.Vocab.Resolve.{ConfiguredTools, lookup, resolve}
use butterstack_connector.Vocab.Resolve.Allowed.{resolve-IsAllowed, resolve-lookup}
use butterstack_connector.Vocab.Validate.Arguments.{Collected, IsAccepted}
use butterstack_connector.Vocab.Validate.Values.{IsValid}
use butterstack_connector.Session.Handle.{ToolCall, Executed}
use butterstack_connector.Tools.{arg_int, arg_string, arg_value}
use butterstack_connector.Tools.Perforce.{
  PerforceConfig, argv, describe_args, changes_args, signed_decimal, max_tool_output_bytes,
}
use butterstack_connector.Tools.Perforce.Buffer.{write_all, empty_buffer}
use butterstack_connector.Tools.Perforce.Failures.{Machine}
use butterstack_connector.Tools.Perforce.Running.{
  Start, Started, Ran, P4Body, env, run_p4, read_output, describe, changes, describe_ran,
  changes_ran, execute_perforce,
}

-- The two command lines behind the fixed options: `describe -s` of a number, and `changes -m` of a
-- number, of a path that begins with two slashes.
abbrev with_options : PerforceConfig → List Bytes → List Bytes
with_options cfg args =
    codes "-p" ∷ cfg.port ∷ codes "-u" ∷ cfg.user ∷ codes "-Mj" ∷ codes "-ztag" ∷ args

abbrev pub IsCommandLine : PerforceConfig → List Bytes → Type 0
IsCommandLine cfg line =
    ((change : ℕ) × (line
        ≡ with_options cfg (codes "describe" ∷ codes "-s" ∷ signed_decimal (pos change) ∷ [])))
    ⊎ ((max : ℤ) × (rest : Bytes) × (line
          ≡ with_options cfg
              (codes "changes" ∷ codes "-m" ∷ signed_decimal max ∷ (b'/' ∷ b'/' ∷ rest) ∷ [])))

int_value :
    (a : Arg) (scopes : Scopes) (raw : Json) (v : Value)
    → IsValid a scopes Kind.int raw v
    → (i : ℤ) × (v ≡ Value.int i) × (a.min ≤ℤ i)
int_value a scopes raw v (IsValid.int lit i parsed low high) = (i, refl, low)

path_value :
    (a : Arg) (scopes : Scopes) (raw : Json) (v : Value)
    → IsValid a scopes Kind.depot_path raw v
    → (rest : Bytes) × (v ≡ Value.str (b'/' ∷ b'/' ∷ rest))
path_value a scopes raw v (IsValid.path s text) = (text.path.path, ap Value.str text.path.rooted)

at_least_one : (i : ℤ) → pos 1 ≤ℤ i → (n : ℕ) × (i ≡ pos n)
at_least_one (pos n) low = (n, refl)
at_least_one (negsuc n) low = absurd (omega arith)

first_int :
    (args rest : Args) (name : Bytes) (i def : ℤ)
    → args ≡ (name, Value.int i) ∷ rest
    → arg_int args name def ≡ i
unfolding arg_int arg_value
first_int args rest name i def e = rw (e, bytes_eq_refl name) refl

first_string :
    (args rest : Args) (name s : Bytes)
    → args ≡ (name, Value.str s) ∷ rest
    → arg_string args name ≡ s
unfolding arg_string arg_value
first_string args rest name s e = rw (e, bytes_eq_refl name) refl

-- The arguments of the two verbs, as `Resolve` returns them.
described_number :
    (args : Args) (scopes : Scopes) (fs : Fields)
    → Collected scopes fs describe_verb.args args
    → (n : ℕ) × (arg_int args (codes "change") (pos 0) ≡ pos n)
described_number args scopes fs (inl (absent, optional, more)) = cc optional
described_number args scopes fs (inr (raw, v, rest, found, valid, is, more)) =
    let (i, same, low) = int_value _ scopes raw v valid in
    let (n, number) = at_least_one i low in
    (
      n,
      first_int args rest (codes "change") i (pos 0)
            (is ∙ ap (λ x. (codes "change", x) ∷ rest) same)
          ∙ number,
    )

changes_path :
    (args : Args) (scopes : Scopes) (fs : Fields)
    → Collected scopes fs changes_verb.args args
    → (rest : Bytes) × (arg_string args (codes "path") ≡ b'/' ∷ b'/' ∷ rest)
changes_path args scopes fs (inl (absent, optional, more)) = cc optional
changes_path args scopes fs (inr (raw, v, rest, found, valid, is, more)) =
    let (path, same) = path_value _ scopes raw v valid in
    (path, first_string args rest (codes "path") _ (is ∙ ap (λ x. (codes "path", x) ∷ rest) same))

describe_found : lookup (codes "p4.describe") ≡ some describe_verb
unfolding lookup codes vocabulary bytes_eq
describe_found = refl

changes_found : lookup (codes "p4.changes") ≡ some changes_verb
unfolding lookup codes vocabulary bytes_eq
changes_found = refl

resolved-Collected :
    (v w : Verb) (name : Bytes) (raw : RawMessage) (scopes : Scopes) (tools : ConfiguredTools)
    (args : Args)
    → resolve name raw scopes tools ≡ (some v, ok args)
    → lookup name ≡ some w
    → (fs : Fields) × Collected scopes fs w.args args
resolved-Collected v w name raw scopes tools args r found =
    let (looked, more) = resolve-lookup v name raw scopes tools args r in
    let same : v ≡ w = cc (looked, found) in
    let a : IsAccepted v raw scopes args =
      ((resolve-IsAllowed v name raw scopes tools args).0 r).accepted in
    (a.fields, rw same at a.collected)

-- Two systems that run the two command lines of the configured binary alike.
abbrev pub RunsAlike : PerforceConfig → Start → Start → Type 0
RunsAlike cfg start start' =
    (line env' : List Bytes)
    → IsCommandLine cfg line
    → start cfg.binary line env' ≡ start' cfg.binary line env'

module _ {F : Type 0} (host : Machine F) (cfg : PerforceConfig) where
  -- No process was started, or one: the configured binary, with one of the two command lines and the
  -- environment of the configuration.
  abbrev pub StartsOne : List Started → Type 0
  StartsOne started =
      (started ≡ [])
      ⊎ ((s : Started) × (started ≡ s ∷ [])
          × (s.binary ≡ cfg.binary)
          × IsCommandLine cfg s.args
          × (s.env ≡ env host cfg))

  module _ (start start' : Start) (alike : RunsAlike cfg start start') where
    -- What the executor starts, and what it makes of the two systems.
    abbrev IsConfined : (Start → Executed P4Body × List Started) → Type 0
    IsConfined f = StartsOne (f start).1 × (f start ≡ f start')

    run-IsConfined :
        (args : List Bytes) (g : Ran → Executed P4Body)
        → IsCommandLine cfg (argv cfg args)
        → IsConfined (λ s. (g (run_p4 host s cfg args).0, (run_p4 host s cfg args).1))
    unfolding run_p4
    run-IsConfined args g is = (
      inr (_, refl, refl, is, refl),
      ap
          (λ p. (
            g (read_output host p (write_all (empty_buffer max_tool_output_bytes) p.stdout)),
            record { binary = cfg.binary; args = argv cfg args; env = env host cfg } ∷ [],
          ))
          (alike (argv cfg args) (env host cfg) is),
    )

    describe-IsConfined :
        (change : ℤ) (n : ℕ) (max_files max_bytes : ℤ)
        → change ≡ pos n
        → IsConfined (λ s. describe host s cfg change max_files max_bytes)
    unfolding describe argv describe_args
    describe-IsConfined change n max_files max_bytes e =
        run-IsConfined (describe_args change) (λ r. describe_ran host r change max_files max_bytes)
          (inl (n, rw e refl))

    changes-IsConfined :
        (path rest : Bytes) (max : ℤ)
        → path ≡ b'/' ∷ b'/' ∷ rest
        → IsConfined (λ s. changes host s cfg path max)
    unfolding changes argv changes_args
    changes-IsConfined path rest max e =
        run-IsConfined (changes_args path max) (changes_ran host) (inr (max, rest, rw e refl))

  -- For a command that `Resolve` lets through, the Perforce executor starts one process at most: the
  -- configured binary, with `describe -s` of a number that is not negative, or `changes -m` of a
  -- number and one path that begins with two slashes, and with the environment of the configuration.
  -- Its result cannot depend on what any other invocation, an option in the place of the path among
  -- them, would do.
  pub execute_perforce_confined :
      (start start' : Start) (v : Verb) (raw : RawMessage) (scopes : Scopes)
      (tools : ConfiguredTools) (call : ToolCall)
      → resolve call.verb raw scopes tools ≡ (some v, ok call.args)
      → RunsAlike cfg start start'
      → StartsOne (execute_perforce host start cfg call).1
        × (execute_perforce host start cfg call ≡ execute_perforce host start' cfg call)
  unfolding execute_perforce
  execute_perforce_confined start start' v raw scopes tools call r alike =
      elim (Bool-cases (bytes_eq call.verb (codes "p4.describe"))) [
        | inl e ↦
            let is : call.verb ≡ codes "p4.describe" = bytes_eq_sound call.verb _ e in
            let (fs, c) =
              resolved-Collected v describe_verb call.verb raw scopes tools call.args r
                (ap lookup is ∙ describe_found) in
            let (n, number) = described_number call.args scopes fs c in
            rw e (describe-IsConfined start start' alike _ n _ _ number)
        | inr d ↦ rw d (elim (Bool-cases (bytes_eq call.verb (codes "p4.changes"))) [
          | inl e ↦
              let is : call.verb ≡ codes "p4.changes" = bytes_eq_sound call.verb _ e in
              let (fs, c) =
                resolved-Collected v changes_verb call.verb raw scopes tools call.args r
                  (ap lookup is ∙ changes_found) in
              let (rest, path) = changes_path call.args scopes fs c in
              rw e (changes-IsConfined start start' alike _ rest _ path)
          | inr e ↦ rw e (inl refl, refl)
        ])
      ]
