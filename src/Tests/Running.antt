-- ===== src/Tests/Running.antt =====
-- The properties of the running of p4 at concrete inputs, among them inputs of
-- internal/tools/perforce_error_test.go.
use butterstack_connector.Prelude.{
  ℕ, ◌≡◌, inl, inr, refl, [], ◌∷◌, none, some, codes, leb, bytes_eq, trim_space,
}
use butterstack_connector.Prelude.Int.{pos}
use butterstack_connector.Json.{Fields, num, str, end, field, get_field, read_nat}
use butterstack_connector.Vocab.Table.{changes_verb}
use butterstack_connector.Session.Handle.{ToolCall}
use butterstack_connector.Tools.Perforce.{PerforceConfig, argv, changes_args}
use butterstack_connector.Tools.Perforce.Failures.{
  Machine, first_line, trimmed_data, num_field, first_error_record, failure_detail,
}
use butterstack_connector.Tools.Perforce.Failures.First.{IsFirst, first_error_record-IsFirst}
use butterstack_connector.Tools.Perforce.Running.{Start, env, run_p4, execute_perforce}
use butterstack_connector.Tools.Perforce.Running.Output.{IsReadOf, run_p4-IsReadOf}
use butterstack_connector.Tools.Perforce.Running.Invocations.{
  RunsAlike, StartsOne, execute_perforce_confined,
}
use butterstack_connector.Tests.Resolving.{
  game_scopes, every_tool, path_args, path_values, resolve_game,
}

-- An informational record, and a failure behind it.
abbrev info_record : Fields
info_record =
    field (codes "data") (str (codes "//depot/a#1 - opened"))
      (field (codes "severity") (num (codes "0")) end)

abbrev failed_record : Fields
failed_record =
    field (codes "data") (str (codes "Submit aborted"))
      (field (codes "severity") (str (codes "3")) end)

abbrev pub machine : Machine ℕ
machine = record {
  getenv = λ name. [];
  decode = λ text. info_record ∷ failed_record ∷ [];
  sprint = λ v. [];
  parse_float = read_nat;
  at_least_three = leb 3;
}

failure_detail_run :
    failure_detail machine (codes "{}") (codes "ignored") (codes "exit status 1")
    ≡ codes "Submit aborted"
unfolding failure_detail first_error_record num_field trimmed_data first_line codes get_field
    trim_space bytes_eq read_nat
failure_detail_run = refl

first_error_record-IsFirst_example :
    IsFirst machine
      (info_record ∷ failed_record ∷ [])
      (first_error_record machine (info_record ∷ failed_record ∷ []))
first_error_record-IsFirst_example =
    first_error_record-IsFirst machine (info_record ∷ failed_record ∷ [])

abbrev p4_config : PerforceConfig
p4_config = record {
  port = codes "ssl:p4:1666";
  user = codes "svc";
  ticket = codes "T";
  binary = codes "p4";
}

abbrev pub quiet_start : Start
quiet_start binary line env' = record { stdout = codes "{}" ∷ []; stderr = []; failed = none }

run_p4-IsReadOf_example :
    IsReadOf machine
      (quiet_start
        (codes "p4")
        (argv p4_config (changes_args (codes "//a") (pos 5)))
        (env machine p4_config))
      (run_p4 machine quiet_start p4_config (changes_args (codes "//a") (pos 5))).0
run_p4-IsReadOf_example =
    run_p4-IsReadOf machine quiet_start p4_config (changes_args (codes "//a") (pos 5))

abbrev changes_call : ToolCall
changes_call = record {
  tool = codes "perforce";
  verb = codes "p4.changes";
  args = path_values "//depot/game/...";
  max_bytes = pos 1000;
  deadline = pos 1000;
}

-- A system in which p4 fails when it is started without arguments.
abbrev other_start : Start
other_start binary [] env' = record {
  stdout = [];
  stderr = codes "usage";
  failed = some (codes "exit status 1");
}
other_start binary (x ∷ line) env' = quiet_start binary (x ∷ line) env'

other_start-RunsAlike : RunsAlike p4_config quiet_start other_start
unfolding argv
other_start-RunsAlike line env' (inl (change, is)) = rw is refl
other_start-RunsAlike line env' (inr (max, rest, is)) = rw is refl

execute_perforce_confined_example :
    StartsOne machine p4_config (execute_perforce machine quiet_start p4_config changes_call).1
    × (execute_perforce machine quiet_start p4_config changes_call
        ≡ execute_perforce machine other_start p4_config changes_call)
execute_perforce_confined_example =
    execute_perforce_confined machine p4_config quiet_start other_start changes_verb
      (path_args "//depot/game/...") game_scopes every_tool changes_call resolve_game
      other_start-RunsAlike
