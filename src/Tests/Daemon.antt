-- ===== src/Tests/Daemon.antt =====
-- The properties of the process's start at concrete inputs.
use butterstack_connector.Prelude.{
  ◌≡◌, ◌≢◌, ◌⊎◌, List, refl, true, false, [], ◌∷◌, ◌++◌, none, some, Bytes, String, codes, arith,
  All, ok, err, bytes_eq, to_lower,
}
use butterstack_connector.Config.{Config, configured_tools}
use butterstack_connector.Config.Secrets.{IsToken}
use butterstack_connector.Vocab.Table.{vocabulary, banned_arg_names}
use butterstack_connector.Vocab.Selfcheck.{
  selfcheck, check_verbs, check_verb, check_args, check_arg, why_banned,
}
use butterstack_connector.Session.New.{
  Executors, new_session, new_executors, make_teamcity, make_perforce, executor,
}
use butterstack_connector.Session.New.Configured.{is_some, new_session-executor}
use butterstack_connector.Tools.Perforce.Running.{new_perforce}
use butterstack_connector.Daemon.{
  World, RunError, split_lines, split_from, startup_lines, run_daemon,
}
use butterstack_connector.Daemon.Lines.{HasNoBreak, terminated, split_lines-Spells}
use butterstack_connector.Daemon.Startup.{IsStarted, startup_secrecy, run_daemon-Ends}
use butterstack_connector.Tests.Config.{loaded, disk}
use butterstack_connector.Tests.Running.{machine, quiet_start}
use butterstack_connector.Tests.Teamcity.{web, answering}

split_lines_run : split_lines (codes "a" ++ b'\n' ∷ codes "b") ≡ codes "a" ∷ codes "b" ∷ []
unfolding split_lines split_from codes
split_lines_run = refl

split_lines-Spells_example :
    All HasNoBreak (split_lines (codes "a"))
    × ((codes "a" ≡ terminated (split_lines (codes "a")))
        ⊎ ((before : List Bytes) × (last : Bytes) × (split_lines (codes "a") ≡ before ++ last ∷ [])
            × (last ≢ [])
            × (codes "a" ≡ terminated before ++ last)))
split_lines-Spells_example = split_lines-Spells (codes "a")

abbrev token_with : String → Bytes
token_with s = codes "bsc" ++ b'_' ∷ ((b'a' ∷ []) ++ b'_' ∷ codes s)

abbrev secret_a : String
secret_a = "AAAAAAAABBBBBBBBCCCCCCCCDDDDDDDD"

abbrev secret_b : String
secret_b = "DDDDDDDDBBBBBBBBCCCCCCCCAAAAAAAA"

token_a : IsToken (token_with secret_a)
unfolding codes
token_a = record {
  id = b'a' ∷ [];
  secret = codes secret_a;
  spells = refl;
  id_plain = ground arith;
  secret_plain = ground arith;
  secret_long = omega arith;
}

token_b : IsToken (token_with secret_b)
unfolding codes
token_b = record {
  id = b'a' ∷ [];
  secret = codes secret_b;
  spells = refl;
  id_plain = ground arith;
  secret_plain = ground arith;
  secret_long = omega arith;
}

same_id : token_a.id ≡ token_b.id
unfolding token_a token_b
same_id = refl

abbrev studio : Config
studio = record loaded { token = token_with secret_a }

startup_secrecy_example :
    startup_lines (codes "1") false studio
    ≡ startup_lines (codes "1") false (record studio {
      token = token_with secret_b;
      perforce = record studio.perforce { ticket = codes "T2" };
      teamcity = record studio.teamcity { token = codes "t3" };
    })
startup_secrecy_example =
    startup_secrecy (codes "1") false studio (token_with secret_b) (codes "T2") (codes "t3") token_a
      token_b same_id

abbrev world : World
world = record {
  system = disk;
  web = web;
  make_dir = λ dir. true;
  is_root = false;
  session = λ x. ([], none);
}

run_daemon-Ends_example :
    (((run_daemon selfcheck world (codes "1") (codes "/c.yml")).lines ≡ [])
      × ((run_daemon selfcheck world (codes "1") (codes "/c.yml")).led ≡ none)
      × (e : RunError) × ((run_daemon selfcheck world (codes "1") (codes "/c.yml")).result ≡ err e))
    ⊎ IsStarted selfcheck world
        (codes "1")
        (codes "/c.yml")
        (run_daemon selfcheck world (codes "1") (codes "/c.yml"))
run_daemon-Ends_example = run_daemon-Ends selfcheck world (codes "1") (codes "/c.yml")

abbrev perforce_only : Config
perforce_only = record loaded {
  perforce = record loaded.perforce { enabled = true };
  teamcity = record loaded.teamcity { enabled = false };
}

abbrev made : Executors
made = record {
  teamcity = none;
  perforce = some (record {
    port = loaded.perforce.port;
    user = loaded.perforce.user;
    ticket = loaded.perforce.ticket;
    binary = loaded.perforce.binary;
  });
}

new_session_run : new_session web perforce_only ≡ ok made
unfolding new_session new_executors make_teamcity make_perforce new_perforce selfcheck check_verbs
    check_verb check_args check_arg why_banned vocabulary banned_arg_names to_lower bytes_eq codes
new_session_run = refl

new_session-executor_example :
    is_some (executor machine quiet_start web answering made (codes "perforce"))
    ≡ configured_tools perforce_only (codes "perforce")
new_session-executor_example =
    new_session-executor machine quiet_start web answering perforce_only made (codes "perforce")
      new_session_run
