-- ===== src/Daemon/Startup.antt =====
-- What the process does before the session, and what its log shows of secrets.
use butterstack_connector.Prelude.{
  ◌≡◌, ◌⊎◌, inl, inr, refl, sym, ap, ◌∙◌, Bool, true, [], ◌∷◌, ◌++◌, none, some, Bytes, Bool-cases,
  Except, ok, err, Except-cases,
}
use butterstack_connector.Config.{Config, load, integration_id}
use butterstack_connector.Config.Redacted.{redacted}
use butterstack_connector.Config.Secrets.{IsToken, integration_id_parts}
use butterstack_connector.Vocab.Selfcheck.{Violation}
use butterstack_connector.Session.New.{NewError, Executors, new_session}
use butterstack_connector.Daemon.{
  World, RunError, Ended, startup_of, startup_lines, shutdown_line, lead_session, run_config,
  run_daemon,
}

IsToken-integration_id : (token : Bytes) → (t : IsToken token) → integration_id token ≡ t.id
IsToken-integration_id token t =
    ap integration_id t.spells ∙ integration_id_parts t.id t.secret t.id_plain t.secret_plain

abbrev with_secrets : Config → Bytes → Bytes → Bytes → Config
with_secrets c token ticket teamcity_token = record c {
  token = token;
  perforce = record c.perforce { ticket = ticket };
  teamcity = record c.teamcity { token = teamcity_token };
}

redacted_same :
    (c : Config) (token ticket teamcity_token : Bytes)
    → integration_id c.token ≡ integration_id token
    → redacted c ≡ redacted (with_secrets c token ticket teamcity_token)
unfolding redacted
redacted_same c token ticket teamcity_token same = rw same refl

-- The lines that the process logs before its session show nothing of a secret: they are the same for
-- any other Perforce ticket, TeamCity token, and connector token with the same id in its middle.
pub startup_secrecy :
    (version : Bytes) (is_root : Bool) (c : Config) (token ticket teamcity_token : Bytes)
    (old : IsToken c.token) (new : IsToken token)
    → old.id ≡ new.id
    → startup_lines version is_root c
      ≡ startup_lines version is_root (record c {
        token = token;
        perforce = record c.perforce { ticket = ticket };
        teamcity = record c.teamcity { token = teamcity_token };
      })
unfolding startup_lines
startup_secrecy version is_root c token ticket teamcity_token old new same =
    ap (λ text. startup_of version is_root text)
      (redacted_same c token ticket teamcity_token
        (IsToken-integration_id c.token old ∙ same ∙ sym (IsToken-integration_id token new)))

-- A session was led, with the executors that `session.New` made, and the log holds its lines and the
-- line of the shutdown behind the startup lines; or none was, because `New` failed.
abbrev pub IsLed : World → Bytes → Config → Ended → Type 0
IsLed w version c d =
    ((x : Executors) × (new_session w.web c ≡ ok x)
      × (d.led ≡ some x)
      × (d.lines ≡ startup_lines version w.is_root c ++ ((w.session x).0 ++ shutdown_line ∷ [])))
    ⊎ ((e : NewError) × (new_session w.web c ≡ err e)
        × (d.led ≡ none)
        × (d.lines ≡ startup_lines version w.is_root c)
        × (d.result ≡ err (RunError.no_session e)))

-- The vocabulary passed its check, the configuration was loaded and the directory of the log made.
pub record IsStarted (check : Except Violation (Unit {0})) (w : World) (version path : Bytes)
    (d : Ended) : Type 0 where
  pub config : Config
  pub checked : check ≡ ok tt
  pub loaded : load w.system path ≡ ok config
  pub made : w.make_dir config.log_dir ≡ true
  pub led : IsLed w version config d

abbrev Ends : Except Violation (Unit {0}) → World → Bytes → Bytes → Ended → Type 0
Ends check w version path d =
    ((d.lines ≡ []) × (d.led ≡ none) × (e : RunError) × (d.result ≡ err e))
    ⊎ IsStarted check w version path d

lead_session-IsLed :
    (w : World) (version : Bytes) (c : Config) (x : Except NewError Executors)
    → new_session w.web c ≡ x
    → IsLed w version c (lead_session w (startup_lines version w.is_root c) x)
unfolding lead_session
lead_session-IsLed w version c (err e) is = inr (e, is, refl, refl, refl)
lead_session-IsLed w version c (ok x) is = inl (x, is, refl, refl)

run_config-Ends :
    (check : Except Violation (Unit {0})) (w : World) (version path : Bytes) (c : Config)
    → check ≡ ok tt
    → load w.system path ≡ ok c
    → Ends check w version path (run_config w version c)
unfolding run_config
run_config-Ends check w version path c checked loaded = elim (Bool-cases (w.make_dir c.log_dir)) [
  | inr no_dir ↦ rw (no_dir, run_config) (inl (refl, refl, RunError.no_log_dir, refl))
  | inl made ↦
      rw (made, run_config)
        (inr (record {
          config = c;
          checked = checked;
          loaded = loaded;
          made = made;
          led = lead_session-IsLed w version c (new_session w.web c) refl;
        }))
]

-- Whatever the check of the vocabulary returns, the process writes no line and leads no session
-- unless the vocabulary passes it, then the configuration is loaded by its rules, and then the
-- directory of the log is made; otherwise it returns an error. Its log begins with the startup lines
-- of that configuration; a session is led exactly when `session.New` gives its executors, with
-- them, and then the log ends with the session's lines and that of the shutdown.
pub run_daemon-Ends :
    (check : Except Violation (Unit {0})) (w : World) (version path : Bytes)
    → (((run_daemon check w version path).lines ≡ [])
        × ((run_daemon check w version path).led ≡ none)
        × (e : RunError) × ((run_daemon check w version path).result ≡ err e))
      ⊎ IsStarted check w version path (run_daemon check w version path)
unfolding run_daemon
run_daemon-Ends (err v) w version path = inl (refl, refl, RunError.bad_vocabulary v, refl)
run_daemon-Ends (ok u) w version path = elim (Except-cases (load w.system path)) [
  | inl (e, is) ↦ rw (is, run_daemon) (inl (refl, refl, RunError.bad_config e, refl))
  | inr (c, loaded) ↦ rw (loaded, run_daemon) (run_config-Ends (ok tt) w version path c refl loaded)
]
